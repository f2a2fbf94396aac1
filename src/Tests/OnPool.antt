-- ===== src/Tests/OnPool.antt =====
-- The thread pool and its queue: runs of two threads.
use small_program.Base.{
  ℕ, ◌≡◌, refl, List, [], ◌∷◌, ◌++◌, true, false, ltb, leb, ◌&&◌, if◌then◌else◌, arith,
}
use small_program.Deque.{pos, negsuc}
use small_program.Deque.Order.{Traffic, Call, pushes, pops, calls, InOrder, calls-InOrder}
use small_program.Pool.{ThreadPool, start, run}
use small_program.Pool.Accounts.{total, accounts, start-run-accounts}
use small_program.Pool.Parts.Schedules.{AllEnded}
use small_program.Pool.Started.{started, threads_of}
use small_program.Pool.Whole.{run-whole}
use small_program.Pool.Stopping.Deleted.{run-deleted}
use small_program.Pool.Stopping.Rounds.{rounds, started-AllEnded}
use small_program.Tests.OnDownload.{zeros, counting, first_job, last_job, sample-Jobs}

-- A queue of two.
abbrev fresh : Traffic ℕ
fresh = record {
  handed_in = [];
  handed_out = [];
  queue = record { items = []; max_capacity = pos 2; running = true };
}

abbrev some_calls : List (Call ℕ)
some_calls = pops ∷ pushes 1 ∷ pushes 2 ∷ pushes 3 ∷ pops ∷ pushes 4 ∷ []

calls-InOrder_example : InOrder (calls fresh some_calls)
calls-InOrder_example = calls-InOrder fresh some_calls (refl, λ h. omega arith)

-- Two tasks, and a pool for at most four threads.
abbrev two_tasks : ThreadPool
two_tasks = record {
  running = false;
  deque = record { items = first_job ∷ last_job ∷ []; max_capacity = negsuc 0; running = true };
  thread_num = 4;
}

-- The threads take turns.
abbrev in_turns : List ℕ
in_turns = 0 ∷ 1 ∷ 0 ∷ 1 ∷ 0 ∷ 1 ∷ 0 ∷ 1 ∷ 0 ∷ 1 ∷ 0 ∷ 1 ∷ 0 ∷ 1 ∷ 0 ∷ 1 ∷ 0 ∷ 1 ∷ 0 ∷ 1 ∷ []

in_turns-AllEnded :
    AllEnded (run (started two_tasks zeros).0 (started two_tasks zeros).1 in_turns).1
unfolding run start
in_turns-AllEnded = (refl, (refl, tt))

run-whole_example :
    (run (started two_tasks zeros).0 (started two_tasks zeros).1 in_turns).0.file.content 3
    ≡ (if leb 0 3 && ltb 3 5 then counting 3 else 0)
run-whole_example =
    run-whole counting 3 two_tasks zeros in_turns 0 5 refl (omega arith) sample-Jobs
      in_turns-AllEnded

start-run-accounts_example :
    accounts
      (λ j. 1)
      (run (started two_tasks zeros).0 (started two_tasks zeros).1 in_turns).0
      (run (started two_tasks zeros).0 (started two_tasks zeros).1 in_turns).1
    ≡ 2
start-run-accounts_example = start-run-accounts (λ j. 1) two_tasks zeros in_turns

-- One of the threads takes a task whose transfer fails.
abbrev failing : ThreadPool
failing = record two_tasks {
  deque = record two_tasks.deque { items = record first_job { code = 7 } ∷ last_job ∷ [] };
}

failing-AllEnded :
    AllEnded (run (started failing zeros).0 (started failing zeros).1 (in_turns ++ in_turns)).1
unfolding run start
failing-AllEnded = (refl, (refl, tt))

run-deleted_example :
    total
      (λ j. 1)
      (run (started failing zeros).0 (started failing zeros).1 (in_turns ++ in_turns)).0.deleted
    ≡ 2
run-deleted_example =
    run-deleted failing zeros (in_turns ++ in_turns) (λ j. 1) refl (omega arith) failing-AllEnded

started-AllEnded_example :
    AllEnded
      (run
        (started failing zeros).0
        (started failing zeros).1
        (in_turns ++ rounds (threads_of failing) 40)).1
started-AllEnded_example = started-AllEnded failing zeros in_turns 40 refl (omega arith)
