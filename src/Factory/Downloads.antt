-- ===== src/Factory/Downloads.antt =====
-- The file that a download leaves.
use small_program.Base.{
  ℕ, ◌+◌, ◌*◌, ◌<◌, ◌≤◌, ◌≡◌, refl, sym, ap, ◌∙◌, subst, List, [], ◌∷◌, ◌++◌, some, Bool, true,
  false, ltb, leb, ◌&&◌, length, length-replicate, replicate, zero, suc, le→ltb, if◌then◌else◌,
  arith, Result, ok, ◌>>=◌,
}
use small_program.Deque.{pos}
use small_program.Download.{CurlHttpTask, Stream, range_size, make_task}
use small_program.Download.Ranges.{IsChain, make_task-IsChain}
use small_program.Download.Whole.{Jobs}
use small_program.Pool.{
  ThreadPool, Phase, ended, checks, at_most, max_thread_num, Shared, run, start,
}
use small_program.Pool.Started.{started, threads_of, start-eq}
use small_program.Pool.Parts.Schedules.{AllEnded, length-run}
use small_program.Pool.Whole.{run-whole}
use small_program.Pool.Stopping.Ending.{task_moves}
use small_program.Pool.Stopping.Rounds.{rounds, started-AllEnded}
use small_program.Factory.{
  join_all, joins, touch, Arrivals, Outcome, waits, create, empty_file, fopen, has_ended, all_ended,
  close, join_and_close, init, download, from_tasks, with_thread_num, returns, main,
}
use small_program.Factory.Tasks.{
  jobs_of, length-jobs_of, with_jobs, push_tasks-eq, Serves, made-tasks, make_task-AllRanged,
  chain-Jobs,
}

-- The threads of a pool with these tasks.
abbrev pub thread_count : List CurlHttpTask → ℕ → ℕ
thread_count ts n = at_most max_thread_num (at_most (length ts) n)

-- The pool when Start is called.
abbrev pub loaded : Arrivals → List CurlHttpTask → ℕ → ThreadPool
unfolding create
loaded arrive ts n = record (with_jobs create.pool (jobs_of arrive ts)) { thread_num = n }

pub loaded-jobs :
    (arrive : Arrivals) (ts : List CurlHttpTask) (n : ℕ)
    → (loaded arrive ts n).deque.items ≡ jobs_of arrive ts
unfolding create small_program.Pool.create
loaded-jobs arrive ts n = refl

loaded-idle :
    (arrive : Arrivals) (ts : List CurlHttpTask) (n : ℕ) → (loaded arrive ts n).running ≡ false
unfolding create small_program.Pool.create
loaded-idle arrive ts n = refl

loaded-num :
    (arrive : Arrivals) (ts : List CurlHttpTask) (n : ℕ) → (loaded arrive ts n).thread_num ≡ n
unfolding create small_program.Pool.create
loaded-num arrive ts n = refl

-- What the threads leave.
abbrev pub left : Arrivals → List CurlHttpTask → ℕ → List ℕ → Shared × List Phase
left arrive ts n schedule =
    run (started (loaded arrive ts n) empty_file).0 (started (loaded arrive ts n) empty_file).1
      schedule

pub main-eq :
    (cpu_num n len : ℕ) (opened : Bool) (arrive : Arrivals) (ts : List CurlHttpTask)
    (schedule : List ℕ)
    → make_task len opened ≡ ok (some ts)
    → main true cpu_num (with_thread_num (pos n)) len opened arrive schedule
      ≡ join_and_close cpu_num (fopen opened) (left arrive ts n schedule)
unfolding main from_tasks download init touch create small_program.Pool.create
main-eq cpu_num n len opened arrive ts schedule e =
    ap (λ m. m >>= λ made. from_tasks true cpu_num (pos n) opened arrive made schedule) e
    ∙ ap (λ m. m >>= λ o. download true cpu_num (pos n) opened o schedule)
        (push_tasks-eq arrive create.pool ts refl)

all_ended-true : (ps : List Phase) → AllEnded ps → all_ended ps ≡ true
all_ended-true [] h = refl
all_ended-true (p ∷ ps) h = rw (ap has_ended h.0, all_ended-true ps h.1) refl

loaded-threads :
    (arrive : Arrivals) (ts : List CurlHttpTask) (n : ℕ)
    → threads_of (loaded arrive ts n) ≡ thread_count ts n
unfolding create small_program.Pool.create
loaded-threads arrive ts n =
    ap (λ m. at_most max_thread_num (at_most m n)) (length-jobs_of arrive ts)

pub length-left :
    (arrive : Arrivals) (ts : List CurlHttpTask) (n : ℕ) (schedule : List ℕ)
    → length (left arrive ts n schedule).1 ≡ thread_count ts n
length-left arrive ts n schedule =
    length-run (started (loaded arrive ts n) empty_file).0
      (started (loaded arrive ts n) empty_file).1 schedule
    ∙ ap (λ r. length r.1) (start-eq (loaded arrive ts n) (loaded-idle arrive ts n))
    ∙ length-replicate (threads_of (loaded arrive ts n)) checks
    ∙ loaded-threads arrive ts n

module _ (arrive : Arrivals) (ts : List CurlHttpTask) (n : ℕ) (schedule : List ℕ) (k : ℕ) where
  -- Turns in any order, and then rounds.
  abbrev pub fair : List ℕ
  fair = schedule ++ rounds (thread_count ts n) k

  pub left-AllEnded :
      2 * thread_count ts n + task_moves (jobs_of arrive ts) < k
      → AllEnded (left arrive ts n fair).1
  left-AllEnded h =
      subst (λ m. AllEnded (left arrive ts n (schedule ++ rounds m k)).1)
        (loaded-threads arrive ts n)
        (started-AllEnded (loaded arrive ts n) empty_file schedule k (loaded-idle arrive ts n) (
          subst (λ m. 2 * m + task_moves (loaded arrive ts n).deque.items < k)
            (sym (loaded-threads arrive ts n))
            (subst (λ js. 2 * thread_count ts n + task_moves js < k) (sym (loaded-jobs arrive ts n))
              h)))

  pub join_and_close-eq :
      (cpu_num : ℕ) (opened : Bool)
      → 2 * thread_count ts n + task_moves (jobs_of arrive ts) < k
      → join_and_close cpu_num (fopen opened) (left arrive ts n fair) ≡ (
          joins cpu_num (thread_count ts n) >>= λ _.
          close (fopen opened) (left arrive ts n fair).0.file)
  unfolding join_and_close
  join_and_close-eq cpu_num opened h =
      ap (λ b. if b then joined_by (length (left arrive ts n fair).1) else ok waits)
        (all_ended-true (left arrive ts n fair).1 (left-AllEnded h))
      ∙ ap joined_by (length-left arrive ts n fair)
    where
      joined_by : ℕ → Result Outcome
      joined_by m = joins cpu_num m >>= λ _. close (fopen opened) (left arrive ts n fair).0.file

pub join_all-fresh : (n : ℕ) → join_all (replicate n false) ≡ ok (replicate n true)
unfolding join_all
join_all-fresh zero = refl
join_all-fresh (suc n) = ap (λ m. m >>= λ rest. ok (true ∷ rest)) (join_all-fresh n)

-- The joins of Join alone.
joins-once :
    (cpu_num threads : ℕ) → cpu_num ≤ threads → joins cpu_num threads ≡ ok (replicate threads true)
unfolding joins
joins-once cpu_num threads h =
    ap
      (λ b.
        (if b then join_all (replicate threads false) else ok (replicate threads false)) >>= λ hs.
        join_all hs)
      (le→ltb (length (replicate threads false)) cpu_num
        (omega (arith, h, length-replicate threads false)))
    ∙ join_all-fresh threads

closes :
    (cpu_num threads : ℕ) (f : Stream)
    → cpu_num ≤ threads
    → (joins cpu_num threads >>= λ _. close (fopen true) f) ≡ ok (returns f)
unfolding close
closes cpu_num threads f h =
    ap (λ m. m >>= λ _. close (fopen true) f) (joins-once cpu_num threads h)

whole_range :
    (len i byte : ℕ) → (if leb 0 i && ltb i len then byte else 0) ≡ (if ltb i len then byte else 0)
whole_range len i byte = ground arith

-- A file of more than 10 MB and less than 2050 MB is cut into tasks, and to each arrive the
-- source's bytes of its range, in pieces that are not empty, from a transfer without an error.
-- Then main, with a positive number of threads as its last argument, returns, and leaves a file
-- that has the source's bytes at every offset of the file, however the turns of its threads
-- interleave before rounds in which each thread has a turn. The conditions: the target can be
-- opened, the memory of m_mutex and m_con, which are used before they are initialized, happens
-- to be that of a free mutex and of a condition without waiters, there are not more processors
-- than threads, and there are more rounds than the threads can have use for.
pub main-whole :
    (source : ℕ → ℕ) (arrive : Arrivals) (cpu_num n len : ℕ) (ts : List CurlHttpTask)
    (schedule : List ℕ) (k : ℕ)
    → range_size < len
    → len < 205 * range_size
    → make_task len true ≡ ok (some ts)
    → ((t : CurlHttpTask) → t.start_pos ≤ t.stop_pos → Serves source arrive t)
    → 0 < n
    → cpu_num ≤ thread_count ts n
    → 2 * thread_count ts n + task_moves (jobs_of arrive ts) < k
    → (f : Stream) × (main true cpu_num
          (with_thread_num (pos n))
          len
          true
          arrive
          (schedule ++ rounds (thread_count ts n) k)
        ≡ ok (returns f))
      × ((i : ℕ) → f.content i ≡ (if ltb i len then source i else 0))
main-whole source arrive cpu_num n len ts schedule k large small made serve some_num cpus enough = (
  (left arrive ts n fair_turns).0.file,
  main-eq cpu_num n len true arrive ts fair_turns made
      ∙ join_and_close-eq arrive ts n schedule k cpu_num true enough
      ∙ closes cpu_num (thread_count ts n) (left arrive ts n fair_turns).0.file cpus,
  λ i.
      run-whole source i (loaded arrive ts n) empty_file fair_turns 0 len (loaded-idle arrive ts n)
        (subst (λ m. 0 < m) (sym (loaded-num arrive ts n)) some_num)
        (subst (λ js. Jobs source 0 js len) (sym (loaded-jobs arrive ts n)) jobs)
        (left-AllEnded arrive ts n schedule k enough)
      ∙ whole_range len i (source i),
)
  where
    fair_turns : List ℕ
    fair_turns = fair arrive ts n schedule k

    jobs : Jobs source 0 (jobs_of arrive ts) len
    jobs =
        chain-Jobs source arrive 0 len ts serve
          (made-tasks (λ us. IsChain 0 us len) (make_task len true) ts made
            (make_task-IsChain len (omega (arith, large)) small))
          (make_task-AllRanged len ts large small made)
