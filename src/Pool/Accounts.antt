-- ===== src/Pool/Accounts.antt =====
-- Where the tasks of a pool are: in its queue, with a thread, or deleted.
use small_program.Base.{
  ℕ, zero, suc, ◌+◌, ◌≡◌, refl, sym, ap, ◌∙◌, List, [], ◌∷◌, Option, none, some, Bool, true, false,
  ◌==◌, ◌||◌, length, replicate, if◌then◌else◌, arith, Bool-cases, inl, inr,
}
use small_program.Deque.{KDeque, take_front, pop_front, set_stop, set_start, empty}
use small_program.Download.{Stream, write_data, Job}
use small_program.Pool.{
  ThreadPool, Phase, checks, takes, stops, drains, pops, halts, ended, runs, finishes, start,
  at_most, max_thread_num, Shared, begins, delete_task, turn, step, run,
}

-- What tasks weigh together.
abbrev pub total : (Job → ℕ) → List Job → ℕ
total w [] = 0
total w (j ∷ js) = w j + total w js

abbrev pub of_option : (Job → ℕ) → Option Job → ℕ
of_option w none = 0
of_option w (some j) = w j

-- The task that a thread holds.
abbrev pub held : (Job → ℕ) → Phase → ℕ
held w (runs j t cs) = w j
held w (finishes j code) = w j
held w checks = 0
held w takes = 0
held w stops = 0
held w drains = 0
held w pops = 0
held w halts = 0
held w ended = 0

abbrev pub all_held : (Job → ℕ) → List Phase → ℕ
all_held w [] = 0
all_held w (p ∷ ps) = held w p + all_held w ps

-- The tasks that are deleted, held by threads, and queued.
abbrev pub accounts : (Job → ℕ) → Shared → List Phase → ℕ
accounts w s ps = total w s.deleted + all_held w ps + total w s.pool.deque.items

module _ (w : Job → ℕ) where
  taken_total :
      (d : KDeque Job) (running : Bool) (items : List Job)
      → d.items ≡ items
      → of_option w (take_front d running items).0 + total w (take_front d running items).1.items
        ≡ total w d.items
  unfolding take_front
  taken_total d false items e = omega arith
  taken_total d true [] e = omega arith
  taken_total d true (x ∷ xs) e = sym (ap (total w) e)

  popped_total :
      (d : KDeque Job)
      → of_option w (pop_front d).0 + total w (pop_front d).1.items ≡ total w d.items
  unfolding pop_front
  popped_total d = taken_total d d.running d.items refl

  held-begins : (o : Option Job) → held w (begins o) ≡ of_option w o
  held-begins none = refl
  held-begins (some j) = refl

  total-delete_task :
      (deleted : List Job) (o : Option Job)
      → total w (delete_task deleted o) ≡ of_option w o + total w deleted
  total-delete_task deleted none = omega arith
  total-delete_task deleted (some j) = refl

  held-if : (b : Bool) (p q : Phase) → held w p ≡ held w q → held w (if b then p else q) ≡ held w q
  held-if true p q e = e
  held-if false p q e = refl

  -- A thread's turn.
  turn_accounts :
      (s : Shared) (p : Phase)
      → total w (turn s p).0.deleted + held w (turn s p).1 + total w (turn s p).0.pool.deque.items
        ≡ total w s.deleted + held w p + total w s.pool.deque.items
  unfolding turn set_stop
  turn_accounts s checks = omega (arith, held-if s.pool.running takes ended refl)
  turn_accounts s takes =
      omega (arith, held-begins (pop_front s.pool.deque).0, popped_total s.pool.deque)
  turn_accounts s (runs j t []) = refl
  turn_accounts s (runs j t (c ∷ cs)) = omega (
    arith,
    held-if ((write_data t s.file c).written == length c) (runs j (write_data t s.file c).task cs)
        (finishes j 23) refl,
  )
  turn_accounts s (finishes j code) =
      omega (arith, held-if (code == 0 || code == 23) checks stops refl)
  turn_accounts s stops = omega (arith, held-if s.pool.running drains checks refl)
  turn_accounts s drains = omega (arith, held-if (empty s.pool.deque) halts pops refl)
  turn_accounts s pops =
      omega
        (arith, total-delete_task s.deleted (pop_front s.pool.deque).0, popped_total s.pool.deque)
  turn_accounts s halts = refl
  turn_accounts s ended = refl

  step-accounts :
      (s : Shared) (ps : List Phase) (i : ℕ)
      → accounts w (step s ps i).0 (step s ps i).1 ≡ accounts w s ps
  unfolding step
  step-accounts s [] i = refl
  step-accounts s (p ∷ ps) zero = omega (arith, turn_accounts s p)
  step-accounts s (p ∷ ps) (suc i) = omega (arith, step-accounts s ps i)

  pub run-accounts :
      (s : Shared) (ps : List Phase) (schedule : List ℕ)
      → accounts w (run s ps schedule).0 (run s ps schedule).1 ≡ accounts w s ps
  unfolding run
  run-accounts s ps [] = refl
  run-accounts s ps (i ∷ is) =
      run-accounts (step s ps i).0 (step s ps i).1 is ∙ step-accounts s ps i

  all_held-replicate : (n : ℕ) → all_held w (replicate n checks) ≡ 0
  all_held-replicate zero = refl
  all_held-replicate (suc n) = omega (arith, all_held-replicate n)

  start-accounts :
      (pool : ThreadPool) (f : Stream)
      → accounts w (record { pool = (start pool).0; file = f; deleted = [] }) (start pool).1
        ≡ total w pool.deque.items
  unfolding start set_start
  start-accounts pool f = elim (Bool-cases pool.running) [
    | inl on ↦ simp on (omega arith)
    | inr off ↦ rw off (
        omega (
          arith,
          all_held-replicate
              (at_most max_thread_num (at_most (length pool.deque.items) pool.thread_num)),
        ))
  ]

  -- After a pool was started, and after any turns of its threads, failures of tasks and the Stop
  -- that follows them included, the tasks that were deleted, the ones that the threads hold, and
  -- the ones in the queue weigh together what the queue weighed at the start, whatever weights
  -- the tasks are given: so no task is lost, held by two threads, or deleted twice.
  pub start-run-accounts :
      (pool : ThreadPool) (f : Stream) (schedule : List ℕ)
      → let r =
          run (record { pool = (start pool).0; file = f; deleted = [] }) (start pool).1 schedule in
        accounts w r.0 r.1 ≡ total w pool.deque.items
  start-run-accounts pool f schedule =
      run-accounts (record { pool = (start pool).0; file = f; deleted = [] }) (start pool).1
        schedule
      ∙ start-accounts pool f
