-- ===== src/Factory/Faults.antt =====
-- Downloads whose end is undefined.
use small_program.Base.{
  Result, replicate, length, length-replicate, lt→ltb, true, none, Bool-cases, inl, inr, zero, suc,
  [], nil_of_length, ℕ, ◌+◌, ◌*◌, ◌<◌, ◌≡◌, refl, ap, ◌∙◌, List, ◌++◌, some, Bool, false, ltb,
  if◌then◌else◌, arith, ok, err, undefined, uncaught, ◌>>=◌,
}
use small_program.Deque.{pos, negsuc}
use small_program.Download.{CurlHttpTask, make_task}
use small_program.Pool.Stopping.Ending.{task_moves}
use small_program.Pool.Stopping.Rounds.{rounds}
use small_program.Factory.{
  Arrivals, Outcome, join_all, joins, touch, create, fopen, close, join_and_close, init, download,
  from_tasks, with_thread_num, main,
}
use small_program.Factory.Tasks.{jobs_of, push_tasks-eq}
use small_program.Factory.Downloads.{
  thread_count, left, join_all-fresh, length-left, main-eq, join_and_close-eq,
}

join_all-again : (n : ℕ) → 0 < n → join_all (replicate n true) ≡ err undefined
unfolding join_all
join_all-again zero h = absurd (omega (arith, h))
join_all-again (suc n) h = refl

joins-twice :
    (cpu_num threads : ℕ) → 0 < threads → threads < cpu_num → joins cpu_num threads ≡ err undefined
unfolding joins
joins-twice cpu_num threads h h' =
    ap
      (λ b.
        (if b then join_all (replicate threads false) else ok (replicate threads false)) >>= λ hs.
        join_all hs)
      (lt→ltb (length (replicate threads false)) cpu_num
        (omega (arith, h', length-replicate threads false)))
    ∙ ap (λ m. m >>= λ hs. join_all hs) (join_all-fresh threads)
    ∙ join_all-again threads h

joined_twice :
    (cpu_num threads : ℕ) (rest : Result Outcome)
    → 0 < threads
    → threads < cpu_num
    → (joins cpu_num threads >>= λ _. rest) ≡ err undefined
joined_twice cpu_num threads rest h h' =
    ap (λ m. m >>= λ _. rest) (joins-twice cpu_num threads h h')

-- No threads are no threads to join.
joins-zero : (cpu_num : ℕ) → joins cpu_num 0 ≡ ok []
unfolding joins join_all
joins-zero cpu_num = elim (Bool-cases (ltb 0 cpu_num)) [ inl b ↦ rw b refl | inr b ↦ rw b refl ]

-- Where there are more processors than threads, main is undefined, since Join joins threads that
-- the loop of Start has joined, whatever arrives for the tasks and however the turns of the
-- threads interleave before rounds in which each thread has a turn. The conditions: MakeTask
-- makes the tasks, the memory of m_mutex and m_con happens to be as if they were initialized, a
-- thread starts, and there are more rounds than the threads can have use for.
pub main-joins_twice :
    (arrive : Arrivals) (cpu_num n len : ℕ) (opened : Bool) (ts : List CurlHttpTask)
    (schedule : List ℕ) (k : ℕ)
    → make_task len opened ≡ ok (some ts)
    → 0 < thread_count ts n
    → thread_count ts n < cpu_num
    → 2 * thread_count ts n + task_moves (jobs_of arrive ts) < k
    → main true cpu_num
        (with_thread_num (pos n))
        len
        opened
        arrive
        (schedule ++ rounds (thread_count ts n) k)
      ≡ err undefined
main-joins_twice arrive cpu_num n len opened ts schedule k made some_threads cpus enough =
    main-eq cpu_num n len opened arrive ts (schedule ++ rounds (thread_count ts n) k) made
    ∙ join_and_close-eq arrive ts n schedule k cpu_num opened enough
    ∙ joined_twice cpu_num (thread_count ts n) _ some_threads cpus

-- A negative number of threads, where MakeTask has made the tasks.
main-negative :
    (arrive : Arrivals) (cpu_num n len : ℕ) (opened : Bool) (ts : List CurlHttpTask)
    (schedule : List ℕ)
    → make_task len opened ≡ ok (some ts)
    → main true cpu_num (with_thread_num (negsuc n)) len opened arrive schedule ≡ err uncaught
unfolding main from_tasks download init touch create small_program.Pool.create
main-negative arrive cpu_num n len opened ts schedule made =
    ap (λ m. m >>= λ tasks. from_tasks true cpu_num (negsuc n) opened arrive tasks schedule) made
    ∙ ap (λ m. m >>= λ o. download true cpu_num (negsuc n) opened o schedule)
        (push_tasks-eq arrive create.pool ts refl)

-- No thread is started for no tasks.
left-nil : (arrive : Arrivals) (n : ℕ) (schedule : List ℕ) → (left arrive [] n schedule).1 ≡ []
left-nil arrive n schedule =
    nil_of_length (left arrive [] n schedule).1 (length-left arrive [] n schedule ∙ ground arith)

-- Where the length of the file is known and the target cannot be opened, the destructor closes
-- NULL, which is undefined.
pub main-not_opened :
    (arrive : Arrivals) (cpu_num n len : ℕ) (schedule : List ℕ)
    → 0 < len
    → main true cpu_num (with_thread_num (pos n)) len false arrive schedule ≡ err undefined
unfolding make_task join_and_close close
main-not_opened arrive cpu_num n zero schedule h = absurd (omega (arith, h))
main-not_opened arrive cpu_num n (suc len) schedule h =
    main-eq cpu_num n (suc len) false arrive [] schedule refl
    ∙ ap (λ ps. join_and_close cpu_num (fopen false) ((left arrive [] n schedule).0, ps))
        (left-nil arrive n schedule)
    ∙ ap (λ m. m >>= λ _. close none (left arrive [] n schedule).0.file) (joins-zero cpu_num)
