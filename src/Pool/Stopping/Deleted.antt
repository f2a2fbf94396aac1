-- ===== src/Pool/Stopping/Deleted.antt =====
-- What the threads of a pool leave when they have ended, whatever their tasks did.
use small_program.Base.{
  ℕ, zero, suc, ◌<◌, ◌≡◌, refl, sym, ap, inl, subst, List, [], ◌∷◌, false, dec_lt, nil_of_length,
  length, replicate, arith,
}
use small_program.Deque.{set_start}
use small_program.Download.{Stream, Job}
use small_program.Pool.{ThreadPool, Phase, checks, ended, Shared, run}
use small_program.Pool.Accounts.{total, accounts, start-run-accounts}
use small_program.Pool.Parts.Schedules.{AllEnded, AllEnded-all_held, length-run}
use small_program.Pool.Started.{started, threads_of, start-eq, some_threads}
use small_program.Pool.Parts.{ends}
use small_program.Pool.Stopping.{draining, halting}
use small_program.Pool.Stopping.Turns.{sum_of, InOrder, run-InOrder}

sum_of-ended : (f : Phase → ℕ) (ps : List Phase) → f ended ≡ 0 → AllEnded ps → sum_of f ps ≡ 0
sum_of-ended f [] e h = refl
sum_of-ended f (p ∷ ps) e h = omega (arith, ap f h.0, e, sum_of-ended f ps e h.1)

length-ends : (ps : List Phase) → AllEnded ps → sum_of ends ps ≡ length ps
length-ends [] h = refl
length-ends (p ∷ ps) h = omega (arith, ap ends h.0, length-ends ps h.1)

sum_of-replicate : (f : Phase → ℕ) (n : ℕ) → f checks ≡ 0 → sum_of f (replicate n checks) ≡ 0
sum_of-replicate f zero e = refl
sum_of-replicate f (suc n) e = omega (arith, e, sum_of-replicate f n e)

pub started-InOrder :
    (pool : ThreadPool) (f : Stream) → pool.running ≡ false → InOrder 0 0 0 (started pool f)
unfolding set_start
started-InOrder pool f off =
    subst (λ r. InOrder 0 0 0 (record { pool = r.0; file = f; deleted = [] }, r.1))
      (sym (start-eq pool off))
      (record {
        queue_stopped = inl refl;
        found_empty = inl (omega (arith, sum_of-replicate halting (threads_of pool) refl));
        pool_stopped = inl refl;
        over = inl (omega (arith, sum_of-replicate ends (threads_of pool) refl));
      })

module _ (pool : ThreadPool) (f : Stream) (schedule : List ℕ) where
  abbrev pub outcome : Shared × List Phase
  outcome = run (started pool f).0 (started pool f).1 schedule

  -- No task is left in the queue.
  emptied :
      pool.running ≡ false
      → 0 < pool.thread_num
      → 0 < length pool.deque.items
      → AllEnded outcome.1
      → length outcome.0.pool.deque.items ≡ 0
  emptied off h full over = ground (
    arith,
    order.over,
    sum_of-ended draining outcome.1 refl over,
    length-ends outcome.1 over,
    some_threads pool off h full,
    length-run (started pool f).0 (started pool f).1 schedule,
  )
    where
      order : InOrder 0 0 0 outcome
      order =
          run-InOrder (started pool f).0 (started pool f).1 schedule (started-InOrder pool f off)

  -- A pool is started that was not running, with any tasks, whose transfers may fail. Once all
  -- threads have ended, in any schedule, the tasks that were deleted weigh what the queue
  -- weighed at the start, whatever weights the tasks are given: so each task is deleted once, by
  -- the thread that ran it or by Stop. The condition is a positive number of threads.
  pub run-deleted :
      (w : Job → ℕ)
      → pool.running ≡ false
      → 0 < pool.thread_num
      → AllEnded outcome.1
      → total w outcome.0.deleted ≡ total w pool.deque.items
  run-deleted w off h over = elim (dec_lt 0 (length pool.deque.items)) [
    | no none_there ↦
        omega
          (arith, counts, ap (total w) (nil_of_length pool.deque.items (omega (arith, none_there))))
    | yes some_there ↦ omega (
      arith,
      counts,
      AllEnded-all_held w outcome.1 over,
      ap (total w) (nil_of_length outcome.0.pool.deque.items (emptied off h some_there over)),
    )
  ]
    where
      counts : accounts w outcome.0 outcome.1 ≡ total w pool.deque.items
      counts = start-run-accounts w pool f schedule
