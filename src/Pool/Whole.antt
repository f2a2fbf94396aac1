-- ===== src/Pool/Whole.antt =====
-- What the threads leave in the file when they have ended.
use small_program.Base.{
  ℕ, zero, suc, ◌+◌, ◌<◌, ◌≡◌, refl, sym, ap, ◌∙◌, subst, List, [], false, ltb, leb, ◌&&◌,
  if◌then◌else◌, arith, replicate,
}
use small_program.Deque.{set_start}
use small_program.Download.{Stream, Job}
use small_program.Download.Whole.{Jobs, none_left, job, Jobs-le}
use small_program.Pool.{ThreadPool, Phase, checks, start, Shared, run}
use small_program.Pool.Accounts.{total}
use small_program.Pool.Started.{started, threads_of, start-eq}
use small_program.Pool.Stopping.Deleted.{run-deleted}
use small_program.Pool.Parts.{AllSupplied, cover}
use small_program.Pool.Parts.Schedules.{
  AllSound, all_covered, all_ends, AllEnded, AllEnded-all_covered, AllGo, run-Goes,
}

pub Jobs-AllSupplied :
    (source : ℕ → ℕ) (start end : ℕ) (jobs : List Job)
    → Jobs source start jobs end
    → AllSupplied source jobs
Jobs-AllSupplied source _ _ _ (none_left n) = tt
Jobs-AllSupplied source _ end _ (job {t} {jobs = jobs} r h full e same js) = (
  record { ranged = r; order = h; filled = full; whole = e; same = same; no_error = refl },
  Jobs-AllSupplied source (t.stop_pos + 1) end jobs js,
)

-- Tasks whose ranges follow each other cover the offsets between the ends.
Jobs-cover :
    (source : ℕ → ℕ) (i start end : ℕ) (jobs : List Job)
    → Jobs source start jobs end
    → ltb 0 (total (cover i) jobs) ≡ (leb start i && ltb i end)
Jobs-cover source i _ _ _ (none_left n) = ground arith
Jobs-cover source i _ end _ (job {t} {jobs = jobs} r h full e same js) = ground (
  arith,
  h,
  Jobs-cover source i (t.stop_pos + 1) end jobs js,
  Jobs-le source (t.stop_pos + 1) end jobs js,
)

module _ (source old : ℕ → ℕ) (i : ℕ) where
  replicate-AllSound : (n : ℕ) → AllSound source (replicate n checks)
  replicate-AllSound zero = tt
  replicate-AllSound (suc n) = (tt, replicate-AllSound n)

  all_covered-replicate : (n : ℕ) → all_covered i (replicate n checks) ≡ 0
  all_covered-replicate zero = refl
  all_covered-replicate (suc n) = omega (arith, all_covered-replicate n)

  all_ends-replicate : (n : ℕ) → all_ends (replicate n checks) ≡ 0
  all_ends-replicate zero = refl
  all_ends-replicate (suc n) = omega (arith, all_ends-replicate n)

pub started-AllGo :
    (source : ℕ → ℕ) (i : ℕ) (pool : ThreadPool) (f : Stream)
    → pool.running ≡ false
    → AllSupplied source pool.deque.items
    → AllGo source f.content i 0 0 (started pool f)
unfolding set_start
started-AllGo source i pool f off g =
    subst (λ r. AllGo source f.content i 0 0 (record { pool = r.0; file = f; deleted = [] }, r.1))
      (sym (start-eq pool off))
      (
        replicate-AllSound source f.content i (threads_of pool),
        record {
          on = refl;
          serves = refl;
          queued = g;
          content = ground (arith, all_covered-replicate source f.content i (threads_of pool));
          idle = λ h.
              absurd (omega (arith, h, all_ends-replicate source f.content i (threads_of pool)));
        },
      )

module _ (source : ℕ → ℕ) (i : ℕ) (pool : ThreadPool) (f : Stream) (schedule : List ℕ) where
  abbrev pub outcome : Shared × List Phase
  outcome = run (started pool f).0 (started pool f).1 schedule

  -- A pool is started with a queue of tasks whose ranges follow each other, to each of which the
  -- bytes of its range arrive in pieces that are not empty from a transfer without an error.
  -- However the turns of its threads interleave, between the locked regions of write_data too,
  -- once all threads have ended the file has the source's bytes at every offset of the ranges
  -- together, and every other offset as it was. The conditions: the pool was not running, and it
  -- has a thread.
  pub run-whole :
      (start end : ℕ)
      → pool.running ≡ false
      → 0 < pool.thread_num
      → Jobs source start pool.deque.items end
      → AllEnded outcome.1
      → outcome.0.file.content i ≡ (if leb start i && ltb i end then source i else f.content i)
  run-whole start end off h js over =
      went.1.content
      ∙ ap (λ b. if b then source i else f.content i)
          (ap (ltb 0) counts ∙ Jobs-cover source i start end pool.deque.items js)
    where
      went : AllGo source f.content i 0 0 outcome
      went = run-Goes source f.content i (started pool f).0 (started pool f).1 schedule 0 0 (
          started-AllGo source i pool f off (Jobs-AllSupplied source start end pool.deque.items js))

      counts :
          total (cover i) outcome.0.deleted + (all_covered i outcome.1 + 0)
          ≡ total (cover i) pool.deque.items
      counts = omega (
        arith,
        run-deleted pool f schedule (cover i) off h over,
        AllEnded-all_covered i outcome.1 over,
      )
