-- ===== src/Pool/Stopping/Rounds.antt =====
-- Turns of all threads, one after the other, until the threads have ended.
use small_program.Base.{
  ℕ, zero, suc, ◌+◌, ◌-◌, ◌*◌, ◌<◌, ◌≡◌, refl, sym, ap, ◌∙◌, subst, List, [], ◌∷◌, ◌++◌, dec_lt,
  false, length, length-replicate, arith,
}
use small_program.Download.{Stream}
use small_program.Pool.{
  ThreadPool, Phase, checks, takes, stops, drains, pops, halts, ended, runs, finishes, Shared, turn,
  step, run,
}
use small_program.Pool.Started.{started, threads_of, start-eq}
use small_program.Pool.Ending.{spare, busy_turns}
use small_program.Pool.Parts.{ends}
use small_program.Pool.Parts.Schedules.{AllEnded, length-run}
use small_program.Pool.Stopping.Ending.{task_moves, busy_turns-started}

-- The numbers of `n` threads, from one on.
abbrev pub numbers : ℕ → ℕ → List ℕ
numbers i zero = []
numbers i (suc n) = i ∷ numbers (suc i) n

-- A turn of each of `n` threads, `k` times.
abbrev pub rounds : ℕ → ℕ → List ℕ
rounds n zero = []
rounds n (suc k) = numbers 0 n ++ rounds n k

run-append :
    (s : Shared) (ps : List Phase) (xs ys : List ℕ)
    → run s ps (xs ++ ys) ≡ run (run s ps xs).0 (run s ps xs).1 ys
unfolding run
run-append s ps [] ys = refl
run-append s ps (x ∷ xs) ys = run-append (step s ps x).0 (step s ps x).1 xs ys

busy_turns-append :
    (s : Shared) (ps : List Phase) (xs ys : List ℕ)
    → busy_turns s ps (xs ++ ys)
      ≡ busy_turns s ps xs + busy_turns (run s ps xs).0 (run s ps xs).1 ys
unfolding run
busy_turns-append s ps [] ys = omega arith
busy_turns-append s ps (x ∷ xs) ys =
    omega (arith, busy_turns-append (step s ps x).0 (step s ps x).1 xs ys)

ends-ended : (p : Phase) → 1 - ends p ≡ 0 → p ≡ ended
ends-ended checks e = absurd (omega (arith, e))
ends-ended takes e = absurd (omega (arith, e))
ends-ended stops e = absurd (omega (arith, e))
ends-ended drains e = absurd (omega (arith, e))
ends-ended pops e = absurd (omega (arith, e))
ends-ended halts e = absurd (omega (arith, e))
ends-ended ended e = refl
ends-ended (runs j t cs) e = absurd (omega (arith, e))
ends-ended (finishes j code) e = absurd (omega (arith, e))

busy_turns-later :
    (s : Shared) (p : Phase) (ps : List Phase) (i n : ℕ)
    → busy_turns s (p ∷ ps) (numbers (suc i) n) ≡ busy_turns s ps (numbers i n)
unfolding step
busy_turns-later s p ps i zero = refl
busy_turns-later s p ps i (suc n) =
    ap (λ b. 1 - spare ps i + b) (busy_turns-later (step s ps i).0 p (step s ps i).1 (suc i) n)

-- A round in which no thread moves.
quiet-AllEnded :
    (s : Shared) (ps : List Phase) → busy_turns s ps (numbers 0 (length ps)) ≡ 0 → AllEnded ps
unfolding step turn
quiet-AllEnded s [] e = tt
quiet-AllEnded s (p ∷ ps) e =
    (over, quiet-AllEnded s ps (sym (busy_turns-later s ended ps 0 (length ps)) ∙ rest))
  where
    over : p ≡ ended
    over = ends-ended p (omega (arith, e))

    rest : busy_turns s (ended ∷ ps) (numbers 1 (length ps)) ≡ 0
    rest = omega (
      arith,
      e,
      ap (λ q. busy_turns (turn s q).0 ((turn s q).1 ∷ ps) (numbers 1 (length ps))) over,
    )

step-AllEnded : (s : Shared) (ps : List Phase) (k : ℕ) → AllEnded ps → AllEnded (step s ps k).1
unfolding step turn
step-AllEnded s [] k h = tt
step-AllEnded s (p ∷ ps) zero h = (ap (λ q. (turn s q).1) h.0, h.1)
step-AllEnded s (p ∷ ps) (suc k) h = (h.0, step-AllEnded s ps k h.1)

run-AllEnded :
    (s : Shared) (ps : List Phase) (schedule : List ℕ)
    → AllEnded ps
    → AllEnded (run s ps schedule).1
unfolding run
run-AllEnded s ps [] h = h
run-AllEnded s ps (k ∷ ks) h =
    run-AllEnded (step s ps k).0 (step s ps k).1 ks (step-AllEnded s ps k h)

rounds-AllEnded :
    (s : Shared) (ps : List Phase) (n k : ℕ)
    → length ps ≡ n
    → busy_turns s ps (rounds n k) < k
    → AllEnded (run s ps (rounds n k)).1
rounds-AllEnded s ps n zero e h = absurd (omega (arith, h))
rounds-AllEnded s ps n (suc k) e h = elim (dec_lt 0 (busy_turns s ps (numbers 0 n))) [
  | no quiet ↦
      run-AllEnded s ps (rounds n (suc k))
        (quiet-AllEnded s ps (ap (λ m. busy_turns s ps (numbers 0 m)) e ∙ none_moves quiet))
  | yes busy ↦
      subst (λ r. AllEnded r.1) (sym (run-append s ps (numbers 0 n) (rounds n k)))
        (rounds-AllEnded (run s ps (numbers 0 n)).0 (run s ps (numbers 0 n)).1 n k
          (length-run s ps (numbers 0 n) ∙ e)
          (omega (arith, h, busy, busy_turns-append s ps (numbers 0 n) (rounds n k))))
]
  where
    none_moves : ¬ (0 < busy_turns s ps (numbers 0 n)) → busy_turns s ps (numbers 0 n) ≡ 0
    none_moves quiet = omega (arith, quiet)

-- A pool that was not running is started. After any turns of its threads and then so many
-- rounds, in each of which every thread has a turn, all threads have ended, whatever the
-- transfers of the tasks end with, Stop after a failure included. The condition is more rounds
-- than two for each thread, and for each task nine and one for each of its pieces together.
pub started-AllEnded :
    (pool : ThreadPool) (f : Stream) (schedule : List ℕ) (k : ℕ)
    → pool.running ≡ false
    → 2 * threads_of pool + task_moves pool.deque.items < k
    → AllEnded
        (run (started pool f).0 (started pool f).1 (schedule ++ rounds (threads_of pool) k)).1
started-AllEnded pool f schedule k off h =
    subst (λ r. AllEnded r.1)
      (sym (run-append (started pool f).0 (started pool f).1 schedule (rounds (threads_of pool) k)))
      (rounds-AllEnded (run (started pool f).0 (started pool f).1 schedule).0
        (run (started pool f).0 (started pool f).1 schedule).1 (threads_of pool) k
        (length-run (started pool f).0 (started pool f).1 schedule
          ∙ ap (λ r. length r.1) (start-eq pool off)
          ∙ length-replicate (threads_of pool) checks)
        (omega (
          arith,
          h,
          busy_turns-started pool f (schedule ++ rounds (threads_of pool) k) off,
          busy_turns-append (started pool f).0 (started pool f).1 schedule
              (rounds (threads_of pool) k),
        )))
