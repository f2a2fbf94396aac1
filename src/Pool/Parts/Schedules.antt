-- ===== src/Pool/Parts/Schedules.antt =====
-- The threads of a schedule, where no task fails.
use small_program.Base.{ℕ, zero, suc, ◌+◌, ◌≡◌, refl, ap, ◌∙◌, List, [], ◌∷◌, arith, length}
use small_program.Pool.{Phase, ended, Shared, turn, step, run}
use small_program.Pool.Accounts.{all_held, held}
use small_program.Pool.Parts.{Sound, covered, ends, Going}
use small_program.Pool.Parts.Turns.{counted, turn-Goes}
use small_program.Download.{Job}

abbrev pub AllSound : (ℕ → ℕ) → List Phase → Type 0
AllSound source [] = Unit {0}
AllSound source (p ∷ ps) = Sound source p × AllSound source ps

abbrev pub all_covered : ℕ → List Phase → ℕ
all_covered i [] = 0
all_covered i (p ∷ ps) = covered i p + all_covered i ps

abbrev pub all_ends : List Phase → ℕ
all_ends [] = 0
all_ends (p ∷ ps) = ends p + all_ends ps

-- Every thread has ended.
abbrev pub AllEnded : List Phase → Type 0
AllEnded [] = Unit {0}
AllEnded (p ∷ ps) = (p ≡ ended) × AllEnded ps

pub AllEnded-all_held : (w : Job → ℕ) (ps : List Phase) → AllEnded ps → all_held w ps ≡ 0
AllEnded-all_held w [] h = refl
AllEnded-all_held w (p ∷ ps) h = omega (arith, ap (held w) h.0, AllEnded-all_held w ps h.1)

pub AllEnded-all_covered : (i : ℕ) (ps : List Phase) → AllEnded ps → all_covered i ps ≡ 0
AllEnded-all_covered i [] h = refl
AllEnded-all_covered i (p ∷ ps) h = omega (arith, ap (covered i) h.0, AllEnded-all_covered i ps h.1)

pub AllEnded-all_ends : (ps : List Phase) → AllEnded ps → all_ends ps ≡ length ps
AllEnded-all_ends [] h = refl
AllEnded-all_ends (p ∷ ps) h = omega (arith, ap ends h.0, AllEnded-all_ends ps h.1)

length-step : (s : Shared) (ps : List Phase) (i : ℕ) → length (step s ps i).1 ≡ length ps
unfolding step
length-step s [] i = refl
length-step s (p ∷ ps) zero = refl
length-step s (p ∷ ps) (suc i) = omega (arith, length-step s ps i)

pub length-run :
    (s : Shared) (ps : List Phase) (schedule : List ℕ) → length (run s ps schedule).1 ≡ length ps
unfolding run
length-run s ps [] = refl
length-run s ps (i ∷ is) = length-run (step s ps i).0 (step s ps i).1 is ∙ length-step s ps i

module _ (source old : ℕ → ℕ) (i : ℕ) where
  -- What the turns leave.
  abbrev pub AllGo : ℕ → ℕ → Shared × List Phase → Type 0
  AllGo n m r =
      AllSound source r.1 × Going source old i r.0 (all_covered i r.1 + n) (all_ends r.1 + m)

  pub step-Goes :
      (s : Shared) (ps : List Phase) (k n m : ℕ) → AllGo n m (s, ps) → AllGo n m (step s ps k)
  unfolding step
  step-Goes s [] k n m g = g
  step-Goes s (p ∷ ps) zero n m g =
      let went = turn-Goes source old i s p (all_covered i ps + n) (all_ends ps + m) g.0.0 (
        counted source old i s (covered i p + (all_covered i ps + n)) (ends p + (all_ends ps + m))
          (omega arith) (omega arith) g.1) in
      (
        (went.0, g.0.1),
        counted source old i (turn s p).0 (covered i (turn s p).1 + all_covered i ps + n)
            (ends (turn s p).1 + all_ends ps + m) (omega arith) (omega arith) went.1,
      )
  step-Goes s (p ∷ ps) (suc k) n m g =
      let went = step-Goes s ps k (covered i p + n) (ends p + m) (
        g.0.1,
        counted source old i s (all_covered i ps + (covered i p + n)) (all_ends ps + (ends p + m))
            (omega arith) (omega arith) g.1,
      ) in
      (
        (g.0.0, went.0),
        counted source old i (step s ps k).0 (covered i p + all_covered i (step s ps k).1 + n)
            (ends p + all_ends (step s ps k).1 + m) (omega arith) (omega arith) went.1,
      )

  pub run-Goes :
      (s : Shared) (ps : List Phase) (schedule : List ℕ) (n m : ℕ)
      → AllGo n m (s, ps)
      → AllGo n m (run s ps schedule)
  unfolding run
  run-Goes s ps [] n m g = g
  run-Goes s ps (k ∷ ks) n m g =
      run-Goes (step s ps k).0 (step s ps k).1 ks n m (step-Goes s ps k n m g)
