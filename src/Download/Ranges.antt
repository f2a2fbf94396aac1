-- ===== src/Download/Ranges.antt =====
-- The ranges of `MakeTask`.
use small_program.Base.{
  Bool-cases, inl, inr, subst, lt→leb, ℕ, zero, suc, ◌+◌, ◌*◌, ◌/◌, ◌%◌, ◌^◌, ◌<◌, ◌≤◌, ◌≡◌, refl,
  List, [], ◌∷◌, some, true, false, le→ltb, lt→ltb, ◌==◌, arith, ok, err, undefined, Ensures, done,
  Ensures-bind, Ensures-of_eq, dec_lt, dec_le,
}
use small_program.Download.{range_size, CurlHttpTask, int_mul, segments, make_task}

-- The tasks' ranges follow each other from an offset to the end, and none is empty or larger than
-- RANGE_SIZE.
abbrev pub IsChain : ℕ → List CurlHttpTask → ℕ → Type 0
IsChain start [] end = start ≡ end
IsChain start (t ∷ ts) end =
    (t.start_pos ≡ start)
    × (start ≤ t.stop_pos)
    × (t.stop_pos < start + range_size)
    × IsChain (t.stop_pos + 1) ts end

pub int_mul-eq : (a b : ℕ) → a * b < 2 ^ 31 → int_mul a b ≡ ok (a * b)
unfolding int_mul
int_mul-eq a b h = rw (lt→ltb (a * b) (2 ^ 31) h)

int_mul_overflow : (a b : ℕ) → 2 ^ 31 ≤ a * b → int_mul a b ≡ err undefined
unfolding int_mul
int_mul_overflow a b h = rw (le→ltb (a * b) (2 ^ 31) h)

segments-IsChain :
    (len left i : ℕ)
    → i + left ≡ len / range_size
    → i + left < 205
    → Ensures (λ ts. IsChain (i * range_size) ts len) (segments len left i)
unfolding segments
segments-IsChain len zero i e small = elim (Bool-cases (len % range_size == 0)) [
  | inl whole ↦ rw whole (done _ (ground (arith, whole, e)))
  | inr part ↦
      rw (part, int_mul-eq i range_size (omega (arith, small)))
        (done _ (refl, ground (arith, part, e), ground (arith, part, e), ground (arith, part, e)))
]
segments-IsChain len (suc left) i e small =
    rw
      (
        int_mul-eq i range_size (omega (arith, small)),
        int_mul-eq (i + 1) range_size (omega (arith, small)),
      )
      (Ensures-bind (λ ts. IsChain ((i + 1) * range_size) ts len) _ _ _
        (segments-IsChain len left (i + 1) (omega (arith, e)) (omega (arith, small)))
        λ ts chain.
          done _
            (refl, omega arith, omega arith, subst (λ n. IsChain n ts len) (omega arith) chain))

segments_overflow :
    (len left i : ℕ) → i < 205 → 205 ≤ i + left → segments len left i ≡ err undefined
unfolding segments
segments_overflow len zero i h k = absurd (omega (arith, h, k))
segments_overflow len (suc left) i h k = elim (dec_lt (i + 1) 205) [
  | yes below ↦ rw (
    int_mul-eq i range_size (omega (arith, h)),
    int_mul-eq (i + 1) range_size (omega (arith, below)),
    segments_overflow len left (i + 1) below (omega (arith, k)),
  )
  | no last ↦ rw (
    int_mul-eq i range_size (omega (arith, h)),
    int_mul_overflow (i + 1) range_size (omega (arith, last)),
  )
]

-- For a file that is not empty, shorter than 205 times RANGE_SIZE, and whose target could be
-- opened, MakeTask has no overflow and makes tasks whose ranges follow each other from offset 0
-- to the end of the file, so that they cover every offset once; none is empty or larger than
-- RANGE_SIZE.
pub make_task-IsChain :
    (len : ℕ)
    → 0 < len
    → len < 205 * range_size
    → Ensures
        (λ r. (ts : List CurlHttpTask) × (r ≡ some ts) × IsChain 0 ts len)
        (make_task len true)
unfolding make_task
make_task-IsChain zero pos small = absurd (omega arith)
make_task-IsChain (suc n) pos small = elim (dec_le (suc n) range_size) [
  | yes fits ↦ Ensures-of_eq _ (ground (arith, fits)) (
    record { start_pos = 0; stop_pos = n; ranged = false } ∷ [],
    refl,
    (refl, omega arith, omega (arith, fits), omega arith),
  )
  | no large ↦ rw (lt→leb (suc n) range_size (omega (arith, large))) (
      Ensures-bind (λ ts. IsChain 0 ts (suc n)) _ _ _
        (segments-IsChain (suc n) (suc n / range_size) 0 (omega arith) (omega arith))
        λ ts chain. done _ (ts, refl, chain))
]

-- For a file of at least 205 times RANGE_SIZE whose target could be opened, MakeTask overflows
-- an int, which is undefined behaviour.
pub make_task_overflow : (len : ℕ) → 205 * range_size ≤ len → make_task len true ≡ err undefined
unfolding make_task
make_task_overflow zero h = absurd (omega arith)
make_task_overflow (suc n) h = rw (
  lt→leb (suc n) range_size (omega arith),
  segments_overflow (suc n) (suc n / range_size) 0 (omega arith) (omega arith),
)
