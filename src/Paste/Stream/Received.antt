-- ===== src/Paste/Stream/Received.antt =====
-- A stream that has taken some bytes, and what a write adds to them.
use small_program.Base.{
  ℕ, ◌+◌, ◌*◌, ◌%◌, ◌^◌, ◌<◌, ◌≤◌, ◌≡◌, refl, sym, ap, subst, List, [], ◌∷◌, ◌++◌, append-nil,
  append_assoc, none, some, true, false, lt→ltb, le→ltb, le→leb, lt→leb, length, drop, replicate,
  length-append, length-replicate, length-drop, arith, ok, Ensures, Ensures-of_eq, dec_le,
}
use small_program.Memory.Regions.{mem_write_front}
use small_program.Paste.Transfer.{taken}
use small_program.Paste.Stream.{MsStream, create, store_data, write_file, write_to}

-- The stream has taken the bytes `sent`, and its reader is not past them. Where the reader is
-- behind them it finds the flag set, unless the transfer was cancelled.
pub record Received (s : MsStream) (sent : List ℕ) : Type 0 where
  pub after : List ℕ
  pub view : s.buffer ≡ some (sent ++ after)
  pub progress : s.progress_size ≡ length sent
  pub behind : s.position ≤ length sent
  pub fits : length sent ≤ s.file_size
  pub room : s.file_size ≤ length sent + length after
  pub small : s.file_size < 2 ^ 32
  pub woken : s.cancelled ≡ false → s.position < length sent → s.wait_data_flag ≡ true

pub create-Received : (high low : ℕ) → low < 2 ^ 32 → Received (create true high low) []
unfolding create
create-Received high low h = record {
  after = replicate (high * 2 ^ 32 + low) 0;
  view = refl;
  progress = refl;
  behind = omega arith;
  fits = omega arith;
  room = omega (arith, length-replicate {A = ℕ} (high * 2 ^ 32 + low) 0);
  small = h;
  woken = λ c b. absurd (omega (arith, b));
}

-- A write that fits.
written : (s : MsStream) (sent : List ℕ) → Received s sent → List ℕ → MsStream
written s sent v bytes = record s {
  buffer = some (sent ++ (bytes ++ drop (length bytes) v.after));
  progress_size = (s.progress_size + length bytes) % 2 ^ 32;
  wait_data_flag = true;
}

written-Received :
    (s : MsStream) (sent bytes : List ℕ) (v : Received s sent)
    → length sent + length bytes ≤ s.file_size
    → Received (written s sent v bytes) (sent ++ bytes)
unfolding written
written-Received s sent bytes v h = record {
  after = drop (length bytes) v.after;
  view = ap some (sym (append_assoc sent bytes (drop (length bytes) v.after)));
  progress = omega (arith, v.progress, v.small, length-append sent bytes);
  behind = omega (arith, v.behind, length-append sent bytes);
  fits = omega (arith, length-append sent bytes);
  room = omega (arith, v.room, length-append sent bytes, length-drop (length bytes) v.after);
  small = v.small;
  woken = λ c b. refl;
}

store_data-eq :
    (s : MsStream) (sent bytes : List ℕ) (v : Received s sent)
    → s.file_size + length bytes < 2 ^ 32
    → length sent + length bytes ≤ s.file_size
    → store_data s (sent ++ v.after) bytes ≡ ok (written s sent v bytes)
unfolding store_data written
store_data-eq s sent bytes v h fit = rw (
  le→ltb s.file_size ((s.progress_size + length bytes) % 2 ^ 32)
      (omega (arith, v.progress, v.small)),
  mem_write_front sent v.after bytes s.progress_size v.progress (omega (arith, v.room)),
)

store_data_full :
    (s : MsStream) (sent bytes : List ℕ) (v : Received s sent)
    → s.file_size + length bytes < 2 ^ 32
    → s.file_size < length sent + length bytes
    → store_data s (sent ++ v.after) bytes ≡ ok s
unfolding store_data
store_data_full s sent bytes v h full = rw (
    lt→ltb s.file_size ((s.progress_size + length bytes) % 2 ^ 32)
      (omega (arith, v.progress, v.fits, full)))

-- What a write leaves, and what it adds to the bytes.
abbrev pub Accepts : MsStream → List ℕ → List ℕ → MsStream → Type 0
Accepts s sent bytes s' =
    Received s' (sent ++ taken s.file_size (length sent) bytes)
    × (s'.position ≡ s.position)
    × (s'.file_size ≡ s.file_size)

store_data-Accepts :
    (s : MsStream) (sent bytes : List ℕ) (v : Received s sent)
    → s.file_size + length bytes < 2 ^ 32
    → Ensures (Accepts s sent bytes) (store_data s (sent ++ v.after) bytes)
unfolding written
store_data-Accepts s sent bytes v h = elim (dec_le (length sent + length bytes) s.file_size) [
  | yes fit ↦ Ensures-of_eq (written s sent v bytes) (store_data-eq s sent bytes v h fit) (
      rw (le→leb (length sent + length bytes) s.file_size fit)
        (written-Received s sent bytes v fit, refl, refl))
  | no full ↦ Ensures-of_eq s (store_data_full s sent bytes v h (omega (arith, full))) (
      rw (lt→leb (length sent + length bytes) s.file_size (omega (arith, full)), append-nil sent)
        (v, refl, refl))
]

pub write_file-Accepts :
    (s : MsStream) (sent bytes : List ℕ)
    → Received s sent
    → s.file_size + length bytes < 2 ^ 32
    → Ensures (Accepts s sent bytes) (write_file s (some bytes))
unfolding write_file write_to
write_file-Accepts s sent [] v h = Ensures-of_eq s (ap (λ b. write_to s b (some [])) v.view) (
    rw (le→leb (length sent + 0) s.file_size (omega (arith, v.fits)), append-nil sent)
      (v, refl, refl))
write_file-Accepts s sent (x ∷ xs) v h =
    subst (Ensures (Accepts s sent (x ∷ xs))) (sym (ap (λ b. write_to s b (some (x ∷ xs))) v.view))
      (store_data-Accepts s sent (x ∷ xs) v h)

pub write_file_null : (s : MsStream) (sent : List ℕ) → Received s sent → write_file s none ≡ ok s
unfolding write_file write_to
write_file_null s sent v = ap (λ b. write_to s b none) v.view
