-- ===== src/Paste/Stream/Races/Placed.antt =====
-- A write does not depend on where the reader is.
use small_program.Base.{
  ℕ, ◌+◌, ◌%◌, ◌^◌, ◌<◌, ◌≡◌, refl, sym, subst, List, [], ◌∷◌, Option, none, some, true, Bool-cases,
  inl, inr, length, ltb, Result, ok, err, Ensures, done, ◌>>=◌,
}
use small_program.Memory.{mem_write}
use small_program.Paste.Stream.{MsStream, store_data, write_to, write_file}
use small_program.Paste.Stream.Received.{Received, Accepts, write_file-Accepts}

-- The stream with its reader at another place.
abbrev pub placed : ℕ → MsStream → MsStream
placed p s = record s { position = p }

abbrev map_ok : (MsStream → MsStream) → Result MsStream → Result MsStream
map_ok f (ok s) = ok (f s)
map_ok f (err e) = err e

store_data-placed :
    (p : ℕ) (s : MsStream) (mem bytes : List ℕ)
    → store_data (placed p s) mem bytes ≡ map_ok (placed p) (store_data s mem bytes)
unfolding store_data
store_data-placed p s mem bytes =
    elim (Bool-cases (ltb s.file_size ((s.progress_size + length bytes) % 2 ^ 32))) [
      | inl full ↦ rw full refl
      | inr fit ↦ rw fit (stored (mem_write mem s.progress_size bytes))
    ]
  where
    stored :
        (r : Result (List ℕ))
        → (r >>= λ mem'. ok (record s {
          buffer = some mem';
          progress_size = (s.progress_size + length bytes) % 2 ^ 32;
          wait_data_flag = true;
          position = p;
        }))
          ≡ map_ok (placed p) (
              r >>= λ mem'. ok (record s {
                buffer = some mem';
                progress_size = (s.progress_size + length bytes) % 2 ^ 32;
                wait_data_flag = true;
              }))
    stored (ok m) = refl
    stored (err e) = refl

write_to-placed :
    (p : ℕ) (s : MsStream) (b : Option (List ℕ)) (bytes : List ℕ)
    → write_to (placed p s) b (some bytes) ≡ map_ok (placed p) (write_to s b (some bytes))
unfolding write_to
write_to-placed p s none bytes = refl
write_to-placed p s (some mem) [] = refl
write_to-placed p s (some mem) (x ∷ xs) = store_data-placed p s mem (x ∷ xs)

-- What a write does where the reader is elsewhere.
pub write_file-placed :
    (p : ℕ) (s : MsStream) (sent bytes : List ℕ)
    → Received s sent
    → s.file_size + length bytes < 2 ^ 32
    → Ensures
        (λ s'. (t : MsStream) × (s' ≡ placed p t) × Accepts s sent bytes t)
        (write_file (placed p s) (some bytes))
unfolding write_file
write_file-placed p s sent bytes v h =
    subst (Ensures _) (sym (write_to-placed p s s.buffer bytes))
      (mapped (write_file s (some bytes)) (write_file-Accepts s sent bytes v h))
  where
    mapped :
        (r : Result MsStream)
        → Ensures (Accepts s sent bytes) r
        → Ensures
            (λ s'. (t : MsStream) × (s' ≡ placed p t) × Accepts s sent bytes t)
            (map_ok (placed p) r)
    mapped _ (done t a) = done _ (t, refl, a)
