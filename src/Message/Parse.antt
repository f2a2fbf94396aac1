-- ===== src/Message/Parse.antt =====
-- Reading a frame: what `fromByteArray` finds in bytes that begin with a frame.
use small_program.Base.{
  ℕ, ◌+◌, ◌^◌, ◌≤◌, ◌<◌, ◌≡◌, refl, sym, subst, List, [], ◌∷◌, ◌++◌, length, length-append, arith,
  Build, Result, ok, ◌>>=◌, Ensures, done, Ensures-bind, Ensures-eq_ok, Option, none, some,
  bytes_eq_refl, le→ltb, lt→ltb, bytes_eq_ne, ◌≢◌,
}
use small_program.Buffer.{Buffer}
use small_program.Buffer.Regions.{Holds, Leaves}
use small_program.Buffer.Chain.{make-then, append-then, retrieve-then, mem_read-then}
use small_program.Message.Qt.{QByteArray}
use small_program.Message.Frame.{
  tag_name, tag_name_length, message_length, Opened, read_byte, read_bytes, read_type_and_code,
  open_frame,
}
use small_program.Message.Serialise.{frame_head}

-- What opening a frame gives: its type, its code, and a buffer with the rest.
abbrev pub Opens : ℕ → ℕ → List ℕ → Option Opened → Type 0
Opens type code rest r =
    (b : Buffer) × (r ≡ some (record { header = tag_name; type = type; code = code; rest = b }))
    × Holds b rest

module _ {ℓ κ} (build : Build) {B : Type ℓ} {Q : B → Type κ} where
  pub read_byte-then :
      (x : ℕ) (b : Buffer) (ys : List ℕ) (f : ℕ × Buffer → Result B)
      → Holds b (x ∷ ys)
      → ((b' : Buffer) → Holds b' ys → Ensures Q (f (x, b')))
      → Ensures Q (read_byte build b >>= f)
  unfolding read_byte
  read_byte-then x b ys f h k =
      Ensures-bind (Leaves x ys) Q _ f
        (mem_read-then build b (x ∷ []) ys 1 _ refl h
          (retrieve-then build b (x ∷ []) ys 1 _ refl h λ b' h'. done _ (refl, h')))
        λ r p. subst (λ v. Ensures Q (f (v, r.1))) (sym p.0) (k r.1 p.1)

  pub read_bytes-then :
      (n : ℕ) (b : Buffer) (xs ys : List ℕ) (f : QByteArray × Buffer → Result B)
      → n ≡ length xs
      → Holds b (xs ++ ys)
      → ((b' : Buffer) → Holds b' ys → Ensures Q (f (xs, b')))
      → Ensures Q (read_bytes build n b >>= f)
  unfolding read_bytes
  read_bytes-then n b xs ys f e h k =
      Ensures-bind (Leaves xs ys) Q _ f
        (mem_read-then build b xs ys n _ e h
          (retrieve-then build b xs ys n _ e h λ b' h'. done _ (refl, h')))
        λ r p. subst (λ v. Ensures Q (f (v, r.1))) (sym p.0) (k r.1 p.1)

module _ (build : Build) where
  read_type_and_code-Opens :
      (type code : ℕ) (b : Buffer) (rest : List ℕ)
      → Holds b (type ∷ code ∷ rest)
      → Ensures (Opens type code rest) (read_type_and_code build tag_name b)
  unfolding read_type_and_code
  read_type_and_code-Opens type code b rest h =
      read_byte-then build type b (code ∷ rest) _ h
        λ b₁ h₁. read_byte-then build code b₁ rest _ h₁ λ b₂ h₂. done _ (b₂, refl, h₂)

  pub open_frame-Opens :
      (type code : ℕ) (rest : List ℕ)
      → 4 ≤ length rest
      → length rest < 2 ^ 31
      → Ensures (Opens type code rest) (open_frame build (frame_head type code ++ rest))
  unfolding open_frame
  open_frame-Opens type code rest enough small =
      rw (le→ltb (length (frame_head type code ++ rest)) message_length (omega arith)) (
        make-then build _ λ b₀ h₀.
          append-then build b₀ [] (frame_head type code ++ rest) _ h₀ (omega arith) (omega arith)
            λ b₁ h₁.
              read_bytes-then build tag_name_length b₁ tag_name (type ∷ code ∷ rest) _ refl h₁.holds
                λ b₂ h₂.
                  rw (bytes_eq_refl tag_name) (read_type_and_code-Opens type code b₂ rest h₂))

  -- Fewer bytes than a header has are no frame.
  pub open_frame_short :
      (bytes : List ℕ) → length bytes < message_length → open_frame build bytes ≡ ok none
  unfolding open_frame
  open_frame_short bytes short = rw (lt→ltb (length bytes) message_length short)

  -- A header's length of bytes that do not begin with the tag are no frame.
  pub open_frame_foreign :
      (start rest : List ℕ)
      → length start ≡ tag_name_length
      → start ≢ tag_name
      → message_length ≤ length start + length rest
      → length start + length rest < 2 ^ 31
      → open_frame build (start ++ rest) ≡ ok none
  unfolding open_frame
  open_frame_foreign start rest five other enough small = Ensures-eq_ok (
      rw (le→ltb (length (start ++ rest)) message_length (omega (arith, length-append start rest)))
        (make-then build _ λ b₀ h₀.
          append-then build b₀ [] (start ++ rest) _ h₀ (omega arith)
            (omega (arith, length-append start rest))
            λ b₁ h₁.
              read_bytes-then build tag_name_length b₁ start rest _ (omega arith) h₁.holds
                λ b₂ h₂. rw (bytes_eq_ne start tag_name other) (done _ refl)))
