-- ===== src/Download/Writes.antt =====
-- What a task with a range leaves in the file.
use small_program.Base.{
  ℕ, zero, suc, ◌+◌, ◌-◌, ◌<◌, ◌≤◌, ◌≡◌, refl, sym, ap, ◌∙◌, List, [], ◌∷◌, ◌++◌, true, ltb, leb,
  ◌&&◌, ==_iff, if◌then◌else◌, arith, length, length-append, take, le→leb, lt→leb, dec_le,
  append-nil, subst,
}
use small_program.Download.{
  CurlHttpTask, Stream, byte_at, fseek, fwrite, overwrite, write_data, perform, run,
}

-- The bytes of all the pieces.
abbrev pub joined : List (List ℕ) → List ℕ
joined [] = []
joined (c ∷ cs) = c ++ joined cs

-- No piece is empty.
abbrev pub HasBytes : List (List ℕ) → Type 0
HasBytes [] = Unit {0}
HasBytes (c ∷ cs) = (0 < length c) × HasBytes cs

pub byte_at-append :
    (xs ys : List ℕ) (i : ℕ)
    → byte_at (xs ++ ys) i
      ≡ (if ltb i (length xs) then byte_at xs i else byte_at ys (i - length xs))
unfolding byte_at
byte_at-append [] ys i = ground arith
byte_at-append (x ∷ xs) ys zero = ground arith
byte_at-append (x ∷ xs) ys (suc i) = ground (arith, byte_at-append xs ys i)

overwrite_twice :
    (content : ℕ → ℕ) (pos : ℕ) (xs ys : List ℕ) (i : ℕ)
    → overwrite (overwrite content pos xs) (pos + length xs) ys i
      ≡ overwrite content pos (xs ++ ys) i
overwrite_twice content pos xs ys i =
    ground (arith, byte_at-append xs ys (i - pos), length-append xs ys)

pub take_all : (n : ℕ) (xs : List ℕ) → n ≡ length xs → take n xs ≡ xs
take_all zero [] e = refl
take_all zero (x ∷ xs) e = absurd (omega (arith, e))
take_all (suc n) [] e = absurd (omega (arith, e))
take_all (suc n) (x ∷ xs) e = ap (◌∷◌ x) (take_all n xs (omega (arith, e)))

no_pieces : (cs : List (List ℕ)) → HasBytes cs → length (joined cs) ≡ 0 → cs ≡ []
no_pieces [] h e = refl
no_pieces (c ∷ cs) h e = absurd (omega (arith, length-append c (joined cs), h.0))

perform_step :
    (t : CurlHttpTask) (f : Stream) (c : List ℕ) (cs : List (List ℕ)) (code : ℕ)
    → t.ranged ≡ true
    → t.start_pos + length c ≤ t.stop_pos
    → perform t f (c ∷ cs) code
      ≡ perform
          (record t { start_pos = t.start_pos + length c })
          (fwrite (fseek f t.start_pos) c)
          cs
          code
unfolding perform write_data
perform_step t f c cs code r h =
    rw (r, le→leb (t.start_pos + length c) t.stop_pos h)
      (ground (arith, ==_iff (length c) (length c)))

perform_last :
    (t : CurlHttpTask) (f : Stream) (c : List ℕ) (code : ℕ)
    → t.ranged ≡ true
    → t.start_pos + length c ≡ t.stop_pos + 1
    → 0 < length c
    → perform t f (c ∷ []) code ≡ (code, fwrite (fseek f t.start_pos) c)
unfolding perform write_data
perform_last t f c code r h some_bytes =
    rw
      (
        r,
        lt→leb (t.start_pos + length c) t.stop_pos (omega (arith, h)),
        take_all (t.stop_pos - t.start_pos + 1) c (omega (arith, h, some_bytes)),
      )
      (ground (arith, h, ==_iff (t.stop_pos - t.start_pos + 1) (length c)))

perform-overwrite :
    (t : CurlHttpTask) (f : Stream) (pieces : List (List ℕ)) (code i : ℕ)
    → t.ranged ≡ true
    → t.start_pos ≤ t.stop_pos
    → HasBytes pieces
    → t.start_pos + length (joined pieces) ≡ t.stop_pos + 1
    → ((perform t f pieces code).0 ≡ code)
      × ((perform t f pieces code).1.content i ≡ overwrite f.content t.start_pos (joined pieces) i)
unfolding fseek fwrite
perform-overwrite t f [] code i r h full e = absurd (omega (arith, h, e))
perform-overwrite t f (c ∷ cs) code i r h full e =
    elim (dec_le (t.start_pos + length c) t.stop_pos) [
      | yes more ↦
          let (ended, filled) =
            perform-overwrite (record t { start_pos = t.start_pos + length c })
              (fwrite (fseek f t.start_pos) c) cs code i r more full.1
              (omega (arith, e, length-append c (joined cs))) in
          rw (perform_step t f c cs code r more)
            (ended, filled ∙ overwrite_twice f.content t.start_pos c (joined cs) i)
      | no last ↦
          subst
            (λ ds.
              ((perform t f (c ∷ ds) code).0 ≡ code)
              × ((perform t f (c ∷ ds) code).1.content i
                  ≡ overwrite f.content t.start_pos (c ++ joined ds) i))
            (sym (no_pieces cs full.1 (omega (arith, e, last, length-append c (joined cs)))))
            (rw
              (
                perform_last t f c code r (omega (arith, e, last, length-append c (joined cs)))
                    full.0,
                append-nil c,
              )
              (refl, refl))
    ]

-- A task with a range, to which exactly the bytes of its range arrive in pieces that are not
-- empty and whose transfer ends without an error, succeeds, and leaves these bytes at the
-- offsets of its range, in order, with every other offset of the file as it was.
pub run-overwrite :
    (t : CurlHttpTask) (f : Stream) (pieces : List (List ℕ)) (i : ℕ)
    → t.ranged ≡ true
    → t.start_pos ≤ t.stop_pos
    → HasBytes pieces
    → t.start_pos + length (joined pieces) ≡ t.stop_pos + 1
    → ((run t f pieces 0).0 ≡ true)
      × ((run t f pieces 0).1.content i ≡ (
          if leb t.start_pos i && leb i t.stop_pos
          then byte_at (joined pieces) (i - t.start_pos)
          else f.content i))
unfolding run
run-overwrite t f pieces i r h full e =
    let (ended, filled) = perform-overwrite t f pieces 0 i r h full e in
    (rw ended refl, filled ∙ ground (arith, e))
