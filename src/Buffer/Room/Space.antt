-- ===== src/Buffer/Room/Space.antt =====
-- `makeSpace`: room by growth or by compaction.
use small_program.Base.{
  ℕ, ◌+◌, ◌-◌, ◌≤◌, ◌<◌, ◌≡◌, refl, ap, ◌∙◌, ◌⊎◌, List, ◌++◌, append_assoc, length, drop, replicate,
  length-append, length-take, length-drop, length-replicate, arith, Build, ok, err, undefined,
  Ensures, done, dec_lt,
}
use small_program.Base.Words.{add_size}
use small_program.Memory.{max_size, memcpy}
use small_program.Memory.Regions.{resize_grow}
use small_program.Memory.Compaction.{kept, gap, memcpy_down}
use small_program.Buffer.{Buffer, cheap_prepend, readable_bytes, writable_bytes, make_space}
use small_program.Buffer.Regions.{Holds, length-bytes, readable_bytes-Holds, writable_bytes-Holds}

-- The compaction of `makeSpace` is not reached, or its memcpy moves the readable bytes to a range
-- that does not overlap them.
abbrev pub MovesApart : Buffer → ℕ → Type 0
MovesApart b len =
    (len ≤ writable_bytes b)
    ⊎ (writable_bytes b + b.reader_index < len + cheap_prepend)
    ⊎ (cheap_prepend + readable_bytes b ≤ b.reader_index)

-- What making room gives: the same readable bytes, room for `len` more, and the reader index as it was or at the front.
abbrev pub MakesRoom : Buffer → List ℕ → ℕ → Buffer → Type 0
MakesRoom b xs len b' =
    Holds b' xs
    × (len ≤ writable_bytes b')
    × ((b'.reader_index ≡ b.reader_index) ⊎ (b'.reader_index ≡ cheap_prepend))

-- The buffer with its readable bytes moved to the front.
abbrev compacted : (b : Buffer) (xs : List ℕ) → Holds b xs → Buffer
compacted b xs h = record {
  bytes = kept h.before cheap_prepend ++ (xs ++ (gap h.before xs cheap_prepend ++ (xs ++ h.after)));
  reader_index = cheap_prepend;
  writer_index = add_size cheap_prepend (readable_bytes b);
}

module _ (build : Build) where
  -- The vector grows behind the readable bytes.
  make_space_grow :
      (b : Buffer) (xs : List ℕ) (len : ℕ)
      → Holds b xs
      → writable_bytes b < len
      → writable_bytes b + b.reader_index < len + cheap_prepend
      → b.writer_index + len ≤ max_size
      → make_space build b len
        ≡ ok (record b { bytes = b.bytes ++ replicate (b.writer_index + len - length b.bytes) 0 })
  unfolding make_space
  make_space_grow b xs len h short tight fits = ground (
    arith,
    length-bytes h,
    h.writer_at,
    h.reader_at,
    h.limit,
    resize_grow b.bytes (b.writer_index + len),
  )

  -- The readable bytes move to the front, if memcpy may move them.
  make_space_compact :
      (b : Buffer) (xs : List ℕ) (len : ℕ) (m : List ℕ)
      → Holds b xs
      → writable_bytes b < len
      → len + cheap_prepend ≤ writable_bytes b + b.reader_index
      → memcpy b.bytes cheap_prepend b.reader_index (readable_bytes b) ≡ ok m
      → make_space build b len
        ≡ ok (record {
          bytes = m;
          reader_index = cheap_prepend;
          writer_index = add_size cheap_prepend (readable_bytes b);
        })
  unfolding make_space
  make_space_compact b xs len m h short room moved =
      ground (arith, length-bytes h, h.writer_at, h.reader_at, h.limit)

  -- Otherwise the call has undefined behaviour.
  pub make_space_overlap :
      (b : Buffer) (xs : List ℕ) (len : ℕ)
      → Holds b xs
      → writable_bytes b < len
      → len + cheap_prepend ≤ writable_bytes b + b.reader_index
      → b.reader_index < cheap_prepend + readable_bytes b
      → make_space build b len ≡ err undefined
  unfolding make_space memcpy
  make_space_overlap b xs len h short room close =
      ground (arith, length-bytes h, h.writer_at, h.reader_at, h.limit)

  grown-Holds :
      (b : Buffer) (xs : List ℕ) (n : ℕ)
      → Holds b xs
      → length b.bytes + n ≤ max_size
      → Holds (record b { bytes = b.bytes ++ replicate n 0 }) xs
  grown-Holds b xs n h fits = record {
    before = h.before;
    after = h.after ++ replicate n 0;
    layout =
        ap (λ m. m ++ replicate n 0) h.layout
        ∙ append_assoc h.before (xs ++ h.after) (replicate n 0)
        ∙ ap (◌++◌ h.before) (append_assoc xs h.after (replicate n 0));
    reader_at = h.reader_at;
    writer_at = h.writer_at;
    reserved = omega (arith, length-append b.bytes (replicate n 0), h.reserved);
    limit = omega (arith, length-append b.bytes (replicate n 0), length-replicate {A = ℕ} n 0);
  }

  length-compacted :
      (b : Buffer) (xs : List ℕ) (h : Holds b xs)
      → cheap_prepend + length xs ≤ length h.before
      → length (
          kept h.before cheap_prepend ++ (xs ++ (gap h.before xs cheap_prepend ++ (xs ++ h.after))))
        ≡ length b.bytes
  length-compacted b xs h apart = omega (
    arith,
    length-bytes h,
    length-append (kept h.before cheap_prepend)
        (xs ++ (gap h.before xs cheap_prepend ++ (xs ++ h.after))),
    length-append xs (gap h.before xs cheap_prepend ++ (xs ++ h.after)),
    length-append (gap h.before xs cheap_prepend) (xs ++ h.after),
    length-append xs h.after,
    length-take cheap_prepend h.before,
    length-drop (length xs) (drop cheap_prepend h.before),
    length-drop cheap_prepend h.before,
  )

  compacted-Holds :
      (b : Buffer) (xs : List ℕ) (h : Holds b xs)
      → cheap_prepend + length xs ≤ length h.before
      → Holds (compacted b xs h) xs
  compacted-Holds b xs h apart = record {
    before = kept h.before cheap_prepend;
    after = gap h.before xs cheap_prepend ++ (xs ++ h.after);
    layout = refl;
    reader_at = omega (arith, length-take cheap_prepend h.before);
    writer_at = omega (
      arith,
      length-take cheap_prepend h.before,
      readable_bytes-Holds h,
      length-bytes h,
      h.limit,
    );
    reserved = omega (arith, length-compacted b xs h apart, h.reserved);
    limit = omega (arith, length-compacted b xs h apart, h.limit);
  }

  memcpy-Holds :
      (b : Buffer) (xs : List ℕ) (h : Holds b xs)
      → cheap_prepend + length xs ≤ length h.before
      → memcpy b.bytes cheap_prepend b.reader_index (readable_bytes b)
        ≡ ok (
            kept h.before cheap_prepend
            ++ (xs ++ (gap h.before xs cheap_prepend ++ (xs ++ h.after))))
  memcpy-Holds b xs h apart =
      ap (λ m. memcpy m cheap_prepend b.reader_index (readable_bytes b)) h.layout
      ∙ ap (λ r. memcpy (h.before ++ (xs ++ h.after)) cheap_prepend r (readable_bytes b))
          h.reader_at
      ∙ memcpy_down h.before xs h.after cheap_prepend (readable_bytes b) (readable_bytes-Holds h)
          apart

  make_space_grow-Holds :
      (b : Buffer) (xs : List ℕ) (len : ℕ)
      → Holds b xs
      → writable_bytes b < len
      → writable_bytes b + b.reader_index < len + cheap_prepend
      → b.writer_index + len ≤ max_size
      → Ensures (MakesRoom b xs len) (make_space build b len)
  make_space_grow-Holds b xs len h short tight fits =
      rw (make_space_grow b xs len h short tight fits) (
        done _ (
          grown,
          omega (
            arith,
            writable_bytes-Holds grown,
            length-bytes grown,
            grown.writer_at,
            length-append b.bytes (replicate extra 0),
            length-replicate {A = ℕ} extra 0,
            length-bytes h,
            h.writer_at,
            writable_bytes-Holds h,
          ),
          omega arith,
        ))
    where
      extra : ℕ
      extra = b.writer_index + len - length b.bytes

      grown : Holds (record b { bytes = b.bytes ++ replicate extra 0 }) xs
      grown =
          grown-Holds b xs extra h
            (omega (arith, length-bytes h, h.writer_at, h.limit, writable_bytes-Holds h))

  make_space_compact-Holds :
      (b : Buffer) (xs : List ℕ) (len : ℕ)
      → Holds b xs
      → writable_bytes b < len
      → len + cheap_prepend ≤ writable_bytes b + b.reader_index
      → cheap_prepend + readable_bytes b ≤ b.reader_index
      → Ensures (MakesRoom b xs len) (make_space build b len)
  make_space_compact-Holds b xs len h short roomy apart =
      rw (make_space_compact b xs len _ h short roomy (memcpy-Holds b xs h far)) (
        done _ (
          moved,
          omega (
            arith,
            writable_bytes-Holds moved,
            length-bytes moved,
            moved.writer_at,
            length-compacted b xs h far,
            readable_bytes-Holds h,
            writable_bytes-Holds h,
            length-bytes h,
            h.reader_at,
            h.limit,
          ),
          omega arith,
        ))
    where
      far : cheap_prepend + length xs ≤ length h.before
      far = omega (arith, readable_bytes-Holds h, h.reader_at)

      moved : Holds (compacted b xs h) xs
      moved = compacted-Holds b xs h far

  -- `makeSpace` keeps the readable bytes and makes room for `len` more.
  pub make_space-Holds :
      (b : Buffer) (xs : List ℕ) (len : ℕ)
      → Holds b xs
      → writable_bytes b < len
      → MovesApart b len
      → b.writer_index + len ≤ max_size
      → Ensures (MakesRoom b xs len) (make_space build b len)
  make_space-Holds b xs len h short apart fits =
      elim (dec_lt (writable_bytes b + b.reader_index) (len + cheap_prepend)) [
        | yes tight ↦ make_space_grow-Holds b xs len h short tight fits
        | no roomy ↦ make_space_compact-Holds b xs len h short (omega arith) (omega arith)
      ]
