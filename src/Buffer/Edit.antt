-- ===== src/Buffer/Edit.antt =====
-- `prepend` before the readable bytes and `unwrite` at their end.
use small_program.Base.{
  ℕ, ◌-◌, ◌≤◌, ◌≡◌, sym, ap, ◌∙◌, List, ◌++◌, append_assoc, length, take, drop, length-append,
  length-take, length-drop, take-append-drop, arith, Build, ok, Ensures, Ensures-of_eq,
}
use small_program.Base.Words.{sub_size}
use small_program.Memory.{mem_write}
use small_program.Memory.Regions.{mem_write_region}
use small_program.Buffer.{Buffer, readable_bytes, prepend, unwrite}
use small_program.Buffer.Regions.{Holds, length-bytes, readable_bytes-Holds}

-- What `prepend` leaves: the bytes `xs` over the end of the prefix.
abbrev prefixed : (b : Buffer) (xs ys : List ℕ) → Holds b ys → Buffer
prefixed b xs ys h = record b {
  bytes = take (length h.before - length xs) h.before ++ (xs ++ (ys ++ h.after));
  reader_index = sub_size b.reader_index (length xs);
}

length-prefixed :
    (b : Buffer) (xs ys : List ℕ) (h : Holds b ys)
    → length xs ≤ b.reader_index
    → length (prefixed b xs ys h).bytes ≡ length b.bytes
length-prefixed b xs ys h fits = omega (
  arith,
  length-bytes h,
  h.reader_at,
  length-append (take (length h.before - length xs) h.before) (xs ++ (ys ++ h.after)),
  length-take (length h.before - length xs) h.before,
  length-append xs (ys ++ h.after),
  length-append ys h.after,
)

prefixed-Holds :
    (b : Buffer) (xs ys : List ℕ) (h : Holds b ys)
    → length xs ≤ b.reader_index
    → Holds (prefixed b xs ys h) (xs ++ ys)
prefixed-Holds b xs ys h fits = record {
  before = take (length h.before - length xs) h.before;
  after = h.after;
  layout =
      ap (◌++◌ (take (length h.before - length xs) h.before)) (sym (append_assoc xs ys h.after));
  reader_at = omega (
    arith,
    h.reader_at,
    length-bytes h,
    h.limit,
    length-take (length h.before - length xs) h.before,
  );
  writer_at = omega (
    arith,
    h.reader_at,
    h.writer_at,
    length-append xs ys,
    length-take (length h.before - length xs) h.before,
  );
  reserved = omega (arith, length-prefixed b xs ys h fits, h.reserved);
  limit = omega (arith, length-prefixed b xs ys h fits, h.limit);
}

prepend-write :
    (b : Buffer) (xs ys : List ℕ) (h : Holds b ys)
    → length xs ≤ b.reader_index
    → mem_write b.bytes (sub_size b.reader_index (length xs)) xs ≡ ok (prefixed b xs ys h).bytes
prepend-write b xs ys h fits =
    ap (λ m. mem_write m (sub_size b.reader_index (length xs)) xs) split
    ∙ mem_write_region (take keep h.before) (drop keep h.before) (ys ++ h.after) xs
        (sub_size b.reader_index (length xs))
        (omega (arith, h.reader_at, length-bytes h, h.limit, length-take keep h.before))
        (omega (arith, h.reader_at, length-drop keep h.before))
  where
    keep : ℕ
    keep = length h.before - length xs

    split : b.bytes ≡ take keep h.before ++ (drop keep h.before ++ (ys ++ h.after))
    split =
        h.layout
        ∙ ap (λ m. m ++ (ys ++ h.after)) (sym (take-append-drop keep h.before))
        ∙ append_assoc (take keep h.before) (drop keep h.before) (ys ++ h.after)

module _ (build : Build) where
  prepend-eq :
      (b : Buffer) (xs m : List ℕ)
      → length xs ≤ b.reader_index
      → mem_write b.bytes (sub_size b.reader_index (length xs)) xs ≡ ok m
      → prepend build b xs
        ≡ ok (record b { bytes = m; reader_index = sub_size b.reader_index (length xs) })
  unfolding prepend
  prepend-eq b xs m fits wrote = ground arith

  -- prepend puts bytes before the readable ones of a valid buffer, where there are enough bytes
  -- before the reader index, and the buffer stays valid.
  pub prepend-Holds :
      (b : Buffer) (xs ys : List ℕ)
      → Holds b ys
      → length xs ≤ b.reader_index
      → Ensures (λ b'. Holds b' (xs ++ ys)) (prepend build b xs)
  prepend-Holds b xs ys h fits =
      Ensures-of_eq (prefixed b xs ys h) (prepend-eq b xs _ fits (prepend-write b xs ys h fits))
        (prefixed-Holds b xs ys h fits)

  unwrite-eq :
      (b : Buffer) (len : ℕ)
      → len ≤ readable_bytes b
      → unwrite build b len ≡ ok (record b { writer_index = sub_size b.writer_index len })
  unfolding unwrite
  unwrite-eq b len h = ground arith

  -- unwrite takes back the last bytes that are readable, and the buffer stays valid.
  pub unwrite-Holds :
      (b : Buffer) (xs ys : List ℕ) (len : ℕ)
      → len ≡ length ys
      → Holds b (xs ++ ys)
      → Ensures (λ b'. Holds b' xs) (unwrite build b len)
  unwrite-Holds b xs ys len e h =
      Ensures-of_eq _
        (unwrite-eq b len (omega (arith, readable_bytes-Holds h, length-append xs ys)))
        (record {
          before = h.before;
          after = ys ++ h.after;
          layout = h.layout ∙ ap (◌++◌ h.before) (append_assoc xs ys h.after);
          reader_at = h.reader_at;
          writer_at = omega (arith, h.writer_at, length-append xs ys, length-bytes h, h.limit);
          reserved = h.reserved;
          limit = h.limit;
        })
