-- ===== src/Buffer/Append.antt =====
-- Writing to a buffer: `append`, `prepend` and `unwrite`.
use small_program.Base.{
  ℕ, ◌+◌, ◌≤◌, ◌≡◌, sym, ap, ◌∙◌, List, ◌++◌, append_assoc, length, take, drop, length-append,
  length-take, length-drop, take-append-drop, ◌⊎◌, arith, Build, ok, err, undefined, Ensures,
  Ensures-bind, ◌>>=◌, Ensures-of_eq,
}
use small_program.Base.Words.{add_size, sub_size}
use small_program.Memory.{max_size, mem_write}
use small_program.Memory.Regions.{mem_write_region}
use small_program.Buffer.{cheap_prepend, Buffer, writable_bytes, has_written, append}
use small_program.Buffer.Regions.{Holds, length-bytes, writable_bytes-Holds}
use small_program.Buffer.Room.{
  MovesApart, MakesRoom, ensure_writable_bytes-Holds, ensure_writable_bytes-overlap,
}

-- `ys` put behind the readable bytes.
abbrev written : (b : Buffer) (xs ys : List ℕ) → Holds b xs → Buffer
written b xs ys h = record {
  bytes = (h.before ++ xs) ++ (ys ++ drop (length ys) h.after);
  reader_index = b.reader_index;
  writer_index = add_size b.writer_index (length ys);
}

length-written :
    (b : Buffer) (xs ys : List ℕ) (h : Holds b xs)
    → length ys ≤ length h.after
    → length (written b xs ys h).bytes ≡ length b.bytes
length-written b xs ys h room = omega (
  arith,
  length-bytes h,
  length-append (h.before ++ xs) (ys ++ drop (length ys) h.after),
  length-append h.before xs,
  length-append ys (drop (length ys) h.after),
  length-drop (length ys) h.after,
)

written-Holds :
    (b : Buffer) (xs ys : List ℕ) (h : Holds b xs)
    → length ys ≤ length h.after
    → Holds (written b xs ys h) (xs ++ ys)
written-Holds b xs ys h room = record {
  before = h.before;
  after = drop (length ys) h.after;
  layout =
      append_assoc h.before xs (ys ++ drop (length ys) h.after)
      ∙ ap (◌++◌ h.before) (sym (append_assoc xs ys (drop (length ys) h.after)));
  reader_at = h.reader_at;
  writer_at = omega (arith, h.writer_at, length-append xs ys, length-bytes h, h.limit);
  reserved = omega (arith, length-written b xs ys h room, h.reserved);
  limit = omega (arith, length-written b xs ys h room, h.limit);
}

mem_write-Holds :
    (b : Buffer) (xs ys : List ℕ) (h : Holds b xs)
    → length ys ≤ length h.after
    → mem_write b.bytes b.writer_index ys ≡ ok (written b xs ys h).bytes
mem_write-Holds b xs ys h room =
    ap (λ m. mem_write m b.writer_index ys) split
    ∙ mem_write_region (h.before ++ xs) (take (length ys) h.after) (drop (length ys) h.after) ys
        b.writer_index (omega (arith, h.writer_at, length-append h.before xs))
        (omega (arith, length-take (length ys) h.after))
  where
    split : b.bytes ≡ (h.before ++ xs) ++ (take (length ys) h.after ++ drop (length ys) h.after)
    split =
        h.layout
        ∙ sym (append_assoc h.before xs h.after)
        ∙ ap (◌++◌ (h.before ++ xs)) (sym (take-append-drop (length ys) h.after))

writable_bytes-written :
    (b : Buffer) (xs ys : List ℕ) (h : Holds b xs)
    → length ys ≤ length h.after
    → writable_bytes (record b { bytes = (written b xs ys h).bytes }) ≡ writable_bytes b
unfolding writable_bytes
writable_bytes-written b xs ys h room =
    ap (λ n. sub_size n b.writer_index) (length-written b xs ys h room)

-- The reader index stays, or moves to the front.
abbrev pub KeepsReader : Buffer → Buffer → Type 0
KeepsReader b b' = (b'.reader_index ≡ b.reader_index) ⊎ (b'.reader_index ≡ cheap_prepend)

module _ (build : Build) where
  has_written-eq :
      (b : Buffer) (len : ℕ)
      → len ≤ writable_bytes b
      → has_written build b len ≡ ok (record b { writer_index = add_size b.writer_index len })
  unfolding has_written
  has_written-eq b len h = ground arith

  -- The second half of `append`, once there is room.
  append_in_place :
      (b : Buffer) (xs ys : List ℕ) (h : Holds b xs)
      → length ys ≤ writable_bytes b
      → (do
        m ← mem_write b.bytes b.writer_index ys
        has_written build (record b { bytes = m }) (length ys))
        ≡ ok (written b xs ys h)
  append_in_place b xs ys h room =
      rw (mem_write-Holds b xs ys h fits)
        (has_written-eq (record b { bytes = (written b xs ys h).bytes }) (length ys) enough)
    where
      fits : length ys ≤ length h.after
      fits = omega (arith, writable_bytes-Holds h)

      enough : length ys ≤ writable_bytes (record b { bytes = (written b xs ys h).bytes })
      enough = omega (arith, writable_bytes-written b xs ys h fits)

  -- On a valid buffer append puts the bytes behind the readable ones, growing or compacting the
  -- vector as needed, and the reader index stays or goes to the front; the buffer stays valid.
  -- The conditions: the compaction, where it is reached, does not move the readable bytes over
  -- themselves, and the writer index stays within the vector's maximal size.
  pub append-Holds :
      (b : Buffer) (xs ys : List ℕ)
      → Holds b xs
      → MovesApart b (length ys)
      → b.writer_index + length ys ≤ max_size
      → Ensures (λ b'. Holds b' (xs ++ ys) × KeepsReader b b') (append build b ys)
  unfolding append
  append-Holds b xs ys h apart fits =
      Ensures-bind (MakesRoom b xs (length ys)) _ _ _
        (ensure_writable_bytes-Holds build b xs (length ys) h apart fits)
        λ b' p.
          Ensures-of_eq (written b' xs ys p.0) (append_in_place b' xs ys p.0 p.1)
            (written-Holds b' xs ys p.0 (omega (arith, writable_bytes-Holds p.0)), p.2)

  -- On a valid buffer where makeSpace compacts and the readable bytes overlap the place they
  -- move to, append has undefined behaviour: memcpy on overlapping ranges.
  pub append-overlap :
      (b : Buffer) (xs ys : List ℕ)
      → Holds b xs
      → ¬ MovesApart b (length ys)
      → append build b ys ≡ err undefined
  unfolding append
  append-overlap b xs ys h close = rw (ensure_writable_bytes-overlap build b xs (length ys) h close)
