-- ===== src/Buffer/Regions.antt =====
-- What a buffer holds: the vector is cut into the part before the reader index, the readable
-- bytes and the part behind the writer index.
use small_program.Base.{
  ℕ, ◌+◌, ◌-◌, ◌≤◌, ◌≡◌, sym, ap, ◌∙◌, List, [], ◌++◌, length, take, drop, length-append,
  length-take, length-drop, take-append-drop, take-append, drop-append, arith,
}
use small_program.Memory.{max_size}
use small_program.Buffer.{Buffer, cheap_prepend, readable_bytes, writable_bytes, retrieve_all}

-- The representation invariant of `Buffer`.
pub record IsValid (b : Buffer) : Type 0 where
  pub reserved : cheap_prepend ≤ length b.bytes
  pub ordered : b.reader_index ≤ b.writer_index
  pub inside : b.writer_index ≤ length b.bytes
  pub limit : length b.bytes ≤ max_size

-- The bytes that a reader of the buffer sees.
abbrev pub contents : Buffer → List ℕ
contents b = take (b.writer_index - b.reader_index) (drop b.reader_index b.bytes)

-- The buffer is valid, and its readable bytes are `xs`.
pub record Holds (b : Buffer) (xs : List ℕ) : Type 0 where
  pub before : List ℕ
  pub after : List ℕ
  pub layout : b.bytes ≡ before ++ (xs ++ after)
  pub reader_at : b.reader_index ≡ length before
  pub writer_at : b.writer_index ≡ length before + length xs
  pub reserved : cheap_prepend ≤ length b.bytes
  pub limit : length b.bytes ≤ max_size

-- A result `v` beside a buffer that holds `ys`.
abbrev pub Leaves {ℓ} : {A : Type ℓ} → A → List ℕ → A × Buffer → Type ℓ
Leaves v ys r = (r.0 ≡ v) × Holds r.1 ys

pub length-layout :
    (before xs after : List ℕ)
    → length (before ++ (xs ++ after)) ≡ length before + length xs + length after
length-layout before xs after =
    omega (arith, length-append before (xs ++ after), length-append xs after)

pub length-bytes :
    {b : Buffer} {xs : List ℕ} (h : Holds b xs)
    → length b.bytes ≡ length h.before + length xs + length h.after
length-bytes {b} {xs} h = ap length h.layout ∙ length-layout h.before xs h.after

pub IsValid-Holds : (b : Buffer) → IsValid b → Holds b (contents b)
IsValid-Holds b v = record {
  before = take b.reader_index b.bytes;
  after = drop (b.writer_index - b.reader_index) (drop b.reader_index b.bytes);
  layout = sym (
      ap (◌++◌ (take b.reader_index b.bytes))
        (take-append-drop (b.writer_index - b.reader_index) (drop b.reader_index b.bytes))
      ∙ take-append-drop b.reader_index b.bytes);
  reader_at = omega (arith, length-take b.reader_index b.bytes, v.ordered, v.inside);
  writer_at = omega (
    arith,
    length-take b.reader_index b.bytes,
    length-take (b.writer_index - b.reader_index) (drop b.reader_index b.bytes),
    length-drop b.reader_index b.bytes,
    v.ordered,
    v.inside,
  );
  reserved = v.reserved;
  limit = v.limit;
}

pub Holds-IsValid : {b : Buffer} {xs : List ℕ} → Holds b xs → IsValid b
Holds-IsValid h = omega (arith, length-bytes h, h.reader_at, h.writer_at, h.reserved, h.limit)

pub Holds-contents : {b : Buffer} {xs : List ℕ} → Holds b xs → contents b ≡ xs
Holds-contents {b} {xs} h =
    ap (λ m. take (b.writer_index - b.reader_index) (drop b.reader_index m)) h.layout
    ∙ ap (take (b.writer_index - b.reader_index))
        (drop-append b.reader_index h.before (xs ++ h.after) h.reader_at)
    ∙ take-append (b.writer_index - b.reader_index) xs h.after
        (omega (arith, h.reader_at, h.writer_at))

pub readable_bytes-Holds : {b : Buffer} {xs : List ℕ} → Holds b xs → readable_bytes b ≡ length xs
unfolding readable_bytes
readable_bytes-Holds h = omega (arith, length-bytes h, h.reader_at, h.writer_at, h.limit)

pub writable_bytes-Holds :
    {b : Buffer} {xs : List ℕ} (h : Holds b xs) → writable_bytes b ≡ length h.after
unfolding writable_bytes
writable_bytes-Holds h = omega (arith, length-bytes h, h.writer_at, h.limit)

pub retrieve_all-Holds : {b : Buffer} {xs : List ℕ} → Holds b xs → Holds (retrieve_all b) []
unfolding retrieve_all
retrieve_all-Holds {b} h = record {
  before = take cheap_prepend b.bytes;
  after = drop cheap_prepend b.bytes;
  layout = sym (take-append-drop cheap_prepend b.bytes);
  reader_at = omega (arith, length-take cheap_prepend b.bytes, h.reserved);
  writer_at = omega (arith, length-take cheap_prepend b.bytes, h.reserved);
  reserved = h.reserved;
  limit = h.limit;
}
