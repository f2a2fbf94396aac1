-- ===== src/Buffer/Fresh.antt =====
-- A buffer whose reader index is still inside the reserved prefix, as every buffer of the message
-- code is while it is filled: `append` to it never compacts.
use small_program.Base.{
  ℕ, ◌+◌, ◌^◌, ◌≤◌, ◌≡◌, sym, inl, inr, List, [], ◌++◌, length, length-replicate, replicate, arith,
  Build, ok, Ensures, Ensures-weaken, dec_le, take, drop, take-append-drop, length-take,
  Ensures-of_eq,
}
use small_program.Base.Words.{add_size}
use small_program.Memory.{allocate}
use small_program.Buffer.{Buffer, cheap_prepend, writable_bytes, make, append}
use small_program.Buffer.Regions.{Holds, length-bytes}
use small_program.Buffer.Room.{MovesApart}
use small_program.Buffer.Append.{append-Holds}

pub record IsFresh (b : Buffer) (xs : List ℕ) : Type 0 where
  pub holds : Holds b xs
  pub at_front : b.reader_index ≤ cheap_prepend

-- More than any message has.
abbrev pub message_limit : ℕ
message_limit = 2 ^ 32

IsFresh-MovesApart : {b : Buffer} {xs : List ℕ} (len : ℕ) → IsFresh b xs → MovesApart b len
IsFresh-MovesApart {b} len f = elim (dec_le len (writable_bytes b)) [
  | yes room ↦ inl room
  | no short ↦ inr (inl (omega (arith, f.at_front)))
]

abbrev blank : ℕ → Buffer
blank size = record {
  bytes = replicate (add_size cheap_prepend size) 0;
  reader_index = cheap_prepend;
  writer_index = cheap_prepend;
}

blank-IsFresh : (size : ℕ) → size ≤ message_limit → IsFresh (blank size) []
blank-IsFresh size h = record {
  holds = record {
    before = take cheap_prepend (blank size).bytes;
    after = drop cheap_prepend (blank size).bytes;
    layout = sym (take-append-drop cheap_prepend (blank size).bytes);
    reader_at = omega (arith, length-take cheap_prepend (blank size).bytes, reserved);
    writer_at = omega (arith, length-take cheap_prepend (blank size).bytes, reserved);
    reserved = omega (arith, reserved);
    limit = omega (arith, reserved);
  };
  at_front = omega arith;
}
  where
    reserved : length (blank size).bytes ≡ cheap_prepend + size
    reserved = omega (arith, length-replicate {A = ℕ} (add_size cheap_prepend size) 0)

module _ (build : Build) where
  make-eq : (size : ℕ) → size ≤ message_limit → make build size ≡ ok (blank size)
  unfolding make allocate
  make-eq size h = ground (arith, length-replicate {A = ℕ} (add_size cheap_prepend size) 0)

  -- A new buffer is empty.
  pub make-IsFresh :
      (size : ℕ) → size ≤ message_limit → Ensures (λ b. IsFresh b []) (make build size)
  make-IsFresh size h = Ensures-of_eq (blank size) (make-eq size h) (blank-IsFresh size h)

  -- `append` to it puts the bytes behind those it holds, in every case.
  pub append-IsFresh :
      (b : Buffer) (xs ys : List ℕ)
      → IsFresh b xs
      → length xs ≤ message_limit
      → length ys ≤ message_limit
      → Ensures (λ b'. IsFresh b' (xs ++ ys)) (append build b ys)
  append-IsFresh b xs ys f hx hy =
      Ensures-weaken
        (append-Holds build b xs ys f.holds (IsFresh-MovesApart (length ys) f)
          (omega (arith, length-bytes f.holds, f.holds.writer_at, f.holds.reader_at, f.at_front)))
        λ b' p. record { holds = p.0; at_front = omega (arith, p.1, f.at_front) }
