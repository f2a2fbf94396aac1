-- ===== src/Buffer.antt =====
-- common/buffer.h and common/buffer.cpp: a byte buffer with a reserved prefix. A pointer into the
-- buffer is an offset into its vector. A method that changes the buffer returns the new one
-- beside its result.
pub mod Regions
pub mod Retrieve
pub mod Room
pub mod Append
pub mod Fresh
pub mod Edit
pub mod Numbers
pub mod Chain
use small_program.Base.{
  ℕ, ◌+◌, ◌^◌, List, [], Option, ltb, leb, ◌==◌, if◌then◌else◌, length, Build, Result, ok,
  length_error, ◌>>=◌, ◌>>◌, guard, q_assert,
}
use small_program.Base.Words.{add_size, sub_size}
use small_program.Memory.{mem_read, mem_write, memcpy, allocate, resize, search_pair, memchr}
use mathlib.Core.Option

pub record Buffer : Type 0 where
  pub bytes : List ℕ
  pub reader_index : ℕ
  pub writer_index : ℕ

abbrev pub cheap_prepend : ℕ
cheap_prepend = 8

abbrev pub initial_size : ℕ
initial_size = 1024

unfoldable pub readable_bytes : Buffer → ℕ
readable_bytes b = sub_size b.writer_index b.reader_index

unfoldable pub writable_bytes : Buffer → ℕ
writable_bytes b = sub_size (length b.bytes) b.writer_index

unfoldable pub prependable_bytes : Buffer → ℕ
prependable_bytes b = b.reader_index

unfoldable pub peek : Buffer → ℕ
peek b = b.reader_index

unfoldable pub begin_write : Buffer → ℕ
begin_write b = b.writer_index

unfoldable pub retrieve_all : Buffer → Buffer
retrieve_all b = record b { reader_index = cheap_prepend; writer_index = cheap_prepend }

-- The move constructor: the new buffer, and what is left of the old one.
unfoldable pub move_construct : Buffer → Buffer × Buffer
move_construct b = (b, record b { bytes = [] })

unfoldable pub swap : Buffer → Buffer → Buffer × Buffer
swap b rhs = (rhs, b)

-- The offset of the first "\r\n" in the bytes from `start` on, if there is one.
find_pair_from : Buffer → ℕ → Result (Option ℕ)
find_pair_from b start = do
  region ← mem_read b.bytes start (sub_size b.writer_index start)
  ok (Option.map (λ i. start + i) (search_pair 13 10 region))

unfoldable pub find_crlf : Buffer → Result (Option ℕ)
unfolding find_pair_from peek
find_crlf b = find_pair_from b (peek b)

unfoldable pub find_eol : Buffer → Result (Option ℕ)
unfolding peek readable_bytes
find_eol b = do
  region ← mem_read b.bytes (peek b) (readable_bytes b)
  ok (Option.map (λ i. peek b + i) (memchr 10 region))

module _ (build : Build) where
  -- Buffer(size_t)
  unfoldable pub make : ℕ → Result Buffer
  unfolding readable_bytes writable_bytes prependable_bytes
  make size = do
    bytes ← allocate (add_size cheap_prepend size)
    let b : Buffer = record {
      bytes = bytes;
      reader_index = cheap_prepend;
      writer_index = cheap_prepend;
    }
    q_assert build (readable_bytes b == 0)
    q_assert build (writable_bytes b == size)
    q_assert build (prependable_bytes b == cheap_prepend)
    ok b

  -- Buffer(const char *, size_t), of bytes that are there.
  unfoldable pub of_bytes : List ℕ → Result Buffer
  unfolding readable_bytes writable_bytes prependable_bytes
  of_bytes xs = do
    fresh ← allocate (add_size cheap_prepend (length xs))
    q_assert build (ltb 0 (length xs))
    bytes ← mem_write fresh cheap_prepend xs
    let b : Buffer = record {
      bytes = bytes;
      reader_index = cheap_prepend;
      writer_index = add_size cheap_prepend (length xs);
    }
    q_assert build (readable_bytes b == length xs)
    q_assert build (writable_bytes b == 0)
    q_assert build (prependable_bytes b == cheap_prepend)
    ok b

  -- findCRLF and findEOL from an address inside the readable region.
  unfoldable pub find_crlf_from : Buffer → ℕ → Result (Option ℕ)
  unfolding find_pair_from peek begin_write
  find_crlf_from b start = do
    q_assert build (leb (peek b) start)
    q_assert build (leb start (begin_write b))
    find_pair_from b start

  unfoldable pub find_eol_from : Buffer → ℕ → Result (Option ℕ)
  unfolding peek begin_write
  find_eol_from b start = do
    q_assert build (leb (peek b) start)
    q_assert build (leb start (begin_write b))
    region ← mem_read b.bytes start (sub_size (begin_write b) start)
    ok (Option.map (λ i. start + i) (memchr 10 region))

  unfoldable pub retrieve : Buffer → ℕ → Result Buffer
  unfolding readable_bytes retrieve_all
  retrieve b len = do
    q_assert build (leb len (readable_bytes b))
    if ltb len (readable_bytes b)
        then ok (record b { reader_index = add_size b.reader_index len })
        else ok (retrieve_all b)

  unfoldable pub retrieve_until : Buffer → ℕ → Result Buffer
  unfolding retrieve peek begin_write
  retrieve_until b end = do
    q_assert build (leb (peek b) end)
    q_assert build (leb end (begin_write b))
    retrieve b (sub_size end (peek b))

  unfoldable pub retrieve_as_string : Buffer → ℕ → Result (List ℕ × Buffer)
  unfolding retrieve peek readable_bytes
  retrieve_as_string b len = do
    q_assert build (leb len (readable_bytes b))
    result ← mem_read b.bytes (peek b) len
    b' ← retrieve b len
    ok (result, b')

  -- QByteArray takes its size as an int: 2 ^ 31 bytes or more are not one.
  unfoldable pub retrieve_as_byte_array : Buffer → ℕ → Result (List ℕ × Buffer)
  unfolding retrieve peek readable_bytes
  retrieve_as_byte_array b len = do
    q_assert build (leb len (readable_bytes b))
    guard (ltb len (2 ^ 31)) length_error
    result ← mem_read b.bytes (peek b) len
    b' ← retrieve b len
    ok (result, b')

  unfoldable pub retrieve_all_as_string : Buffer → Result (List ℕ × Buffer)
  unfolding retrieve_as_string readable_bytes
  retrieve_all_as_string b = retrieve_as_string b (readable_bytes b)

  unfoldable pub retrieve_all_as_byte_array : Buffer → Result (List ℕ × Buffer)
  unfolding retrieve_as_byte_array readable_bytes
  retrieve_all_as_byte_array b = retrieve_as_byte_array b (readable_bytes b)

  unfoldable pub make_space : Buffer → ℕ → Result Buffer
  unfolding readable_bytes writable_bytes prependable_bytes
  make_space b len = do
    q_assert build (ltb (writable_bytes b) len)
    if ltb (add_size (writable_bytes b) (prependable_bytes b)) (add_size len cheap_prepend)
        then (do
          bytes ← resize b.bytes (add_size b.writer_index len)
          ok (record b { bytes = bytes }))
        else (do
          q_assert build (ltb cheap_prepend b.reader_index)
          let readable = readable_bytes b
          bytes ← memcpy b.bytes cheap_prepend b.reader_index readable
          let b' : Buffer = record {
            bytes = bytes;
            reader_index = cheap_prepend;
            writer_index = add_size cheap_prepend readable;
          }
          q_assert build (readable == readable_bytes b')
          ok b')

  unfoldable pub ensure_writable_bytes : Buffer → ℕ → Result Buffer
  unfolding make_space writable_bytes
  ensure_writable_bytes b len = do
    b' ← if ltb (writable_bytes b) len then make_space b len else ok b
    q_assert build (leb len (writable_bytes b'))
    ok b'

  unfoldable pub has_written : Buffer → ℕ → Result Buffer
  unfolding writable_bytes
  has_written b len = do
    q_assert build (leb len (writable_bytes b))
    ok (record b { writer_index = add_size b.writer_index len })

  unfoldable pub unwrite : Buffer → ℕ → Result Buffer
  unfolding readable_bytes
  unwrite b len = do
    q_assert build (leb len (readable_bytes b))
    ok (record b { writer_index = sub_size b.writer_index len })

  unfoldable pub append : Buffer → List ℕ → Result Buffer
  unfolding ensure_writable_bytes has_written begin_write
  append b xs = do
    b' ← ensure_writable_bytes b (length xs)
    bytes ← mem_write b'.bytes (begin_write b') xs
    has_written (record b' { bytes = bytes }) (length xs)

  unfoldable pub prepend : Buffer → List ℕ → Result Buffer
  unfolding prependable_bytes
  prepend b xs = do
    q_assert build (leb (length xs) (prependable_bytes b))
    let reader = sub_size b.reader_index (length xs)
    bytes ← mem_write b.bytes reader xs
    ok (record b { bytes = bytes; reader_index = reader })
