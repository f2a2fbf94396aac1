-- ===== src/Buffer/Numbers.antt =====
-- The integer methods of `Buffer`: integers of 2, 4 and 8 bytes in network order.
pub mod RoundTrip
use small_program.Base.{ℕ, List, leb, Build, Result, ok, ◌>>=◌, ◌>>◌, q_assert}
use small_program.Base.Words.{to_big_endian, from_big_endian}
use small_program.Memory.{mem_read}
use small_program.Buffer.{Buffer, readable_bytes, peek, append, prepend, retrieve}

module _ (build : Build) where
  -- What the three `peekUInt` methods do, for an integer of `n` bytes.
  unfoldable pub peek_word : ℕ → Buffer → Result ℕ
  peek_word n b = do
    q_assert build (leb n (readable_bytes b))
    be ← mem_read b.bytes (peek b) n
    ok (from_big_endian be)

  unfoldable pub append_uint64 : Buffer → ℕ → Result Buffer
  append_uint64 b x = append build b (to_big_endian 8 x)

  unfoldable pub append_uint32 : Buffer → ℕ → Result Buffer
  append_uint32 b x = append build b (to_big_endian 4 x)

  unfoldable pub append_uint16 : Buffer → ℕ → Result Buffer
  append_uint16 b x = append build b (to_big_endian 2 x)

  unfoldable pub retrieve_uint64 : Buffer → Result Buffer
  retrieve_uint64 b = retrieve build b 8

  unfoldable pub retrieve_uint32 : Buffer → Result Buffer
  retrieve_uint32 b = retrieve build b 4

  unfoldable pub retrieve_uint16 : Buffer → Result Buffer
  retrieve_uint16 b = retrieve build b 2

  unfoldable pub peek_uint64 : Buffer → Result ℕ
  unfolding peek_word
  peek_uint64 b = peek_word 8 b

  unfoldable pub peek_uint32 : Buffer → Result ℕ
  unfolding peek_word
  peek_uint32 b = peek_word 4 b

  unfoldable pub peek_uint16 : Buffer → Result ℕ
  unfolding peek_word
  peek_uint16 b = peek_word 2 b

  unfoldable pub read_uint64 : Buffer → Result (ℕ × Buffer)
  unfolding peek_uint64 retrieve_uint64
  read_uint64 b = do result ← peek_uint64 b; b' ← retrieve_uint64 b; ok (result, b')

  unfoldable pub read_uint32 : Buffer → Result (ℕ × Buffer)
  unfolding peek_uint32 retrieve_uint32
  read_uint32 b = do result ← peek_uint32 b; b' ← retrieve_uint32 b; ok (result, b')

  unfoldable pub read_uint16 : Buffer → Result (ℕ × Buffer)
  unfolding peek_uint16 retrieve_uint16
  read_uint16 b = do result ← peek_uint16 b; b' ← retrieve_uint16 b; ok (result, b')

  unfoldable pub prepend_uint64 : Buffer → ℕ → Result Buffer
  prepend_uint64 b x = prepend build b (to_big_endian 8 x)

  unfoldable pub prepend_uint32 : Buffer → ℕ → Result Buffer
  prepend_uint32 b x = prepend build b (to_big_endian 4 x)

  unfoldable pub prepend_uint16 : Buffer → ℕ → Result Buffer
  prepend_uint16 b x = prepend build b (to_big_endian 2 x)
