-- ===== src/Buffer/Numbers/RoundTrip.antt =====
-- Integers read back from a buffer are the integers that were put there.
use small_program.Base.{
  ℕ, ◌+◌, ◌^◌, ◌≤◌, ◌<◌, ◌≡◌, refl, List, [], ◌++◌, append-nil, subst, sym, arith, Build, ok, ◌>>=◌,
  Ensures, done, Ensures-bind, leb, length-append, q_assert-true, le→leb,
}
use small_program.Base.Words.{to_big_endian, length-to_big_endian, from_big_endian-to_big_endian}
use small_program.Memory.{max_size}
use small_program.Buffer.{Buffer, readable_bytes, peek, append, retrieve}
use small_program.Buffer.Regions.{Holds, Leaves, readable_bytes-Holds}
use small_program.Buffer.Retrieve.{retrieve-Holds, mem_read-Holds}
use small_program.Buffer.Append.{append-Holds, KeepsReader}
use small_program.Buffer.Room.{MovesApart}
use small_program.Buffer.Numbers.{
  peek_word, append_uint64, append_uint32, append_uint16, read_uint64, read_uint32, read_uint16,
}

module _ (build : Build) where
  -- The next integer of a buffer that holds its bytes first.
  pub peek_word-Holds :
      (n x : ℕ) (b : Buffer) (ys : List ℕ)
      → x < 256 ^ n
      → Holds b (to_big_endian n x ++ ys)
      → peek_word build n b ≡ ok x
  unfolding peek_word peek
  peek_word-Holds n x b ys small h = rw (
    q_assert-true build (leb n (readable_bytes b)) (
        le→leb n (readable_bytes b) (
          omega (
            arith,
            readable_bytes-Holds h,
            length-append (to_big_endian n x) ys,
            length-to_big_endian n x,
          ))),
    mem_read-Holds (to_big_endian n x) ys n (sym (length-to_big_endian n x)) h,
    from_big_endian-to_big_endian n x small,
  )

  pub read_word-Holds :
      (n x : ℕ) (b : Buffer) (ys : List ℕ)
      → x < 256 ^ n
      → Holds b (to_big_endian n x ++ ys)
      → Ensures
          (Leaves x ys)
          (do result ← peek_word build n b; b' ← retrieve build b n; ok (result, b'))
  read_word-Holds n x b ys small h = rw (peek_word-Holds n x b ys small h) (
      Ensures-bind (λ b'. Holds b' ys) _ _ _
        (retrieve-Holds build b (to_big_endian n x) ys n (sym (length-to_big_endian n x)) h)
        λ b' h'. done _ (refl, h'))

  -- An integer appended to an empty buffer and read again.
  read_word-append :
      (n x : ℕ) (b : Buffer)
      → x < 256 ^ n
      → Holds b []
      → MovesApart b n
      → b.writer_index + n ≤ max_size
      → Ensures (Leaves x []) (do
        b' ← append build b (to_big_endian n x)
        result ← peek_word build n b'
        b'' ← retrieve build b' n
        ok (result, b''))
  read_word-append n x b small h apart fits =
      Ensures-bind (λ b'. Holds b' (to_big_endian n x) × KeepsReader b b') _ _ _
        (append-Holds build b [] (to_big_endian n x) h
          (subst (MovesApart b) (sym (length-to_big_endian n x)) apart)
          (omega (arith, length-to_big_endian n x)))
        λ b' p.
          read_word-Holds n x b' [] small
            (subst (Holds b') (sym (append-nil (to_big_endian n x))) p.0)

  -- readUInt64, readUInt32 and readUInt16 return what appendUInt64, appendUInt32 and
  -- appendUInt16 put into an empty valid buffer, for every value of the width, and leave the
  -- buffer empty and valid. The conditions are those of append for each width.
  pub read_uint-append_uint :
      (b : Buffer) (x y z : ℕ)
      → x < 2 ^ 64
      → y < 2 ^ 32
      → z < 2 ^ 16
      → Holds b []
      → MovesApart b 8
      → MovesApart b 4
      → MovesApart b 2
      → b.writer_index + 8 ≤ max_size
      → Ensures (Leaves x []) (append_uint64 build b x >>= read_uint64 build)
        × Ensures (Leaves y []) (append_uint32 build b y >>= read_uint32 build)
        × Ensures (Leaves z []) (append_uint16 build b z >>= read_uint16 build)
  unfolding append_uint64 append_uint32 append_uint16 read_uint64 read_uint32 read_uint16
  read_uint-append_uint b x y z hx hy hz h a8 a4 a2 fits = (
    read_word-append 8 x b hx h a8 fits,
    read_word-append 4 y b hy h a4 (omega arith),
    read_word-append 2 z b hz h a2 (omega arith),
  )
