-- ===== src/Buffer/Chain.antt =====
-- One step of a method chain on a buffer, and what the rest of the chain may assume after it.
use small_program.Base.{
  ℕ, ◌^◌, ◌≤◌, ◌<◌, ◌≡◌, sym, List, [], ◌++◌, length, arith, subst, Build, Result, ◌>>=◌, Ensures,
  Ensures-bind,
}
use small_program.Base.Words.{to_big_endian, length-to_big_endian}
use small_program.Memory.{mem_read}
use small_program.Buffer.{Buffer, initial_size, make, append, retrieve, retrieve_all_as_byte_array}
use small_program.Buffer.Regions.{Holds, Leaves}
use small_program.Buffer.Retrieve.{retrieve-Holds, mem_read-Holds, retrieve_all_as_byte_array-Holds}
use small_program.Buffer.Fresh.{IsFresh, message_limit, make-IsFresh, append-IsFresh}
use small_program.Buffer.Numbers.{
  append_uint64, append_uint32, append_uint16, read_uint64, read_uint32, read_uint16,
}
use small_program.Buffer.Numbers.RoundTrip.{read_word-Holds}

module _ {ℓ κ} (build : Build) {B : Type ℓ} {Q : B → Type κ} where
  pub make-then :
      (f : Buffer → Result B)
      → ((b : Buffer) → IsFresh b [] → Ensures Q (f b))
      → Ensures Q (make build initial_size >>= f)
  make-then f k =
      Ensures-bind (λ b. IsFresh b []) Q _ f (make-IsFresh build initial_size (omega arith)) k

  pub append-then :
      (b : Buffer) (xs ys : List ℕ) (f : Buffer → Result B)
      → IsFresh b xs
      → length xs ≤ message_limit
      → length ys ≤ message_limit
      → ((b' : Buffer) → IsFresh b' (xs ++ ys) → Ensures Q (f b'))
      → Ensures Q (append build b ys >>= f)
  append-then b xs ys f h hx hy k =
      Ensures-bind (λ b'. IsFresh b' (xs ++ ys)) Q _ f (append-IsFresh build b xs ys h hx hy) k

  append_word-then :
      (n x : ℕ) (b : Buffer) (xs : List ℕ) (f : Buffer → Result B)
      → IsFresh b xs
      → length xs ≤ message_limit
      → n ≤ message_limit
      → ((b' : Buffer) → IsFresh b' (xs ++ to_big_endian n x) → Ensures Q (f b'))
      → Ensures Q (append build b (to_big_endian n x) >>= f)
  append_word-then n x b xs f h hx hn k =
      append-then b xs (to_big_endian n x) f h hx (omega (arith, length-to_big_endian n x)) k

  pub append_uint64-then :
      (x : ℕ) (b : Buffer) (xs : List ℕ) (f : Buffer → Result B)
      → IsFresh b xs
      → length xs ≤ message_limit
      → ((b' : Buffer) → IsFresh b' (xs ++ to_big_endian 8 x) → Ensures Q (f b'))
      → Ensures Q (append_uint64 build b x >>= f)
  unfolding append_uint64
  append_uint64-then x b xs f h hx k = append_word-then 8 x b xs f h hx (omega arith) k

  pub append_uint32-then :
      (x : ℕ) (b : Buffer) (xs : List ℕ) (f : Buffer → Result B)
      → IsFresh b xs
      → length xs ≤ message_limit
      → ((b' : Buffer) → IsFresh b' (xs ++ to_big_endian 4 x) → Ensures Q (f b'))
      → Ensures Q (append_uint32 build b x >>= f)
  unfolding append_uint32
  append_uint32-then x b xs f h hx k = append_word-then 4 x b xs f h hx (omega arith) k

  pub append_uint16-then :
      (x : ℕ) (b : Buffer) (xs : List ℕ) (f : Buffer → Result B)
      → IsFresh b xs
      → length xs ≤ message_limit
      → ((b' : Buffer) → IsFresh b' (xs ++ to_big_endian 2 x) → Ensures Q (f b'))
      → Ensures Q (append_uint16 build b x >>= f)
  unfolding append_uint16
  append_uint16-then x b xs f h hx k = append_word-then 2 x b xs f h hx (omega arith) k

  pub retrieve-then :
      (b : Buffer) (xs ys : List ℕ) (len : ℕ) (f : Buffer → Result B)
      → len ≡ length xs
      → Holds b (xs ++ ys)
      → ((b' : Buffer) → Holds b' ys → Ensures Q (f b'))
      → Ensures Q (retrieve build b len >>= f)
  retrieve-then b xs ys len f e h k =
      Ensures-bind (λ b'. Holds b' ys) Q _ f (retrieve-Holds build b xs ys len e h) k

  pub mem_read-then :
      (b : Buffer) (xs ys : List ℕ) (len : ℕ) (f : List ℕ → Result B)
      → len ≡ length xs
      → Holds b (xs ++ ys)
      → Ensures Q (f xs)
      → Ensures Q (mem_read b.bytes b.reader_index len >>= f)
  mem_read-then b xs ys len f e h k = rw (mem_read-Holds xs ys len e h) k

  pub read_uint64-then :
      (x : ℕ) (b : Buffer) (ys : List ℕ) (f : ℕ × Buffer → Result B)
      → x < 2 ^ 64
      → Holds b (to_big_endian 8 x ++ ys)
      → ((b' : Buffer) → Holds b' ys → Ensures Q (f (x, b')))
      → Ensures Q (read_uint64 build b >>= f)
  unfolding read_uint64
  read_uint64-then x b ys f small h k =
      Ensures-bind (Leaves x ys) Q _ f (read_word-Holds build 8 x b ys small h)
        λ r p. subst (λ v. Ensures Q (f (v, r.1))) (sym p.0) (k r.1 p.1)

  pub read_uint32-then :
      (x : ℕ) (b : Buffer) (ys : List ℕ) (f : ℕ × Buffer → Result B)
      → x < 2 ^ 32
      → Holds b (to_big_endian 4 x ++ ys)
      → ((b' : Buffer) → Holds b' ys → Ensures Q (f (x, b')))
      → Ensures Q (read_uint32 build b >>= f)
  unfolding read_uint32
  read_uint32-then x b ys f small h k =
      Ensures-bind (Leaves x ys) Q _ f (read_word-Holds build 4 x b ys small h)
        λ r p. subst (λ v. Ensures Q (f (v, r.1))) (sym p.0) (k r.1 p.1)

  pub read_uint16-then :
      (x : ℕ) (b : Buffer) (ys : List ℕ) (f : ℕ × Buffer → Result B)
      → x < 2 ^ 16
      → Holds b (to_big_endian 2 x ++ ys)
      → ((b' : Buffer) → Holds b' ys → Ensures Q (f (x, b')))
      → Ensures Q (read_uint16 build b >>= f)
  unfolding read_uint16
  read_uint16-then x b ys f small h k =
      Ensures-bind (Leaves x ys) Q _ f (read_word-Holds build 2 x b ys small h)
        λ r p. subst (λ v. Ensures Q (f (v, r.1))) (sym p.0) (k r.1 p.1)

  pub retrieve_all_as_byte_array-then :
      (b : Buffer) (xs : List ℕ) (f : List ℕ × Buffer → Result B)
      → length xs < 2 ^ 31
      → Holds b xs
      → ((b' : Buffer) → Holds b' [] → Ensures Q (f (xs, b')))
      → Ensures Q (retrieve_all_as_byte_array build b >>= f)
  retrieve_all_as_byte_array-then b xs f small h k =
      Ensures-bind (Leaves xs []) Q _ f (retrieve_all_as_byte_array-Holds build b xs small h)
        λ r p. subst (λ v. Ensures Q (f (v, r.1))) (sym p.0) (k r.1 p.1)
