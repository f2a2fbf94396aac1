-- ===== src/Memory.antt =====
-- The memory behind a std::vector<char>, and the calls of the C++ and C libraries on it that
-- common/buffer.h makes: memcpy, std::search, memchr, std::vector::resize. An address is an
-- offset into the vector. A call outside the vector, and a memcpy between ranges that overlap,
-- is undefined behaviour. A byte is any number: the buffer only moves bytes.
pub mod Regions
pub mod Compaction
use small_program.Base.{
  ℕ, ◌+◌, ◌-◌, ◌^◌, List, [], ◌∷◌, ◌++◌, Option, none, some, ◌&&◌, not, ltb, leb, ◌==◌, Bool, suc,
  if◌then◌else◌, length, take, drop, replicate, Result, ok, err, Fault, undefined, length_error,
  ◌>>=◌, ◌>>◌, guard, arith,
}
use mathlib.Core.Option

-- std::vector<char>::max_size(): what a ptrdiff_t can count.
abbrev pub max_size : ℕ
max_size = 2 ^ 63 - 1

-- The `len` bytes from `from` on, as memcpy, QByteArray and std::string read them.
unfoldable pub mem_read : List ℕ → ℕ → ℕ → Result (List ℕ)
mem_read mem from len =
    if leb (from + len) (length mem) then ok (take len (drop from mem)) else err undefined

-- memcpy of bytes that lie elsewhere to the address `to`.
unfoldable pub mem_write : List ℕ → ℕ → List ℕ → Result (List ℕ)
mem_write mem to bytes =
    if leb (to + length bytes) (length mem)
    then ok (take to mem ++ (bytes ++ drop (to + length bytes) mem))
    else err undefined

-- Two ranges of `len` bytes share a byte.
abbrev pub overlaps : ℕ → ℕ → ℕ → Bool
overlaps to from len = ltb 0 len && (ltb to (from + len) && ltb from (to + len))

-- memcpy inside one vector.
unfoldable pub memcpy : List ℕ → ℕ → ℕ → ℕ → Result (List ℕ)
unfolding mem_read mem_write
memcpy mem to from len = do
  guard (not (overlaps to from len)) undefined
  bytes ← mem_read mem from len
  mem_write mem to bytes

-- A fresh vector of zero bytes.
unfoldable pub allocate : ℕ → Result (List ℕ)
allocate size = if leb size max_size then ok (replicate size 0) else err length_error

unfoldable pub resize : List ℕ → ℕ → Result (List ℕ)
resize mem size =
    if leb size max_size
    then ok (take size mem ++ replicate (size - length mem) 0)
    else err length_error

-- std::search for two bytes: the offset of the first place where they stand.
unfoldable pub search_pair : ℕ → ℕ → List ℕ → Option ℕ
search_pair a b [] = none
search_pair a b (x ∷ []) = none
search_pair a b (x ∷ y ∷ rest) =
    if (x == a) && (y == b) then some 0 else Option.map suc (search_pair a b (y ∷ rest))

-- memchr: the offset of the first such byte.
unfoldable pub memchr : ℕ → List ℕ → Option ℕ
memchr a [] = none
memchr a (x ∷ rest) = if x == a then some 0 else Option.map suc (memchr a rest)
