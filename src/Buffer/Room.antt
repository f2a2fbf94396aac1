-- ===== src/Buffer/Room.antt =====
-- Making room in a buffer: `ensureWritableBytes`.
mod Space
pub use Space.{MovesApart, MakesRoom}
use small_program.Base.{
  ℕ, ◌+◌, ◌-◌, ◌≤◌, ◌<◌, ◌≡◌, refl, ap, ◌∙◌, ◌⊎◌, inl, List, ◌++◌, append_assoc, length, drop,
  replicate, length-append, length-take, length-drop, length-replicate, arith, Build, ok, err,
  undefined, Ensures, done, Ensures-value, Ensures-of_eq, dec_lt,
}
use small_program.Base.Words.{add_size}
use small_program.Memory.{max_size, memcpy}
use small_program.Memory.Regions.{resize_grow}
use small_program.Memory.Compaction.{kept, gap, memcpy_down}
use small_program.Buffer.{
  Buffer, cheap_prepend, readable_bytes, writable_bytes, make_space, ensure_writable_bytes,
}
use small_program.Buffer.Regions.{Holds, length-bytes, readable_bytes-Holds, writable_bytes-Holds}
use small_program.Buffer.Room.Space.{make_space-Holds, make_space_overlap}

module _ (build : Build) where
  ensure_room :
      (b : Buffer) (len : ℕ) → len ≤ writable_bytes b → ensure_writable_bytes build b len ≡ ok b
  unfolding ensure_writable_bytes
  ensure_room b len h = ground arith

  ensure_short :
      (b : Buffer) (len : ℕ) {b' : Buffer}
      → writable_bytes b < len
      → make_space build b len ≡ ok b'
      → len ≤ writable_bytes b'
      → ensure_writable_bytes build b len ≡ ok b'
  unfolding ensure_writable_bytes
  ensure_short b len short made room = ground arith

  -- ensureWritableBytes keeps the readable bytes of a valid buffer and makes room for len more,
  -- and the reader index stays or goes to the front. The conditions: the compaction, where it is
  -- reached, does not move the readable bytes over themselves, and the writer index with len
  -- stays within the vector's maximal size.
  pub ensure_writable_bytes-Holds :
      (b : Buffer) (xs : List ℕ) (len : ℕ)
      → Holds b xs
      → MovesApart b len
      → b.writer_index + len ≤ max_size
      → Ensures (MakesRoom b xs len) (ensure_writable_bytes build b len)
  ensure_writable_bytes-Holds b xs len h apart fits = elim (dec_lt (writable_bytes b) len) [
    | yes short ↦
        let (b', made, p) = Ensures-value (make_space-Holds build b xs len h short apart fits) in
        Ensures-of_eq b' (ensure_short b len short made p.1) p
    | no room ↦ Ensures-of_eq b (ensure_room b len (omega arith)) (h, omega arith, inl refl)
  ]

  -- Where the compaction would move the readable bytes over themselves, the call has undefined
  -- behaviour.
  pub ensure_writable_bytes-overlap :
      (b : Buffer) (xs : List ℕ) (len : ℕ)
      → Holds b xs
      → ¬ MovesApart b len
      → ensure_writable_bytes build b len ≡ err undefined
  unfolding ensure_writable_bytes
  ensure_writable_bytes-overlap b xs len h close =
      ground (arith, make_space_overlap build b xs len h)
