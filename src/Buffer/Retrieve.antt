-- ===== src/Buffer/Retrieve.antt =====
-- Reading from a buffer: `retrieve`, `retrieveAsByteArray` and what they leave.
use small_program.Base.{
  ◌+◌, ◌⊎◌, inl, inr, ℕ, ◌^◌, ◌≤◌, ◌<◌, ◌≡◌, refl, sym, ap, ◌∙◌, List, [], ◌∷◌, ◌++◌, append_assoc,
  length, length-append, arith, Build, ok, subst, append-nil, ◌>>=◌, Ensures, done, Ensures-bind,
}
use small_program.Base.Words.{add_size}
use small_program.Memory.{mem_read}
use small_program.Memory.Regions.{mem_read_region}
use small_program.Buffer.{
  Buffer, cheap_prepend, readable_bytes, retrieve_all, retrieve, retrieve_as_byte_array,
  retrieve_all_as_byte_array,
}
use small_program.Buffer.Regions.{
  Holds, Leaves, length-bytes, readable_bytes-Holds, retrieve_all-Holds,
}

module _ (build : Build) where
  retrieve_part :
      (b : Buffer) (len : ℕ)
      → len < readable_bytes b
      → retrieve build b len ≡ ok (record b { reader_index = add_size b.reader_index len })
  unfolding retrieve
  retrieve_part b len h = ground arith

  retrieve_rest :
      (b : Buffer) (len : ℕ) → len ≡ readable_bytes b → retrieve build b len ≡ ok (retrieve_all b)
  unfolding retrieve
  retrieve_rest b len h = ground arith

  advance-Holds :
      {b : Buffer} (xs ys : List ℕ) (len : ℕ)
      → len ≡ length xs
      → Holds b (xs ++ ys)
      → Holds (record b { reader_index = add_size b.reader_index len }) ys
  advance-Holds {b} xs ys len e h = record {
    before = h.before ++ xs;
    after = h.after;
    layout =
        h.layout
        ∙ ap (◌++◌ h.before) (append_assoc xs ys h.after)
        ∙ sym (append_assoc h.before xs (ys ++ h.after));
    reader_at = omega (
      arith,
      length-append h.before xs,
      length-append xs ys,
      length-bytes h,
      h.reader_at,
      h.limit,
    );
    writer_at = omega (arith, length-append h.before xs, length-append xs ys, h.writer_at);
    reserved = h.reserved;
    limit = h.limit;
  }

  -- `retrieve` of the first stretch leaves the rest.
  pub retrieve-Holds :
      (b : Buffer) (xs ys : List ℕ) (len : ℕ)
      → len ≡ length xs
      → Holds b (xs ++ ys)
      → Ensures (λ b'. Holds b' ys) (retrieve build b len)
  retrieve-Holds b xs [] len e h =
      rw (retrieve_rest b len (omega (arith, readable_bytes-Holds h, length-append {0} xs [])))
        (done _ (retrieve_all-Holds h))
  retrieve-Holds b xs (y ∷ ys) len e h =
      rw (retrieve_part b len (omega (arith, readable_bytes-Holds h, length-append xs (y ∷ ys))))
        (done _ (advance-Holds xs (y ∷ ys) len e h))

module _ (build : Build) where
  -- retrieve of the first stretch of the readable bytes leaves the rest in a valid buffer, and
  -- the reader index moves by the stretch or goes to the front.
  pub retrieve_moves :
      (b : Buffer) (xs ys : List ℕ) (len : ℕ)
      → len ≡ length xs
      → Holds b (xs ++ ys)
      → Ensures
          (λ b'.
            Holds b' ys
            × ((b'.reader_index ≡ cheap_prepend) ⊎ (b'.reader_index ≡ b.reader_index + len)))
          (retrieve build b len)
  unfolding retrieve_all
  retrieve_moves b xs [] len e h =
      rw
        (retrieve_rest build b len (omega (arith, readable_bytes-Holds h, length-append {0} xs [])))
        (done _ (retrieve_all-Holds h, inl refl))
  retrieve_moves b xs (y ∷ ys) len e h =
      rw
        (retrieve_part build b len
          (omega (arith, readable_bytes-Holds h, length-append xs (y ∷ ys))))
        (done _ (
          advance-Holds build xs (y ∷ ys) len e h,
          inr (omega (arith, length-append xs (y ∷ ys), length-bytes h, h.reader_at, h.limit)),
        ))

-- Reading from the reader index gives the first readable bytes.
pub mem_read-Holds :
    {b : Buffer} (xs ys : List ℕ) (len : ℕ)
    → len ≡ length xs
    → Holds b (xs ++ ys)
    → mem_read b.bytes b.reader_index len ≡ ok xs
mem_read-Holds {b} xs ys len e h =
    ap (λ m. mem_read m b.reader_index len)
      (h.layout ∙ ap (◌++◌ h.before) (append_assoc xs ys h.after))
    ∙ mem_read_region h.before xs (ys ++ h.after) b.reader_index len h.reader_at e

module _ (build : Build) where
  as_byte_array_unfold :
      (b : Buffer) (len : ℕ)
      → len ≤ readable_bytes b
      → len < 2 ^ 31
      → retrieve_as_byte_array build b len ≡ (do
        result ← mem_read b.bytes b.reader_index len
        b' ← retrieve build b len
        ok (result, b'))
  unfolding retrieve_as_byte_array readable_bytes
  as_byte_array_unfold b len h k = ground arith

  -- retrieveAsByteArray returns the first stretch of the readable bytes, shorter than 2 ^ 31,
  -- and leaves the rest in a valid buffer.
  pub retrieve_as_byte_array-Holds :
      (b : Buffer) (xs ys : List ℕ) (len : ℕ)
      → len ≡ length xs
      → length xs < 2 ^ 31
      → Holds b (xs ++ ys)
      → Ensures (Leaves xs ys) (retrieve_as_byte_array build b len)
  retrieve_as_byte_array-Holds b xs ys len e small h =
      rw
        (
          as_byte_array_unfold b len (omega (arith, readable_bytes-Holds h, length-append xs ys))
              (omega arith),
          mem_read-Holds xs ys len e h,
        )
        (Ensures-bind (λ b'. Holds b' ys) _ _ _ (retrieve-Holds build b xs ys len e h)
          λ b' h'. done _ (refl, h'))

  -- `retrieveAllAsByteArray` returns all readable bytes and leaves the buffer empty.
  pub retrieve_all_as_byte_array-Holds :
      (b : Buffer) (xs : List ℕ)
      → length xs < 2 ^ 31
      → Holds b xs
      → Ensures (Leaves xs []) (retrieve_all_as_byte_array build b)
  unfolding retrieve_all_as_byte_array
  retrieve_all_as_byte_array-Holds b xs small h =
      retrieve_as_byte_array-Holds b xs [] (readable_bytes b) (readable_bytes-Holds h) small
        (subst (Holds b) (sym (append-nil xs)) h)
