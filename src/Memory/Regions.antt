-- ===== src/Memory/Regions.antt =====
-- Reading and writing a region of memory that is given with what lies before and after it.
use small_program.Base.{
  sym, ℕ, ◌+◌, ◌≤◌, ◌≡◌, List, ◌++◌, append_assoc, length, length-append, take-append, drop-append,
  le→leb, ok, arith,
}
use small_program.Memory.{mem_read, mem_write, max_size, resize}
use small_program.Base.{
  length-drop, replicate, take_all, ◌-◌, sym, ap, ◌∙◌, take, drop, length-take, take-append-drop,
}

-- Reading exactly the middle of three stretches.
pub mem_read_region :
    (before xs after : List ℕ) (from len : ℕ)
    → from ≡ length before
    → len ≡ length xs
    → mem_read (before ++ (xs ++ after)) from len ≡ ok xs
unfolding mem_read
mem_read_region before xs after from len at size = rw (
  le→leb (from + len) (length (before ++ (xs ++ after)))
      (omega (arith, length-append before (xs ++ after), length-append xs after)),
  drop-append from before (xs ++ after) at,
  take-append len xs after size,
)

-- Writing over exactly the middle of three stretches.
pub mem_write_region :
    (before old after bytes : List ℕ) (to : ℕ)
    → to ≡ length before
    → length bytes ≡ length old
    → mem_write (before ++ (old ++ after)) to bytes ≡ ok (before ++ (bytes ++ after))
unfolding mem_write
mem_write_region before old after bytes to at size = rw (
  le→leb (to + length bytes) (length (before ++ (old ++ after)))
      (omega (arith, length-append before (old ++ after), length-append old after)),
  take-append to before (old ++ after) at,
  ← append_assoc before old after,
  drop-append (to + length bytes) (before ++ old) after (omega (arith, length-append before old)),
)

-- A vector that grows keeps its bytes and gets zero bytes behind them.
pub resize_grow :
    (mem : List ℕ) (size : ℕ)
    → length mem ≤ size
    → size ≤ max_size
    → resize mem size ≡ ok (mem ++ replicate (size - length mem) 0)
unfolding resize
resize_grow mem size h limit = rw (le→leb size max_size limit, take_all size mem h)

-- Writing at the front of the second of two stretches.
pub mem_write_front :
    (before after bytes : List ℕ) (to : ℕ)
    → to ≡ length before
    → length bytes ≤ length after
    → mem_write (before ++ after) to bytes ≡ ok (before ++ (bytes ++ drop (length bytes) after))
mem_write_front before after bytes to at fits =
    ap (λ mem. mem_write (before ++ mem) to bytes) (sym (take-append-drop (length bytes) after))
    ∙ mem_write_region before (take (length bytes) after) (drop (length bytes) after) bytes to at
        (omega (arith, length-take (length bytes) after))

-- Reading the rest of the first of two stretches.
pub mem_read_rest :
    (xs after : List ℕ) (from : ℕ)
    → from ≤ length xs
    → mem_read (xs ++ after) from (length xs - from) ≡ ok (drop from xs)
mem_read_rest xs after from h =
    ap (λ mem. mem_read mem from (length xs - from))
      (ap (λ front. front ++ after) (sym (take-append-drop from xs))
        ∙ append_assoc (take from xs) (drop from xs) after)
    ∙ mem_read_region (take from xs) (drop from xs) after from (length xs - from)
        (omega (arith, length-take from xs)) (omega (arith, length-drop from xs))
