-- ===== src/Memory/Compaction.antt =====
-- memcpy of a region to an earlier address that it does not reach back to.
use small_program.Base.{
  ℕ, ◌+◌, ◌≤◌, ◌≡◌, refl, sym, ap, ◌∙◌, List, ◌++◌, append_assoc, length, take, drop, length-take,
  length-drop, take-append-drop, ok, arith, not, true,
}
use small_program.Memory.{mem_write, memcpy, overlaps}
use small_program.Memory.Regions.{mem_read_region, mem_write_region}

-- The memory `before ++ xs ++ after` with `xs` copied to the address `to`.
abbrev pub kept : List ℕ → ℕ → List ℕ
kept before to = take to before

abbrev pub gap : List ℕ → List ℕ → ℕ → List ℕ
gap before xs to = drop (length xs) (drop to before)

apart : (to from len : ℕ) → to + len ≤ from → not (overlaps to from len) ≡ true
apart to from len h = ground arith

pub memcpy_down :
    (before xs after : List ℕ) (to len : ℕ)
    → len ≡ length xs
    → to + length xs ≤ length before
    → memcpy (before ++ (xs ++ after)) to (length before) len
      ≡ ok (kept before to ++ (xs ++ (gap before xs to ++ (xs ++ after))))
unfolding memcpy
memcpy_down before xs after to len e h =
    rw
      (
        apart to (length before) len (omega arith),
        mem_read_region before xs after (length before) len refl e,
      )
      (ap (λ m. mem_write m to xs) split
        ∙ mem_write_region (kept before to) (take (length xs) (drop to before)) _ xs to
            (omega (arith, length-take to before))
            (omega (arith, length-take (length xs) (drop to before), length-drop to before)))
  where
    split :
        before ++ (xs ++ after)
        ≡ kept before to
          ++ (take (length xs) (drop to before) ++ (gap before xs to ++ (xs ++ after)))
    split =
        ap (λ m. m ++ (xs ++ after))
          (sym (
            ap (◌++◌ (kept before to)) (take-append-drop (length xs) (drop to before))
            ∙ take-append-drop to before))
        ∙ append_assoc (kept before to) _ (xs ++ after)
        ∙ ap (◌++◌ (kept before to)) (append_assoc (take (length xs) (drop to before)) _ _)
