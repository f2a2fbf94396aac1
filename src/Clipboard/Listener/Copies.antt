-- ===== src/Clipboard/Listener/Copies.antt =====
-- What the listener hands to the callbacks.
use small_program.Base.{
  le→ltb, lt→leb, ◌&&◌, ◌≤◌, ℕ, ◌+◌, ◌*◌, ◌/◌, ◌%◌, ◌^◌, ◌<◌, ◌≡◌, refl, sym, ap, ◌∙◌, subst, ◌⊎◌,
  inl, inr, List, [], ◌∷◌, ◌++◌, take, drop, length, take-append, Option, none, some, Bool,
  Bool-cases, true, false, ltb, ◌==◌, if◌then◌else◌, arith, Result, ok, err, undefined, lt→ltb,
  dec_lt,
}
use small_program.Download.{int_mul}
use small_program.Paste.Image.{ImageHeader}
use small_program.Clipboard.Listener.{
  from_dib, CopiedFile, Bitmap, drops, bitmap, Copied, file_copied, img_copied, Listener,
  get_file_size, copy_file, get_bitmap_data, on_contents, on_clipboard_update,
}

-- What becomes of a file of this size: nothing for an empty one, and for another the callback, with
-- two words of 32 bits that are the size together. If the size is not known, words without a value
-- are read.
abbrev pub Handed : List ℕ → Option ℕ → Result (List Copied) → Type 0
Handed path none r = r ≡ err undefined
Handed path (some n) r =
    ((n ≡ 0) × (r ≡ ok []))
    ⊎ ((high low : ℕ) × (0 < n)
        × (n ≡ high * 2 ^ 32 + low)
        × (low < 2 ^ 32)
        × (r ≡ ok (file_copied path high low ∷ [])))

copy_file-Handed :
    (path : List ℕ) (size : Option ℕ) → Handed path size (copy_file true path (get_file_size size))
unfolding copy_file get_file_size
copy_file-Handed path none = refl
copy_file-Handed path (some n) = elim (dec_lt 0 n) [
  | no empty_one ↦ inl (omega (arith, empty_one), ground (arith, empty_one))
  | yes full ↦ inr (n / 2 ^ 32, n % 2 ^ 32, full, omega arith, omega arith, ground (arith, full))
]

-- When files were copied, no paste is being set up and the callback is set, then the first file
-- is handed to it with its path and the words of its size, if it is not empty, and nothing is
-- handed over if it is; where its size is not known, the behaviour is undefined.
pub on_clipboard_update-Handed :
    (l : Listener) (unset : List ℕ) (f : CopiedFile) (fs : List CopiedFile)
    → l.is_ole_clipboard_operation ≡ false
    → l.cp_filecallback ≡ true
    → Handed f.path f.size (on_clipboard_update l unset (some (drops (some (f ∷ fs)))))
unfolding on_clipboard_update on_contents
on_clipboard_update-Handed l unset f fs idle set = rw (idle, set) (copy_file-Handed f.path f.size)

abbrev pub header_of : Bitmap → ImageHeader
header_of b = record {
  width = b.width;
  height = b.height;
  planes = b.planes;
  bit_count = b.bits_pixel;
  compression = 0;
}

-- The bytes of a bitmap's row in GDI's memory, a multiple of two, and of the row that GetDIBits
-- writes, a multiple of four.
abbrev pub word_row : Bitmap → ℕ
word_row b = (b.width * b.bits_pixel + 15) / 16 * 2

abbrev pub dword_row : Bitmap → ℕ
dword_row b = (b.width * b.bits_pixel + 31) / 32 * 4

same_rows : (bits : ℕ) → (bits + 15) / 16 * 2 % 4 ≡ 0 → (bits + 31) / 32 * 4 ≡ (bits + 15) / 16 * 2
same_rows bits e = omega (arith, e)

longer_rows :
    (bits : ℕ) → ¬ ((bits + 15) / 16 * 2 % 4 ≡ 0) → (bits + 31) / 32 * 4 ≡ (bits + 15) / 16 * 2 + 2
longer_rows bits e = omega (arith, e)

wider :
    (bits height : ℕ)
    → ¬ ((bits + 15) / 16 * 2 % 4 ≡ 0)
    → (bits + 31) / 32 * 4 * height ≡ (bits + 15) / 16 * 2 * height + 2 * height
wider bits height e = ap (λ row. row * height) (longer_rows bits e) ∙ omega arith

-- The bitmap's size with the choice that follows, where there are no colours.
sized :
    (callback : Bool) (b : Bitmap) (unset bits : List ℕ)
    → b.width_bytes * b.height < 2 ^ 31
    → get_bitmap_data callback b unset (from_dib 0 bits) ≡ (
        if ltb (b.width_bytes * b.height) (length bits)
        then err undefined
        else (if callback
            then ok (
                img_copied
                  (header_of b)
                  (take (b.width_bytes * b.height) (bits ++ drop (length bits) unset))
                  (b.width_bytes * b.height)
                ∷ [])
            else err undefined))
unfolding get_bitmap_data int_mul
sized callback b unset bits h = rw (lt→ltb (b.width_bytes * b.height) (2 ^ 31) h) refl

filled :
    (b : Bitmap) (unset bits : List ℕ)
    → b.width_bytes * b.height < 2 ^ 31
    → length bits ≡ b.width_bytes * b.height
    → get_bitmap_data true b unset (from_dib 0 bits)
      ≡ ok (img_copied (header_of b) bits (length bits) ∷ [])
filled b unset bits small e =
    sized true b unset bits small
    ∙ rw (sym e, take-append (length bits) bits (drop (length bits) unset) refl) (ground arith)

overrun :
    (b : Bitmap) (unset bits : List ℕ)
    → b.width_bytes * b.height < 2 ^ 31
    → b.width_bytes * b.height < length bits
    → get_bitmap_data true b unset (from_dib 0 bits) ≡ err undefined
overrun b unset bits small h =
    sized true b unset bits small ∙ rw (lt→ltb (b.width_bytes * b.height) (length bits) h) refl

-- More than one colour.
coloured :
    (b : Bitmap) (unset bits : List ℕ) (colours : ℕ)
    → b.width_bytes * b.height < 2 ^ 31
    → 1 < colours
    → get_bitmap_data true b unset (from_dib colours bits) ≡ err undefined
unfolding get_bitmap_data int_mul
coloured b unset bits colours h many =
    rw (lt→ltb (b.width_bytes * b.height) (2 ^ 31) h, lt→leb colours 1 many) refl

-- When a bitmap was copied, no paste is being set up and the callback is set, then the callback
-- gets the bitmap's header, what GetDIBits wrote, and the number of these bytes, if a pixel has
-- more than 8 bits and a row in GDI's memory has a multiple of four bytes; otherwise GetDIBits
-- writes behind bmpInfo or behind the buffer, which is undefined. The conditions, as Windows
-- documents: GDI aligns rows to two bytes and GetDIBits to four, and GetDIBits writes more than
-- one colour for pixels of at most 8 bits and none for others; the bitmap has a row, and its
-- bytes fit an int.
pub on_clipboard_update-bitmap :
    (l : Listener) (unset : List ℕ) (b : Bitmap) (colours : ℕ) (bits : List ℕ)
    → l.is_ole_clipboard_operation ≡ false
    → l.cp_img_callback ≡ true
    → b.width_bytes ≡ word_row b
    → length bits ≡ dword_row b * b.height
    → 0 < b.height
    → (8 < b.bits_pixel → colours ≡ 0)
    → (b.bits_pixel ≤ 8 → 1 < colours)
    → word_row b * b.height < 2 ^ 31
    → on_clipboard_update l unset (some (bitmap (some (some (b, from_dib colours bits))))) ≡ (
        if ltb 8 b.bits_pixel && (b.width_bytes % 4 == 0)
        then ok (img_copied (header_of b) bits (length bits) ∷ [])
        else err undefined)
unfolding on_clipboard_update on_contents
on_clipboard_update-bitmap l unset b colours bits idle set words dwords rows plain palette small =
    elim (dec_lt 8 b.bits_pixel) [
      | no few ↦
          rw (idle, set, le→ltb 8 b.bits_pixel (omega (arith, few)))
            (coloured b unset bits colours fits (palette (omega (arith, few))))
      | yes deep ↦ elim (Bool-cases (b.width_bytes % 4 == 0)) [
        | inl even ↦
            rw (idle, set, plain deep, lt→ltb 8 b.bits_pixel deep, even)
              (filled b unset bits fits (
                dwords
                ∙ ap (λ row. row * b.height)
                    (same_rows (b.width * b.bits_pixel) (ground (arith, even, words)) ∙ sym words)))
        | inr odd ↦
            rw (idle, set, plain deep, lt→ltb 8 b.bits_pixel deep, odd)
              (overrun b unset bits fits (
                omega (
                  arith,
                  rows,
                  dwords,
                  wider (b.width * b.bits_pixel) b.height λ z. ground (arith, odd, words, z),
                  ap (λ row. row * b.height) words,
                )))
      ]
    ]
  where
    fits : b.width_bytes * b.height < 2 ^ 31
    fits = subst (λ row. row * b.height < 2 ^ 31) (sym words) small
