-- ===== src/Clipboard/Listener.antt =====
-- data_sharing/clipboard/clipboard.cpp: what the listener's window procedure does when the clipboard
-- changes. What the clipboard has, and what the calls on it give, are arguments.
pub mod Copies
pub mod Large
use small_program.Base.{
  leb, guard, ◌>>◌, ℕ, ◌*◌, ◌/◌, ◌%◌, ◌^◌, List, [], ◌∷◌, ◌++◌, take, drop, length, Option, none,
  some, Bool, true, false, ltb, ◌||◌, if◌then◌else◌, Result, ok, err, undefined, ◌>>=◌,
}
use small_program.Download.{int_mul}
use small_program.Paste.Image.{ImageHeader}

-- A file on the clipboard: its path, as it fits the buffer, and its size, `none` where
-- CreateFileW or GetFileSizeEx fails.
pub record CopiedFile : Type 0 where
  pub path : List ℕ
  pub size : Option ℕ

-- BITMAP
pub record Bitmap : Type 0 where
  pub width : ℕ
  pub height : ℕ
  pub width_bytes : ℕ
  pub planes : ℕ
  pub bits_pixel : ℕ

-- What GetDIBits writes: so many colours behind the header in bmpInfo, and the bytes of the rows.
pub record DiBits : Type 0 where
  pub colours : ℕ
  pub bits : List ℕ

abbrev pub from_dib : ℕ → List ℕ → DiBits
from_dib colours bits = record { colours = colours; bits = bits }

-- What OpenClipboard gives access to. `drops` is CF_HDROP, with the files, `bitmap` is CF_BITMAP
-- without CF_HDROP; `none` stands for the NULL of GetClipboardData. The bitmap has what GetObject
-- gives, `none` where it fails, and what GetDIBits writes, nothing where it fails.
pub data Contents : Type 0 where
  drops : Option (List CopiedFile) → Contents
  bitmap : Option (Option (Bitmap × DiBits)) → Contents
  other_formats : Contents

-- A call of g_cpFilecallback or g_cpImgCallback.
pub data Copied : Type 0 where
  file_copied : List ℕ → ℕ → ℕ → Copied
  img_copied : ImageHeader → List ℕ → ℕ → Copied

-- g_isOleClipboardOperation, and which callbacks are set.
pub record Listener : Type 0 where
  pub is_ole_clipboard_operation : Bool
  pub cp_filecallback : Bool
  pub cp_img_callback : Bool

-- GetFileSizeW: the high and the low word. `none` leaves both without a value.
unfoldable pub get_file_size : Option ℕ → Option (ℕ × ℕ)
get_file_size none = none
get_file_size (some n) = some (n / 2 ^ 32, n % 2 ^ 32)

-- The callback of the file, with the words of the size, which are read only if there is one.
unfoldable pub copy_file : Bool → List ℕ → Option (ℕ × ℕ) → Result (List Copied)
copy_file false path size = ok []
copy_file true path none = err undefined
copy_file true path (some (high, low)) =
    if ltb 0 high || ltb 0 low then ok (file_copied path high low ∷ []) else ok []

-- GetBitmapData: the bytes of GetDIBits go to a buffer without values at first, and must fit it;
-- bmpInfo has room for one colour. A callback that is not set is no function to call. BI_RGB is 0.
unfoldable pub get_bitmap_data : Bool → Bitmap → List ℕ → DiBits → Result (List Copied)
unfolding int_mul
get_bitmap_data callback b unset dib = do
  size ← int_mul b.width_bytes b.height
  guard (leb dib.colours 1) undefined
  if ltb size (length dib.bits)
      then err undefined
      else (if callback
          then ok (
              img_copied
                (record {
                  width = b.width;
                  height = b.height;
                  planes = b.planes;
                  bit_count = b.bits_pixel;
                  compression = 0;
                })
                (take size (dib.bits ++ drop (length dib.bits) unset)) size
              ∷ [])
          else err undefined)

-- The clipboard that OpenClipboard opened; `unset` is what the memory of the buffer happens to have.
unfoldable pub on_contents : Listener → List ℕ → Contents → Result (List Copied)
unfolding copy_file get_file_size get_bitmap_data
on_contents l unset (drops none) = ok []
on_contents l unset (drops (some [])) = ok []
on_contents l unset (drops (some (f ∷ fs))) =
    copy_file l.cp_filecallback f.path (get_file_size f.size)
on_contents l unset (bitmap none) = ok []
on_contents l unset (bitmap (some none)) = ok []
on_contents l unset (bitmap (some (some (b, dib)))) = get_bitmap_data l.cp_img_callback b unset dib
on_contents l unset other_formats = ok []

-- WM_CLIPBOARDUPDATE, with the contents, `none` where OpenClipboard fails.
unfoldable pub on_clipboard_update : Listener → List ℕ → Option Contents → Result (List Copied)
unfolding on_contents
on_clipboard_update l unset none = ok []
on_clipboard_update l unset (some c) =
    if l.is_ole_clipboard_operation then ok [] else on_contents l unset c
