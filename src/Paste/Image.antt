-- ===== src/Paste/Image.antt =====
-- data_sharing/clipboard/MSPaste/MSImgHandler.cpp: a pasted image, which GetImg waits for while
-- another thread writes what arrives. DWORD, ULONG and unsigned long have 32 bits. The log and the
-- progress window are left out.
pub mod Waiting
pub mod Filled
use small_program.Base.{
  ℕ, ◌+◌, ◌*◌, ◌%◌, ◌^◌, List, [], ◌∷◌, ◌++◌, Option, none, some, Bool, true, false, ltb, leb,
  if◌then◌else◌, length, replicate, Result, ok, err, undefined, ◌>>=◌, ◌>>◌,
}
use small_program.Base.Words.{to_little_endian}
use small_program.Memory.{mem_write}
use small_program.Paste.Transfer.{Action, writes, cancels, turns}

-- IMAGE_HEADER; a negative int is its word of 32 bits.
pub record ImageHeader : Type 0 where
  pub width : ℕ
  pub height : ℕ
  pub planes : ℕ
  pub bit_count : ℕ
  pub compression : ℕ

-- `dib` is the memory behind `mLpDib`, `none` for NULL.
pub record MsImgHandler : Type 0 where
  pub dib : Option (List ℕ)
  pub file_size : ℕ
  pub progress_size : ℕ
  pub position : ℕ
  pub wait_data_flag : Bool
  pub cancelled : Bool
  pub pic_header : ImageHeader

unfoldable pub create : ℕ → ImageHeader → MsImgHandler
create file_size pic_header = record {
  dib = none;
  file_size = file_size;
  progress_size = 0;
  position = 0;
  wait_data_flag = false;
  cancelled = false;
  pic_header = pic_header;
}

-- kDataShift, sizeof(BITMAPINFO), and sizeof(BITMAPINFOHEADER).
abbrev pub data_shift : ℕ
data_shift = 44

abbrev pub header_size : ℕ
header_size = 40

-- The bytes of `bmpInfo`: biSize, biWidth, biHeight, biPlanes, biBitCount, biCompression, and
-- zeros.
unfoldable pub bitmap_info : ImageHeader → List ℕ
unfolding to_little_endian
bitmap_info h =
    to_little_endian 4 header_size
    ++ (to_little_endian 4 h.width
        ++ (to_little_endian 4 h.height
            ++ (to_little_endian 2 h.planes
                ++ (to_little_endian 2 h.bit_count
                    ++ (to_little_endian 4 h.compression ++ replicate 24 0)))))

-- The first part of GetImg, on a handler without memory: the memory and the header in it. GlobalAlloc and
-- GlobalLock succeed.
unfoldable pub set_up : MsImgHandler → Result MsImgHandler
unfolding bitmap_info
set_up s = do
  mem ← mem_write (replicate ((data_shift + s.file_size) % 2 ^ 32) 0) 0 (bitmap_info s.pic_header)
  ok (record s { dib = some mem })

-- The end of WriteFile, with the memory and the data.
unfoldable pub store_data : MsImgHandler → List ℕ → List ℕ → Result MsImgHandler
store_data s mem bytes =
    if ltb s.file_size ((s.progress_size + length bytes) % 2 ^ 32) then ok s else (do
      mem' ← mem_write mem (data_shift + s.progress_size) bytes
      ok (record s {
        dib = some mem';
        progress_size = (s.progress_size + length bytes) % 2 ^ 32;
        wait_data_flag = true;
      }))

-- WriteFile; the data is `none` for NULL.
unfoldable pub write_to : MsImgHandler → Option (List ℕ) → Option (List ℕ) → Result MsImgHandler
unfolding store_data
write_to s none bytes = ok s
write_to s (some mem) none = ok s
write_to s (some mem) (some []) = ok s
write_to s (some mem) (some (x ∷ xs)) = store_data s mem (x ∷ xs)

unfoldable pub write_file : MsImgHandler → Option (List ℕ) → Result MsImgHandler
unfolding write_to
write_file s bytes = write_to s s.dib bytes

unfoldable pub cancel : MsImgHandler → MsImgHandler
cancel s = record s { cancelled = true; wait_data_flag = true }

-- How a Check ends: it returns true or false, or it spins on `mWaitDataFlag`.
pub data Checked : Type 0 where
  goes_on ends spins : Checked

unfoldable pub check : MsImgHandler → Checked × MsImgHandler
check s =
    if leb s.file_size s.position
    then (ends, s)
    else (if s.wait_data_flag
        then (if s.cancelled
            then (ends, s)
            else (goes_on, record s { wait_data_flag = false; position = s.progress_size }))
        else (spins, s))

-- After a Check: GetImg returns, or its loop goes on.
abbrev pub after_check : {A : Type 0} → Checked → A → A → A
after_check ends stop rest = stop
after_check goes_on stop rest = rest
after_check spins stop rest = rest

-- The loop of GetImg while the actions last, with a Check for each turn, and what follows it: whether GetImg has returned, and
-- the handler.
unfoldable pub wait_img : MsImgHandler → List (Action (Unit {0})) → Result (Bool × MsImgHandler)
unfolding write_file cancel check
wait_img s [] = ok (false, s)
wait_img s (writes bytes ∷ actions) = do s' ← write_file s bytes; wait_img s' actions
wait_img s (cancels ∷ actions) = wait_img (cancel s) actions
wait_img s (turns _ ∷ actions) =
    let rest = wait_img (check s).1 actions in after_check (check s).0 (ok (true, (check s).1)) rest

-- GetImg, the first time that it is called.
unfoldable pub get_img : MsImgHandler → List (Action (Unit {0})) → Result (Bool × MsImgHandler)
unfolding set_up wait_img
get_img s actions = do s' ← set_up s; wait_img s' actions
