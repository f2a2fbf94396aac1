-- ===== src/Paste/Stream.antt =====
-- data_sharing/clipboard/MSPaste/MSStream.cpp: the stream that a program reads a pasted file from,
-- while another thread writes what arrives. DWORD and ULONG have 32 bits. The log and the progress
-- window are left out.
pub mod Received
pub mod Reading
pub mod Delivery
pub mod Faults
pub mod Races
use small_program.Base.{
  ℕ, ◌+◌, ◌-◌, ◌*◌, ◌%◌, ◌^◌, List, [], ◌∷◌, Option, none, some, Bool, true, false, ltb, leb,
  if◌then◌else◌, length, replicate, Result, ok, err, undefined, ◌>>=◌, ◌>>◌, guard,
}
use small_program.Memory.{mem_read, mem_write}
use small_program.Paste.Transfer.{Action, writes, cancels, turns}

-- `buffer` is the view that `m_pBuffer` points to, `none` for NULL.
pub record MsStream : Type 0 where
  pub buffer : Option (List ℕ)
  pub file_size : ℕ
  pub progress_size : ℕ
  pub position : ℕ
  pub wait_data_flag : Bool
  pub cancelled : Bool

-- The constructor with InitFile, and whether the file mapping could be made. A fresh mapping is
-- zero.
unfoldable pub create : Bool → ℕ → ℕ → MsStream
create mapped high low = record {
  buffer = if mapped then some (replicate (high * 2 ^ 32 + low) 0) else none;
  file_size = if mapped then low else 0;
  progress_size = 0;
  position = 0;
  wait_data_flag = false;
  cancelled = false;
}

-- The second half of WriteFile, with the buffer and the data.
unfoldable pub store_data : MsStream → List ℕ → List ℕ → Result MsStream
store_data s mem bytes =
    if ltb s.file_size ((s.progress_size + length bytes) % 2 ^ 32) then ok s else (do
      mem' ← mem_write mem s.progress_size bytes
      ok (record s {
        buffer = some mem';
        progress_size = (s.progress_size + length bytes) % 2 ^ 32;
        wait_data_flag = true;
      }))

-- WriteFile; the data is `none` for NULL.
unfoldable pub write_to : MsStream → Option (List ℕ) → Option (List ℕ) → Result MsStream
unfolding store_data
write_to s none bytes = ok s
write_to s (some mem) none = ok s
write_to s (some mem) (some []) = ok s
write_to s (some mem) (some (x ∷ xs)) = store_data s mem (x ∷ xs)

unfoldable pub write_file : MsStream → Option (List ℕ) → Result MsStream
unfolding write_to
write_file s bytes = write_to s s.buffer bytes

unfoldable pub cancel : MsStream → MsStream
cancel s = record s { cancelled = true; wait_data_flag = true }

-- How a Read ends. `eof` and `aborted` return S_FALSE and tell the observer of the end of the
-- stream; only `eof` sets `*pcbRead`, to 0. `delivered` returns S_OK with the bytes. `spins` is
-- the loop on `mWaitDataFlag` while the flag is not set.
pub data Outcome : Type 0 where
  eof aborted spins : Outcome
  delivered : List ℕ → Outcome

-- The last branch of Read: the memcpy to the caller's buffer of `cb` bytes.
unfoldable pub copy_out : ℕ → MsStream → Option (List ℕ) → Result (Outcome × MsStream)
copy_out cb s none = err undefined
copy_out cb s (some mem) = do
  let size = (s.progress_size + 2 ^ 32 - s.position) % 2 ^ 32
  guard (leb size cb) undefined
  bytes ← mem_read mem s.position size
  ok (delivered bytes, record s { position = s.progress_size; wait_data_flag = false })

-- Read into a buffer of `cb` bytes, with a pcbRead that is not NULL.
unfoldable pub read : ℕ → MsStream → Result (Outcome × MsStream)
unfolding copy_out
read cb s =
    if leb s.file_size s.position
    then ok (eof, s)
    else (if s.wait_data_flag
        then (if s.cancelled
            then ok (aborted, record s { wait_data_flag = false })
            else copy_out cb s s.buffer)
        else ok (spins, s))

-- The threads' actions: a turn is a Read into a buffer of so many bytes, and a Read that spins goes on
-- in the next turn. The outcomes of the Reads, and the stream then.
unfoldable pub run : MsStream → List (Action ℕ) → Result (List Outcome × MsStream)
unfolding read write_file cancel
run s [] = ok ([], s)
run s (writes bytes ∷ actions) = do s' ← write_file s bytes; run s' actions
run s (cancels ∷ actions) = run (cancel s) actions
run s (turns cb ∷ actions) = do
  (outcome, s') ← read cb s
  (outcomes, s'') ← run s' actions
  ok (outcome ∷ outcomes, s'')
