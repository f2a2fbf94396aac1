-- ===== src/Paste/Stream/Races.antt =====
-- data_sharing/clipboard/MSPaste/MSStream.cpp: Read in the steps between which the other thread's
-- WriteFile and Cancel can come, since these hold another lock or none.
pub mod Uninterrupted
pub mod Placed
pub mod Interrupted
use small_program.Base.{
  ℕ, ◌+◌, ◌-◌, ◌%◌, ◌^◌, List, [], ◌∷◌, Option, none, some, Bool, true, false, leb, if◌then◌else◌,
  Result, ok, err, undefined, ◌>>=◌, ◌>>◌, guard,
}
use small_program.Memory.{mem_read}
use small_program.Paste.Transfer.{Action, writes, cancels, turns}
use small_program.Paste.Stream.{MsStream, write_file, cancel, Outcome, eof, aborted, delivered}

-- Where a Read into a buffer of `cb` bytes is: at the test of the position, in the loop on the flag,
-- before the flag is reset, at the test of mCancel, before the memcpy, before the store to
-- `*pcbRead` and before that to mPosition, with the bytes that were copied, or at its end, with what
-- `*pcbRead` has.
pub data ReadPhase : Type 0 where
  enters loops resets asks copies : ℕ → ReadPhase
  reports : List ℕ → ReadPhase
  moves : List ℕ → ℕ → ReadPhase
  returned : Outcome → ℕ → ReadPhase

-- mProgressSize - mPosition
abbrev pub unread : MsStream → ℕ
unread s = (s.progress_size + 2 ^ 32 - s.position) % 2 ^ 32

-- The memcpy.
unfoldable pub copy_step : ℕ → MsStream → Option (List ℕ) → Result (MsStream × ReadPhase)
copy_step cb s none = err undefined
copy_step cb s (some mem) = do
  guard (leb (unread s) cb) undefined
  bytes ← mem_read mem s.position (unread s)
  ok (s, reports bytes)

unfoldable pub read_step : MsStream → ReadPhase → Result (MsStream × ReadPhase)
unfolding copy_step
read_step s (enters cb) = ok (s, if leb s.file_size s.position then returned eof 0 else loops cb)
read_step s (loops cb) = ok (s, if s.wait_data_flag then resets cb else loops cb)
read_step s (resets cb) = ok (record s { wait_data_flag = false }, asks cb)
read_step s (asks cb) = ok (s, if s.cancelled then returned aborted 0 else copies cb)
read_step s (copies cb) = copy_step cb s s.buffer
read_step s (reports bytes) = ok (s, moves bytes (unread s))
read_step s (moves bytes reported) =
    ok (record s { position = s.progress_size }, returned (delivered bytes) reported)
read_step s (returned outcome reported) = ok (s, returned outcome reported)

-- The steps of a Read and the other thread's calls between them.
unfoldable pub interleave :
    MsStream → ReadPhase → List (Action (Unit {0})) → Result (MsStream × ReadPhase)
unfolding read_step write_file cancel
interleave s p [] = ok (s, p)
interleave s p (writes bytes ∷ actions) = do s' ← write_file s bytes; interleave s' p actions
interleave s p (cancels ∷ actions) = interleave (cancel s) p actions
interleave s p (turns _ ∷ actions) = do r ← read_step s p; interleave r.0 r.1 actions
