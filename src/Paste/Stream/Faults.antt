-- ===== src/Paste/Stream/Faults.antt =====
-- Where the calls on a stream have undefined behaviour, and where a Read does not return.
use small_program.Base.{
  ℕ, ◌+◌, ◌-◌, ◌%◌, ◌^◌, ◌<◌, ◌≤◌, ◌≡◌, ap, ◌∙◌, List, ◌∷◌, some, true, false, le→ltb, lt→leb,
  length, arith, ok, err, undefined,
}
use small_program.Memory.{mem_write}
use small_program.Paste.Stream.{
  MsStream, store_data, write_to, write_file, cancel, aborted, spins, copy_out, read,
}
use small_program.Paste.Stream.Reading.{read_copies}

-- The end of the data, as DWORD arithmetic has it, lies in the file, but its sum has wrapped.
abbrev pub Wraps : MsStream → List ℕ → Type 0
Wraps s bytes =
    (2 ^ 32 ≤ s.progress_size + length bytes)
    × ((s.progress_size + length bytes) % 2 ^ 32 ≤ s.file_size)

store_data-Wraps :
    (s : MsStream) (mem bytes : List ℕ)
    → length mem < 2 ^ 32
    → Wraps s bytes
    → store_data s mem bytes ≡ err undefined
unfolding store_data mem_write
store_data-Wraps s mem bytes h w = rw (
  le→ltb s.file_size ((s.progress_size + length bytes) % 2 ^ 32) w.1,
  lt→leb (s.progress_size + length bytes) (length mem) (omega (arith, w.0, h)),
)

-- A WriteFile of data that is not empty, for which the sum of mProgressSize and the size is at
-- least 2^32 while its DWORD is at most mFileSize, passes the test of the size and has undefined
-- behaviour, since the data does not fit the mapping; the condition is a mapping shorter than
-- 2^32 bytes.
pub write_file-Wraps :
    (s : MsStream) (mem : List ℕ) (x : ℕ) (xs : List ℕ)
    → s.buffer ≡ some mem
    → length mem < 2 ^ 32
    → Wraps s (x ∷ xs)
    → write_file s (some (x ∷ xs)) ≡ err undefined
unfolding write_file write_to
write_file-Wraps s mem x xs view h w =
    ap (λ b. write_to s b (some (x ∷ xs))) view ∙ store_data-Wraps s mem (x ∷ xs) h w

copy_out_overflow :
    (s : MsStream) (mem : List ℕ) (cb : ℕ)
    → s.position ≤ s.progress_size
    → s.progress_size < 2 ^ 32
    → cb < s.progress_size - s.position
    → copy_out cb s (some mem) ≡ err undefined
unfolding copy_out
copy_out_overflow s mem cb h small over =
    rw
      (lt→leb ((s.progress_size + 2 ^ 32 - s.position) % 2 ^ 32) cb (omega (arith, h, small, over)))

pub read_overflow :
    (s : MsStream) (mem : List ℕ) (cb : ℕ)
    → s.buffer ≡ some mem
    → s.position < s.file_size
    → s.wait_data_flag ≡ true
    → s.cancelled ≡ false
    → s.position ≤ s.progress_size
    → s.progress_size < 2 ^ 32
    → cb < s.progress_size - s.position
    → read cb s ≡ err undefined
read_overflow s mem cb view more flag alive h small over =
    read_copies s cb more flag alive
    ∙ ap (copy_out cb s) view
    ∙ copy_out_overflow s mem cb h small over

-- On a stream that is not at its end, the first Read after a Cancel returns and tells the
-- observer of the end; the next Read waits for a flag that the cancelled transfer does not set.
pub read-cancel :
    (s : MsStream) (cb cb' : ℕ)
    → s.position < s.file_size
    → (s' : MsStream) × (read cb (cancel s) ≡ ok (aborted, s')) × (read cb' s' ≡ ok (spins, s'))
unfolding read cancel
read-cancel s cb cb' more = (
  record s { wait_data_flag = false; cancelled = true },
  ground (arith, more),
  ground (arith, more),
)
