-- ===== src/Clipboard/Listener/Large.antt =====
-- A file of 4 GB or more, from the copy on one device to the paste on another.
use small_program.Base.{
  ℕ, ◌+◌, ◌%◌, ◌^◌, ◌<◌, ◌≤◌, ◌≡◌, ap, List, [], ◌∷◌, Option, none, some, true, length,
  length-append, length-take, arith, Ensures, Ensures-weaken,
}
use small_program.Paste.Transfer.{Action, writes, cancels, turns, taken, accepted}
use small_program.Paste.Stream.{create, run}
use small_program.Paste.Stream.Reading.{received_bytes}
use small_program.Paste.Stream.Delivery.{Fits, run-Received}
use small_program.Clipboard.Listener.{get_file_size}

taken-le : (size n : ℕ) (bytes : List ℕ) → n ≤ size → n + length (taken size n bytes) ≤ size
taken-le size n bytes h = ground (arith, h)

accepted-le :
    (size n : ℕ) (actions : List (Action ℕ))
    → n ≤ size
    → n + length (accepted size n actions) ≤ size
accepted-le size n [] h = omega (arith, h)
accepted-le size n (writes none ∷ actions) h = accepted-le size n actions h
accepted-le size n (writes (some bytes) ∷ actions) h = omega (
  arith,
  length-append (taken size n bytes) (accepted size (n + length (taken size n bytes)) actions),
  accepted-le size (n + length (taken size n bytes)) actions (taken-le size n bytes h),
)
accepted-le size n (cancels ∷ actions) h = accepted-le size n actions h
accepted-le size n (turns cb ∷ actions) h = accepted-le size n actions h

-- The stream of a file of 4 GB or more, which has the words that GetFileSizeW gives for it on
-- the device where it was copied: whatever WriteFile, Cancel and Read calls come, no call has
-- undefined behaviour, and the Reads copy fewer bytes than the file has. The conditions: the
-- file could be mapped, no sum of the low word and a write wraps, and each Read has room for the
-- low word.
pub run-large :
    (n high low : ℕ) (actions : List (Action ℕ))
    → 2 ^ 32 ≤ n
    → get_file_size (some n) ≡ some (high, low)
    → Fits low actions
    → Ensures (λ r. length (received_bytes r.0) < n) (run (create true high low) actions)
unfolding get_file_size
run-large n high low actions large words f =
    Ensures-weaken (run-Received high low actions (omega (arith, low_is)) f) λ r v. omega (
      arith,
      ap length v.1,
      length-take r.1.position (accepted low 0 actions),
      accepted-le low 0 actions (omega arith),
      low_is,
      large,
    )
  where
    low_of : Option (ℕ × ℕ) → ℕ
    low_of none = 0
    low_of (some w) = w.1

    low_is : n % 2 ^ 32 ≡ low
    low_is = ap low_of words
