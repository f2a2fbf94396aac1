-- ===== src/Paste/Transfer.antt =====
-- data_sharing/clipboard/MSPaste/MSITransData.h: the writing thread's side of a transfer, which a
-- stream and an image handler share.
use small_program.Base.{ℕ, ◌+◌, List, [], ◌∷◌, ◌++◌, Option, none, some, leb, if◌then◌else◌, length}

-- What the threads do: one calls WriteFile, with `none` for NULL, and Cancel; the other, which
-- waits for the data, has a turn. Each runs in one piece.
pub data Action (R : Type 0) : Type 0 where
  writes : Option (List ℕ) → Action R
  cancels : Action R
  turns : R → Action R

-- What one write hands over after `n` bytes: its bytes, if they do not exceed the size.
abbrev pub taken : ℕ → ℕ → List ℕ → List ℕ
taken size n bytes = if leb (n + length bytes) size then bytes else []

-- The bytes that the writes hand over, after `n` bytes.
abbrev pub accepted : {R : Type 0} → ℕ → ℕ → List (Action R) → List ℕ
accepted size n [] = []
accepted size n (writes none ∷ actions) = accepted size n actions
accepted size n (writes (some bytes) ∷ actions) =
    taken size n bytes ++ accepted size (n + length (taken size n bytes)) actions
accepted size n (cancels ∷ actions) = accepted size n actions
accepted size n (turns r ∷ actions) = accepted size n actions
