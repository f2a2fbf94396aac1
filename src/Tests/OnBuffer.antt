-- ===== src/Tests/OnBuffer.antt =====
-- The buffer: runs of its operations.
use small_program.Base.{ℕ, refl, inl, inr, List, [], ◌∷◌, ◌++◌, arith, debug, Ensures}
use small_program.Buffer.{Buffer, writable_bytes, append}
use small_program.Buffer.Regions.{Holds}
use small_program.Buffer.Append.{append-Holds, KeepsReader}
use small_program.Tests.Data.{buffer_of, buffer_of-Holds}

abbrev three : List ℕ
three = 1 ∷ 2 ∷ 3 ∷ []

-- A buffer whose reader has moved by 2, with no room behind.
abbrev moved : Buffer
moved = record {
  bytes = 0 ∷ 0 ∷ 0 ∷ 0 ∷ 0 ∷ 0 ∷ 0 ∷ 0 ∷ 9 ∷ 9 ∷ three;
  reader_index = 10;
  writer_index = 13;
}

moved-Holds : Holds moved three
moved-Holds = record {
  before = 0 ∷ 0 ∷ 0 ∷ 0 ∷ 0 ∷ 0 ∷ 0 ∷ 0 ∷ 9 ∷ 9 ∷ [];
  after = [];
  layout = refl;
  reader_at = refl;
  writer_at = refl;
  reserved = omega arith;
  limit = omega arith;
}

append-Holds_example :
    Ensures
      (λ b'. Holds b' (three ++ 4 ∷ 5 ∷ []) × KeepsReader (buffer_of three 1) b')
      (append debug (buffer_of three 1) (4 ∷ 5 ∷ []))
unfolding writable_bytes
append-Holds_example =
    append-Holds debug (buffer_of three 1) three (4 ∷ 5 ∷ [])
      (buffer_of-Holds three 1 (omega arith)) (inr (inl (omega arith))) (omega arith)
