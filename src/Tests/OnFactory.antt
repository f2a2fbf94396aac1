-- ===== src/Tests/OnFactory.antt =====
-- A download of a file of a little more than 10 MB by two threads.
use small_program.Base.{
  ℕ, zero, suc, ◌+◌, ◌-◌, ◌<◌, ◌≤◌, ◌≡◌, refl, ap, ◌∙◌, List, [], ◌∷◌, ◌++◌, append-nil, some, true,
  ltb, if◌then◌else◌, length, arith, ok, err, undefined,
}
use small_program.Deque.{pos}
use small_program.Download.{CurlHttpTask, Stream, byte_at, make_task, segments, int_mul}
use small_program.Download.Writes.{joined}
use small_program.Pool.Stopping.Rounds.{rounds}
use small_program.Factory.{Arrivals, returns, main, with_thread_num}
use small_program.Factory.Tasks.{Serves}
use small_program.Factory.Downloads.{thread_count, main-whole}
use small_program.Factory.Faults.{main-joins_twice}
use small_program.Tests.OnDownload.{counting}

-- The bytes of the source from an offset on.
abbrev bytes_from : ℕ → ℕ → List ℕ
bytes_from start zero = []
bytes_from start (suc n) = counting start ∷ bytes_from (start + 1) n

length-bytes_from : (start n : ℕ) → length (bytes_from start n) ≡ n
length-bytes_from start zero = refl
length-bytes_from start (suc n) = ap suc (length-bytes_from (start + 1) n)

byte_at-bytes_from : (start n k : ℕ) → k < n → byte_at (bytes_from start n) k ≡ counting (start + k)
unfolding byte_at
byte_at-bytes_from start zero k h = absurd (omega (arith, h))
byte_at-bytes_from start (suc n) zero h = ap counting (omega arith)
byte_at-bytes_from start (suc n) (suc k) h =
    byte_at-bytes_from (start + 1) n k (omega (arith, h)) ∙ ap counting (omega arith)

-- All that a task asks for arrives in one piece.
abbrev in_one_piece : Arrivals
in_one_piece t = (bytes_from t.start_pos (t.stop_pos + 1 - t.start_pos) ∷ [], 0)

in_one_piece-Serves : (t : CurlHttpTask) → t.start_pos ≤ t.stop_pos → Serves counting in_one_piece t
in_one_piece-Serves t h = record {
  filled = (omega (arith, h, counted), tt);
  whole = omega (arith, h, counted, ap length all);
  same = λ k below.
      ap (λ bytes. byte_at bytes k) all
      ∙ byte_at-bytes_from t.start_pos (t.stop_pos + 1 - t.start_pos) k
          (omega (arith, below, counted, ap length all));
  no_error = refl;
}
  where
    counted :
        length (bytes_from t.start_pos (t.stop_pos + 1 - t.start_pos))
        ≡ t.stop_pos + 1 - t.start_pos
    counted = length-bytes_from t.start_pos (t.stop_pos + 1 - t.start_pos)

    all : joined (in_one_piece t).0 ≡ bytes_from t.start_pos (t.stop_pos + 1 - t.start_pos)
    all = append-nil (bytes_from t.start_pos (t.stop_pos + 1 - t.start_pos))

abbrev first_part : CurlHttpTask
first_part = record { start_pos = 0; stop_pos = 10485759; ranged = true }

abbrev last_part : CurlHttpTask
last_part = record { start_pos = 10485760; stop_pos = 10485764; ranged = true }

abbrev both_parts : List CurlHttpTask
both_parts = first_part ∷ last_part ∷ []

both_parts-made : make_task 10485765 true ≡ ok (some both_parts)
unfolding make_task segments int_mul
both_parts-made = refl

-- The second thread starts.
abbrev second_first : List ℕ
second_first = 1 ∷ 0 ∷ 1 ∷ []

main-whole_example :
    (f : Stream) × (main true 2
        (with_thread_num (pos 4))
        10485765
        true
        in_one_piece
        (second_first ++ rounds (thread_count both_parts 4) 30)
      ≡ ok (returns f))
    × ((i : ℕ) → f.content i ≡ (if ltb i 10485765 then counting i else 0))
main-whole_example =
    main-whole counting in_one_piece 2 4 10485765 both_parts second_first 30 (omega arith)
      (omega arith) both_parts-made in_one_piece-Serves (omega arith) (omega arith) (omega arith)

main-joins_twice_example :
    main true 8
      (with_thread_num (pos 4))
      10485765
      true
      in_one_piece
      (second_first ++ rounds (thread_count both_parts 4) 30)
    ≡ err undefined
main-joins_twice_example =
    main-joins_twice in_one_piece 8 4 10485765 true both_parts second_first 30 both_parts-made
      (omega arith) (omega arith) (omega arith)
