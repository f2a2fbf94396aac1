-- ===== src/Tests/OnDownload.antt =====
-- The download: runs of the segmentation and of a task.
use small_program.Base.{
  zero, suc, ◌+◌, ◌<◌, ℕ, ◌≡◌, refl, List, [], ◌∷◌, some, true, arith, err, undefined, Ensures,
}
use small_program.Download.{CurlHttpTask, make_task, Stream, byte_at, Job}
use small_program.Download.Ranges.{IsChain, make_task-IsChain, make_task_overflow}
use small_program.Download.Whole.{Jobs, none_left, job}

make_task-IsChain_example :
    Ensures
      (λ r. (ts : List CurlHttpTask) × (r ≡ some ts) × IsChain 0 ts 25000000)
      (make_task 25000000 true)
make_task-IsChain_example = make_task-IsChain 25000000 (omega arith) (omega arith)

make_task_overflow_example : make_task 3000000000 true ≡ err undefined
make_task_overflow_example = make_task_overflow 3000000000 (omega arith)

abbrev small_task : CurlHttpTask
small_task = record { start_pos = 2; stop_pos = 5; ranged = true }

abbrev pub zeros : Stream
zeros = record { content = λ i. 0; position = 0 }

abbrev two_pieces : List (List ℕ)
two_pieces = (1 ∷ 2 ∷ 3 ∷ []) ∷ (4 ∷ []) ∷ []

abbrev pub counting : ℕ → ℕ
counting i = i + 1

abbrev pub first_job : Job
first_job = record {
  task = record { start_pos = 0; stop_pos = 2; ranged = true };
  pieces = (1 ∷ 2 ∷ []) ∷ (3 ∷ []) ∷ [];
  code = 0;
}

abbrev pub last_job : Job
last_job = record {
  task = record { start_pos = 3; stop_pos = 4; ranged = true };
  pieces = (4 ∷ 5 ∷ []) ∷ [];
  code = 0;
}

counting_first : (j : ℕ) → j < 3 → byte_at (1 ∷ 2 ∷ 3 ∷ []) j ≡ 0 + j + 1
unfolding byte_at
counting_first zero h = refl
counting_first (suc zero) h = refl
counting_first (suc (suc zero)) h = refl
counting_first (suc (suc (suc j))) h = absurd (omega (arith, h))

counting_last : (j : ℕ) → j < 2 → byte_at (4 ∷ 5 ∷ []) j ≡ 3 + j + 1
unfolding byte_at
counting_last zero h = refl
counting_last (suc zero) h = refl
counting_last (suc (suc j)) h = absurd (omega (arith, h))

pub sample-Jobs : Jobs counting 0 (first_job ∷ last_job ∷ []) 5
sample-Jobs =
    job refl (omega arith) (omega arith, (omega arith, tt)) (omega arith) counting_first
      (job refl (omega arith) (omega arith, tt) (omega arith) counting_last (none_left 5))
