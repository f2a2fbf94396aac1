-- ===== src/Tests/OnPaste.antt =====
-- The clipboard's paste: runs of a stream and of an image handler.
use small_program.Base.{
  ◌^◌, ◌≡◌, ◌<◌, refl, List, [], ◌∷◌, ◌++◌, none, some, true, false, arith, ok, err, undefined,
  Ensures, ℕ, ◌-◌, take, length, replicate, length-replicate,
}
use small_program.Paste.Transfer.{Action, writes, turns, accepted}
use small_program.Paste.Stream.{
  MsStream, create, cancel, delivered, aborted, spins, eof, read, write_file, run,
}
use small_program.Paste.Stream.Received.{Received}
use small_program.Paste.Stream.Reading.{received_bytes}
use small_program.Paste.Stream.Delivery.{run-Received}
use small_program.Paste.Stream.Races.{interleave, enters}
use small_program.Paste.Stream.Races.Interrupted.{two_writes, Skips, interleave-Skips}
use small_program.Paste.Stream.Faults.{write_file-Wraps, read_overflow, read-cancel}
use small_program.Paste.Image.{ImageHeader, get_img, create as create_image}
use small_program.Paste.Image.Filled.{IsFilled, get_img-IsFilled}
use small_program.Memory

abbrev transfer : List (Action ℕ)
transfer =
    turns 8
    ∷ writes (some (1 ∷ 2 ∷ []))
    ∷ turns 8
    ∷ writes none
    ∷ writes (some (3 ∷ []))
    ∷ writes (some (4 ∷ 5 ∷ 6 ∷ 7 ∷ []))
    ∷ turns 8
    ∷ turns 8
    ∷ []

run-Received_example :
    Ensures
      (λ r.
        Received r.1 (accepted 3 0 transfer)
        × (received_bytes r.0 ≡ take r.1.position (accepted 3 0 transfer)))
      (run (create true 0 3) transfer)
run-Received_example = run-Received 0 3 transfer (omega arith) (
  omega arith,
  (omega arith, (omega arith, (omega arith, (omega arith, (omega arith, (omega arith, tt)))))),
)

run-transfer :
    (s : MsStream) × (run (create true 0 3) transfer
      ≡ ok (spins ∷ delivered (1 ∷ 2 ∷ []) ∷ delivered (3 ∷ []) ∷ eof ∷ [], s))
unfolding run create small_program.Memory.mem_write small_program.Memory.mem_read
run-transfer = (_, refl)

-- Two bytes of three, of which the reader has one.
abbrev behind : MsStream
behind = record {
  buffer = some (1 ∷ 2 ∷ 0 ∷ []);
  file_size = 3;
  progress_size = 2;
  position = 1;
  wait_data_flag = true;
  cancelled = false;
}

behind-Received : Received behind (1 ∷ 2 ∷ [])
behind-Received = record {
  after = 0 ∷ [];
  view = refl;
  progress = refl;
  behind = omega arith;
  fits = omega arith;
  room = omega arith;
  small = omega arith;
  woken = λ alive more. refl;
}

read_overflow_example : read 0 behind ≡ err undefined
read_overflow_example =
    read_overflow behind (1 ∷ 2 ∷ 0 ∷ []) 0 refl (omega arith) refl refl (omega arith) (omega arith)
      (omega arith)

read-cancel_example :
    (s : MsStream) × (read 8 (cancel behind) ≡ ok (aborted, s)) × (read 8 s ≡ ok (spins, s))
read-cancel_example = read-cancel behind 8 8 (omega arith)

zeros_length : (n : ℕ) → n < 2 ^ 32 → length {A = ℕ} (replicate n 0) < 2 ^ 32
zeros_length n h = omega (arith, h, length-replicate {A = ℕ} n 0)

-- A file of which the last byte is missing, in a mapping of the whole file.
abbrev nearly_whole : MsStream
nearly_whole = record {
  buffer = some (replicate (2 ^ 32 - 1) 0);
  file_size = 2 ^ 32 - 1;
  progress_size = 2 ^ 32 - 2;
  position = 0;
  wait_data_flag = true;
  cancelled = false;
}

write_file-Wraps_example : write_file nearly_whole (some (1 ∷ 2 ∷ [])) ≡ err undefined
write_file-Wraps_example =
    write_file-Wraps nearly_whole (replicate (2 ^ 32 - 1) 0) 1 (2 ∷ []) refl
      (zeros_length (2 ^ 32 - 1) (omega arith)) (omega arith, omega arith)

abbrev two_pixels : ImageHeader
two_pixels = record { width = 2; height = 1; planes = 1; bit_count = 24; compression = 0 }

abbrev image_writes : List (Action (Unit {0}))
image_writes =
    writes none ∷ turns tt ∷ writes (some (1 ∷ 2 ∷ 3 ∷ [])) ∷ writes (some (4 ∷ 5 ∷ 6 ∷ [])) ∷ []

get_img-IsFilled_example :
    Ensures
      (IsFilled two_pixels (accepted 6 0 image_writes))
      (get_img (create_image 6 two_pixels) (image_writes ++ turns tt ∷ turns tt ∷ []))
get_img-IsFilled_example =
    get_img-IsFilled 6 two_pixels image_writes (omega arith) (omega arith, (omega arith, tt)) refl

-- Two bytes of six, of which the reader has one.
abbrev of_six : MsStream
of_six = record behind { buffer = some (1 ∷ 2 ∷ 0 ∷ 0 ∷ 0 ∷ 0 ∷ []); file_size = 6 }

of_six-Received : Received of_six (1 ∷ 2 ∷ [])
of_six-Received = record {
  after = 0 ∷ 0 ∷ 0 ∷ 0 ∷ [];
  view = refl;
  progress = refl;
  behind = omega arith;
  fits = omega arith;
  room = omega arith;
  small = omega arith;
  woken = λ c b. refl;
}

-- The last byte of six, and a Read.
abbrev behind_five : List (Action ℕ)
behind_five = writes (some (6 ∷ [])) ∷ turns 8 ∷ []

interleave-Skips_example :
    Ensures
      (Skips of_six (1 ∷ 2 ∷ []) (3 ∷ []) (4 ∷ 5 ∷ []) 8 behind_five)
      (interleave of_six (enters 8) (two_writes (3 ∷ []) (4 ∷ 5 ∷ [])))
interleave-Skips_example =
    interleave-Skips of_six (1 ∷ 2 ∷ []) (3 ∷ []) (4 ∷ 5 ∷ []) 8 behind_five of_six-Received refl
      (omega arith) (omega arith) (omega arith) (omega arith) (omega arith, (omega arith, tt))
