-- ===== src/Download.antt =====
-- http_multi_download: the ranges that `DownLoadFactory::MakeTask` cuts a file into, and what
-- `CurlHttpTask::Run` and `write_data` do with the bytes that arrive. libcurl's part is an
-- argument: the bytes that it hands to `write_data`, in pieces, and the code that it ends with.
pub mod Ranges
pub mod Writes
pub mod Whole
use small_program.Base.{
  ℕ, zero, suc, ◌+◌, ◌-◌, ◌*◌, ◌/◌, ◌%◌, ◌^◌, List, [], ◌∷◌, ◌++◌, Option, none, some, Bool, true,
  false, ltb, leb, ◌==◌, ◌&&◌, ◌||◌, if◌then◌else◌, length, take, Result, ok, err, undefined, ◌>>=◌,
  ◌>>◌,
}

-- RANGE_SIZE
abbrev pub range_size : ℕ
range_size = 1024 * 1024 * 10

pub record CurlHttpTask : Type 0 where
  pub start_pos : ℕ
  pub stop_pos : ℕ
  pub ranged : Bool

-- A product of two numbers that are not negative, as int.
unfoldable pub int_mul : ℕ → ℕ → Result ℕ
int_mul a b = if ltb (a * b) (2 ^ 31) then ok (a * b) else err undefined

-- The loop over the segments: `left` whole ones are to come, and then the rest of the file.
unfoldable pub segments : ℕ → ℕ → ℕ → Result (List CurlHttpTask)
unfolding int_mul
segments len zero i = if len % range_size == 0 then ok [] else (do
  start ← int_mul i range_size
  ok (record { start_pos = start; stop_pos = len - 1; ranged = true } ∷ []))
segments len (suc left) i = do
  start ← int_mul i range_size
  next ← int_mul (i + 1) range_size
  rest ← segments len left (i + 1)
  ok (record { start_pos = start; stop_pos = next - 1; ranged = true } ∷ rest)

-- MakeTask with the length of the file, 0 for one that is not positive, and whether the target
-- could be opened. `none` is exit(1).
unfoldable pub make_task : ℕ → Bool → Result (Option (List CurlHttpTask))
unfolding segments
make_task zero opened = ok none
make_task (suc n) false = ok (some [])
make_task (suc n) true =
    if leb (suc n) range_size
    then ok (some (record { start_pos = 0; stop_pos = n; ranged = false } ∷ []))
    else (do tasks ← segments (suc n) (suc n / range_size) 0; ok (some tasks))

-- A FILE: the byte at each offset, and the position.
pub record Stream : Type 0 where
  pub content : ℕ → ℕ
  pub position : ℕ

-- The byte at an index.
unfoldable pub byte_at : List ℕ → ℕ → ℕ
byte_at [] i = 0
byte_at (x ∷ xs) zero = x
byte_at (x ∷ xs) (suc i) = byte_at xs i

unfoldable pub fseek : Stream → ℕ → Stream
fseek f pos = record f { position = pos }

-- The content with some bytes written at a position.
abbrev pub overwrite : (ℕ → ℕ) → ℕ → List ℕ → ℕ → ℕ
overwrite content pos bytes i =
    if leb pos i && ltb i (pos + length bytes) then byte_at bytes (i - pos) else content i

-- fwrite of all the bytes.
unfoldable pub fwrite : Stream → List ℕ → Stream
fwrite f bytes = record {
  content = overwrite f.content f.position bytes;
  position = f.position + length bytes;
}

-- What a call of `write_data` returns, and the task and the stream as it leaves them.
pub record Written : Type 0 where
  pub written : ℕ
  pub task : CurlHttpTask
  pub stream : Stream

unfoldable pub write_data : CurlHttpTask → Stream → List ℕ → Written
unfolding fseek fwrite
write_data t f bytes =
    if t.ranged
    then (if leb (t.start_pos + length bytes) t.stop_pos
        then record {
          written = length bytes;
          task = record t { start_pos = t.start_pos + length bytes };
          stream = fwrite (fseek f t.start_pos) bytes;
        }
        else record {
          written = t.stop_pos - t.start_pos + 1;
          task = record t { start_pos = t.stop_pos };
          stream = fwrite (fseek f t.start_pos) (take (t.stop_pos - t.start_pos + 1) bytes);
        })
    else record { written = length bytes; task = t; stream = fwrite f bytes }

-- curl_easy_perform with the pieces that arrive and the code it ends with: a call that returns
-- another number than it was given ends the transfer with code 23.
unfoldable pub perform : CurlHttpTask → Stream → List (List ℕ) → ℕ → ℕ × Stream
unfolding write_data
perform t f [] code = (code, f)
perform t f (c ∷ cs) code =
    let w = write_data t f c in
    let rest = perform w.task w.stream cs code in
    if w.written == length c then rest else (23, w.stream)

-- Run: whether it succeeds, and the stream. Code 0 is success, and code 23 is taken for it.
unfoldable pub run : CurlHttpTask → Stream → List (List ℕ) → ℕ → Bool × Stream
unfolding perform
run t f pieces code = let end = perform t f pieces code in (end.0 == 0 || end.0 == 23, end.1)

-- A task in the queue, with what arrives for it.
pub record Job : Type 0 where
  pub task : CurlHttpTask
  pub pieces : List (List ℕ)
  pub code : ℕ

-- ThreadPool::ThreadFunc with the queue and the file, where one thread takes all the tasks: a task
-- that fails empties the queue and ends the thread.
unfoldable pub thread_func : Stream → List Job → Stream
unfolding run
thread_func f [] = f
thread_func f (j ∷ js) =
    let done = run j.task f j.pieces j.code in
    let rest = thread_func done.1 js in if done.0 then rest else done.1
