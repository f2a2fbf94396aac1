-- ===== src/Factory.antt =====
-- http_multi_download/main.cpp and src/DownLoadFactory.cpp: a download from its arguments to its
-- exit. libcurl's part is an argument: the length of the file, and what arrives for each task. So
-- are whether the target can be opened, and the number of processors.
pub mod Tasks
pub mod Downloads
pub mod Faults
use small_program.Base.{
  replicate, guard, ◌>>◌, ℕ, ◌+◌, ◌<◌, List, [], ◌∷◌, Option, none, some, Bool, true, false, ltb,
  ◌&&◌, length, if◌then◌else◌, Result, ok, err, undefined, uncaught, ◌>>=◌,
}
use small_program.Deque.{ℤ, pos, negsuc}
use small_program.Download.{CurlHttpTask, Stream, make_task, Job}
use small_program.Pool.{
  ThreadPool, Phase, checks, takes, stops, drains, pops, halts, ended, runs, finishes,
  create as create_pool, add_task, Shared, run,
}
use small_program.Pool.Started.{started}

-- What arrives for a task: the pieces, and the code that the transfer ends with.
abbrev pub Arrivals : Type 0
Arrivals = CurlHttpTask → List (List ℕ) × ℕ

-- `file` is m_fp, `none` for NULL.
pub record DownLoadFactory : Type 0 where
  pub pool : ThreadPool
  pub file : Option Stream

-- DEFAUL_THREAD_NUM
abbrev pub default_thread_num : ℕ
default_thread_num = 4

unfoldable pub create : DownLoadFactory
unfolding create_pool
create = record { pool = create_pool default_thread_num; file = none }

-- fopen with "wb": an empty file.
abbrev pub empty_file : Stream
empty_file = record { content = λ i. 0; position = 0 }

abbrev pub fopen : Bool → Option Stream
fopen opened = if opened then some empty_file else none

-- A lock of m_mutex or a broadcast on m_con before Start has called pthread_mutex_init and
-- pthread_cond_init: undefined, unless their memory happens to be (`raw`) that of a free mutex and
-- of a condition that nothing waits for.
unfoldable pub touch : Bool → Result (Unit {0})
touch raw = guard raw undefined

-- PushData of the tasks, with the broadcast of AddTask; `none` waits for room in the queue.
unfoldable pub push_tasks :
    Bool → Arrivals → ThreadPool → List CurlHttpTask → Result (Option ThreadPool)
unfolding add_task touch
push_tasks raw arrive pool [] = ok (some pool)
push_tasks raw arrive pool (t ∷ ts) =
    elim (add_task pool (record { task = t; pieces = (arrive t).0; code = (arrive t).1 })) [
      | none ↦ ok none
      | some pool' ↦ touch raw >> push_tasks raw arrive pool' ts
    ]

-- How main ends, or where it waits: the text on the arguments, exit(1), a wait, or a return that
-- leaves the file.
pub data Outcome : Type 0 where
  usage exits waits : Outcome
  returns : Stream → Outcome

-- Whether every thread has ended, which pthread_join waits for.
abbrev pub has_ended : Phase → Bool
has_ended ended = true
has_ended checks = false
has_ended takes = false
has_ended stops = false
has_ended drains = false
has_ended pops = false
has_ended halts = false
has_ended (runs j t cs) = false
has_ended (finishes j code) = false

abbrev pub all_ended : List Phase → Bool
all_ended [] = true
all_ended (p ∷ ps) = has_ended p && all_ended ps

-- The destructor: fclose, which NULL is no argument for.
unfoldable pub close : Option Stream → Stream → Result Outcome
close none f = err undefined
close (some opened) f = ok (returns f)

-- pthread_join of each thread; `true` is a thread that was joined, which is none to join again.
unfoldable pub join_all : List Bool → Result (List Bool)
join_all [] = ok []
join_all (true ∷ hs) = err undefined
join_all (false ∷ hs) = do rest ← join_all hs; ok (true ∷ rest)

-- The joins in the loop of Start.
abbrev pub start_joins : ℕ → List Bool → Result (List Bool)
unfolding join_all
start_joins cpu_num hs = if ltb (length hs) cpu_num then join_all hs else ok hs

-- The joins of Start and then those of Join, of so many threads.
unfoldable pub joins : ℕ → ℕ → Result (List Bool)
unfolding start_joins join_all
joins cpu_num n = do hs ← start_joins cpu_num (replicate n false); join_all hs

-- What main waits for, and the destructor.
unfoldable pub join_and_close : ℕ → Option Stream → Shared × List Phase → Result Outcome
unfolding close joins
join_and_close cpu_num file r =
    if all_ended r.1 then (do _ ← joins cpu_num (length r.1); close file r.0.file) else ok waits

-- init: SetThreadNum and Start, which locks m_mutex first. A negative number of threads is no length
-- of an array.
unfoldable pub init : Bool → ThreadPool → ℤ → Stream → Result (Shared × List Phase)
unfolding touch
init raw pool (negsuc n) f = touch raw >> err uncaught
init raw pool (pos n) f = touch raw >> ok (started (record pool { thread_num = n }) f)

-- From the tasks on, with the turns that the threads take.
unfoldable pub download : Bool → ℕ → ℤ → Bool → Option ThreadPool → List ℕ → Result Outcome
unfolding init join_and_close
download raw cpu_num num opened none schedule = ok waits
download raw cpu_num num opened (some pool) schedule = do
  r ← init raw pool num empty_file
  join_and_close cpu_num (fopen opened) (run r.0 r.1 schedule)

abbrev pub from_tasks :
    Bool → ℕ → ℤ → Bool → Arrivals → Option (List CurlHttpTask) → List ℕ → Result Outcome
unfolding download push_tasks
from_tasks raw cpu_num num opened arrive none schedule = ok exits
from_tasks raw cpu_num num opened arrive (some tasks) schedule = do
  pool ← push_tasks raw arrive create.pool tasks
  download raw cpu_num num opened pool schedule

-- The arguments of main: another number than two or three, two, or three with what atoi makes of
-- the last.
pub data Args : Type 0 where
  wrong_number url_and_file : Args
  with_thread_num : ℤ → Args

abbrev pub thread_num_of : Args → ℤ
thread_num_of wrong_number = pos 0
thread_num_of url_and_file = pos default_thread_num
thread_num_of (with_thread_num n) = n

unfoldable pub main : Bool → ℕ → Args → ℕ → Bool → Arrivals → List ℕ → Result Outcome
unfolding from_tasks make_task
main raw cpu_num wrong_number len opened arrive schedule = ok usage
main raw cpu_num url_and_file len opened arrive schedule = do
  made ← make_task len opened
  from_tasks raw cpu_num (thread_num_of url_and_file) opened arrive made schedule
main raw cpu_num (with_thread_num n) len opened arrive schedule = do
  made ← make_task len opened
  from_tasks raw cpu_num n opened arrive made schedule
