-- ===== src/Pool.antt =====
-- http_multi_download/src/ThreadPool.cpp: the threads that take the tasks of a download from a
-- queue. A thread's turn is one locked region of `ThreadFunc`, of `Stop`, of the queue's methods or
-- of `write_data`, so that the turns of the threads interleave as the regions do. A thread
-- that Start has yet to create is one that has had no turn.
pub mod Accounts
pub mod Parts
pub mod Started
pub mod Whole
pub mod Ending
pub mod Stopping
use small_program.Base.{
  ℕ, zero, suc, ◌+◌, List, [], ◌∷◌, Option, none, some, Bool, true, false, ltb, ◌==◌, ◌||◌, length,
  replicate, if◌then◌else◌,
}
use small_program.Deque.{
  KDeque, negsuc, pop_front, push_back, size, empty, set_stop, set_start, create as create_deque,
}
use small_program.Download.{CurlHttpTask, Stream, write_data, Written, Job}
use mathlib.Core.Option

pub record ThreadPool : Type 0 where
  pub running : Bool
  pub deque : KDeque Job
  pub thread_num : ℕ

unfoldable pub create : ℕ → ThreadPool
unfolding small_program.Deque.create
create default_num = record {
  running = false;
  deque = create_deque (negsuc 0) true;
  thread_num = default_num;
}

-- `none` waits for room in the queue.
unfoldable pub add_task : ThreadPool → Job → Option ThreadPool
unfolding push_back
add_task pool task = Option.map (λ d. record pool { deque = d }) (push_back pool.deque task)

-- Where a thread stands: at the test of m_bRunning and the Take of `checks` and `takes`; in the
-- transfer of a task, with the task as it was queued, the task as it is and the pieces to come;
-- behind it, with its code; in Stop, at the lock, at the test of the loop, at the pop and at
-- set_stop; and at its end.
pub data Phase : Type 0 where
  checks takes stops drains pops halts ended : Phase
  runs : Job → CurlHttpTask → List (List ℕ) → Phase
  finishes : Job → ℕ → Phase

-- MAX_THREAD_NUM
abbrev pub max_thread_num : ℕ
max_thread_num = 1000

abbrev pub at_most : ℕ → ℕ → ℕ
at_most bound n = if ltb bound n then bound else n

-- Start: the pool, and its new threads. That Start locks m_mutex, and AddTask wakes m_con, before they
-- are initialized is `touch` in Factory.
unfoldable pub start : ThreadPool → ThreadPool × List Phase
unfolding size set_start
start pool =
    let thread_num = at_most max_thread_num (at_most (size pool.deque) pool.thread_num) in
    if pool.running then (pool, []) else (
      record { running = true; deque = set_start pool.deque; thread_num = thread_num },
      replicate thread_num checks,
    )

-- What the threads share: the pool, the file, and the tasks that were deleted.
pub record Shared : Type 0 where
  pub pool : ThreadPool
  pub file : Stream
  pub deleted : List Job

-- After a Take: a task to run, or NULL.
abbrev pub begins : Option Job → Phase
begins none = ended
begins (some j) = runs j j.task j.pieces

-- `delete` of a task or of NULL.
abbrev pub delete_task : List Job → Option Job → List Job
delete_task deleted none = deleted
delete_task deleted (some j) = j ∷ deleted

abbrev pub with_deque : Shared → KDeque Job → Shared
with_deque s d = record s { pool = record s.pool { deque = d } }

-- After a call of write_data with a piece of so many bytes; another count than that ends the
-- transfer with code 23.
abbrev pub wrote : Shared → Job → Written → ℕ → List (List ℕ) → Shared × Phase
wrote s j w n cs =
    (record s { file = w.stream }, if w.written == n then runs j w.task cs else finishes j 23)

-- One turn of a thread.
unfoldable pub turn : Shared → Phase → Shared × Phase
unfolding pop_front empty set_stop write_data
turn s checks = (s, if s.pool.running then takes else ended)
turn s takes = (with_deque s (pop_front s.pool.deque).1, begins (pop_front s.pool.deque).0)
turn s (runs j t []) = (s, finishes j j.code)
turn s (runs j t (c ∷ cs)) = wrote s j (write_data t s.file c) (length c) cs
turn s (finishes j code) = (
  record s { deleted = delete_task s.deleted (some j) },
  if code == 0 || code == 23 then checks else stops,
)
turn s stops = (
  record s { pool = record s.pool { running = false } },
  if s.pool.running then drains else checks,
)
turn s drains = (s, if empty s.pool.deque then halts else pops)
turn s pops = (
  record s {
    pool = record s.pool { deque = (pop_front s.pool.deque).1 };
    deleted = delete_task s.deleted (pop_front s.pool.deque).0;
  },
  drains,
)
turn s halts = (with_deque s (set_stop s.pool.deque), checks)
turn s ended = (s, ended)

-- A turn of the thread with that number.
unfoldable pub step : Shared → List Phase → ℕ → Shared × List Phase
unfolding turn
step s [] i = (s, [])
step s (p ∷ ps) zero = ((turn s p).0, (turn s p).1 ∷ ps)
step s (p ∷ ps) (suc i) = let rest = step s ps i in (rest.0, p ∷ rest.1)

-- The turns of a schedule.
unfoldable pub run : Shared → List Phase → List ℕ → Shared × List Phase
unfolding step
run s ps [] = (s, ps)
run s ps (i ∷ is) = let r = step s ps i in run r.0 r.1 is
