-- ===== src/Pool/Started.antt =====
-- The threads that a pool starts with.
use small_program.Base.{
  ℕ, ◌<◌, ◌≡◌, refl, sym, subst, List, [], true, false, arith, length, replicate, length-replicate,
}
use small_program.Deque.{set_start}
use small_program.Download.{Stream}
use small_program.Pool.{ThreadPool, Phase, checks, at_most, max_thread_num, start, Shared}

-- A pool that starts, and its file.
abbrev pub started : ThreadPool → Stream → Shared × List Phase
started pool f = (record { pool = (start pool).0; file = f; deleted = [] }, (start pool).1)

abbrev pub threads_of : ThreadPool → ℕ
threads_of pool = at_most max_thread_num (at_most (length pool.deque.items) pool.thread_num)

pub start-eq :
    (pool : ThreadPool)
    → pool.running ≡ false
    → start pool ≡ (
      record { running = true; deque = set_start pool.deque; thread_num = threads_of pool },
      replicate (threads_of pool) checks,
    )
unfolding start
start-eq pool off = simp off refl

-- A pool with a task and a thread to take it has started one.
pub some_threads :
    (pool : ThreadPool)
    → pool.running ≡ false
    → 0 < pool.thread_num
    → 0 < length pool.deque.items
    → 0 < length (start pool).1
some_threads pool off h full =
    subst (λ r. 0 < length r.1) (sym (start-eq pool off))
      (ground (arith, h, full, length-replicate {A = Phase} (threads_of pool) checks))
