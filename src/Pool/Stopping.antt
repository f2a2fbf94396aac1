-- ===== src/Pool/Stopping.antt =====
-- The threads of a pool, whatever their tasks do: who empties the queue after a failure.
pub mod Deleted
pub mod Turns
pub mod Ending
pub mod Rounds
use small_program.Base.{
  ℕ, zero, suc, ◌+◌, ◌<◌, ◌≤◌, ◌≡◌, refl, sym, ap, ◌∙◌, ◌⊎◌, inl, inr, subst, List, [], ◌∷◌, Option,
  none, some, Bool, true, false, Bool-cases, length, if◌then◌else◌, arith, ◌==◌, ◌||◌,
}
use small_program.Deque.{KDeque, take_front, pop_front, empty, is_nil, set_stop}
use small_program.Download.{Job, write_data}
use small_program.Pool.{
  ThreadPool, Phase, checks, takes, stops, drains, pops, halts, ended, runs, finishes, begins,
  Shared, turn, step, run,
}

-- Whether a thread is in the loop of Stop or behind it, and behind it.
abbrev pub draining : Phase → ℕ
draining drains = 1
draining pops = 1
draining halts = 1
draining checks = 0
draining takes = 0
draining stops = 0
draining ended = 0
draining (runs j t cs) = 0
draining (finishes j code) = 0

abbrev pub halting : Phase → ℕ
halting halts = 1
halting checks = 0
halting takes = 0
halting stops = 0
halting drains = 0
halting pops = 0
halting ended = 0
halting (runs j t cs) = 0
halting (finishes j code) = 0

-- With `d` threads in the loop of Stop or behind it, `h` of them behind it, and `e` at their end: a
-- queue that was stopped is empty, and so is the one that a thread has found empty; and where the
-- pool has stopped or a thread has ended, the queue is empty or a thread empties it.
pub record Orderly (pool : ThreadPool) (d h e : ℕ) : Type 0 where
  pub queue_stopped : (pool.deque.running ≡ true) ⊎ (length pool.deque.items ≡ 0)
  pub found_empty : (h ≡ 0) ⊎ (length pool.deque.items ≡ 0)
  pub pool_stopped : (pool.running ≡ true) ⊎ ((length pool.deque.items ≡ 0) ⊎ (0 < d))
  pub over : (e ≡ 0) ⊎ ((length pool.deque.items ≡ 0) ⊎ (0 < d))

-- A pop leaves the queue's flag, and less or nothing of a queue that runs.
pub record Popped (d : KDeque Job) (o : Option Job) (d' : KDeque Job) : Type 0 where
  pub same : d'.running ≡ d.running
  pub fewer : length d'.items ≤ length d.items
  pub nothing : (o ≡ none) → (d.running ≡ true) → length d.items ≡ 0

taken-Popped :
    (d : KDeque Job) (running : Bool) (items : List Job)
    → d.running ≡ running
    → d.items ≡ items
    → Popped d (take_front d running items).0 (take_front d running items).1
unfolding take_front
taken-Popped d false items off e = record {
  same = refl;
  fewer = omega arith;
  nothing = λ n on. absurd (cc (off, on));
}
taken-Popped d true [] on e = record {
  same = refl;
  fewer = omega arith;
  nothing = λ n on'. ap length e;
}
taken-Popped d true (x ∷ xs) on e = record {
  same = refl;
  fewer = omega (arith, ap length e);
  nothing = λ n on'. absurd (cc n);
}

pub pop_front-Popped : (d : KDeque Job) → Popped d (pop_front d).0 (pop_front d).1
unfolding pop_front
pop_front-Popped d = taken-Popped d d.running d.items refl refl
