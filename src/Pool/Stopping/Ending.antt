-- ===== src/Pool/Stopping/Ending.antt =====
-- The turns that the threads of a pool take before they end, whatever their tasks do.
use small_program.Base.{
  ℕ, zero, suc, ◌+◌, ◌*◌, ◌≤◌, ◌≡◌, refl, ap, ◌⊎◌, List, [], ◌∷◌, Bool, true, false, ltb, length,
  replicate, if◌then◌else◌, arith, ◌==◌, ◌||◌,
}
use small_program.Deque.{KDeque, take_front, pop_front, empty, is_nil, set_stop}
use small_program.Download.{Stream, Job, write_data}
use small_program.Pool.{
  ThreadPool, Phase, checks, takes, stops, drains, pops, halts, ended, runs, finishes, begins,
  Shared, turn, step, start,
}
use small_program.Pool.Started.{started, threads_of, start-eq}
use small_program.Pool.Ending.{spare, spare-le, busy_turns}
use small_program.Pool.Parts.{ends}
use small_program.Pool.Stopping.{Orderly, pop_front-Popped}
use small_program.Pool.Stopping.Turns.{InOrder, step-InOrder}
use small_program.Pool.Stopping.Deleted.{started-InOrder}

-- The turns that are left to a thread, while the queue has `n` tasks.
abbrev pub moves : ℕ → Phase → ℕ
moves n checks = 2
moves n takes = 1
moves n (runs j t cs) = length cs + 9
moves n (finishes j code) = 8
moves n stops = 7
moves n drains = if ltb 0 n then 6 else 4
moves n pops = 5
moves n halts = 3
moves n ended = 0

abbrev pub task_moves : List Job → ℕ
task_moves [] = 0
task_moves (j ∷ js) = length j.pieces + 9 + task_moves js

abbrev pub all_moves : ℕ → List Phase → ℕ
all_moves n [] = 0
all_moves n (p ∷ ps) = moves n p + all_moves n ps

moves-le : (n n' : ℕ) (p : Phase) → n' ≤ n → moves n' p ≤ moves n p
moves-le n n' checks h = omega arith
moves-le n n' takes h = omega arith
moves-le n n' (runs j t cs) h = omega arith
moves-le n n' (finishes j code) h = omega arith
moves-le n n' stops h = omega arith
moves-le n n' drains h = ground (arith, h)
moves-le n n' pops h = omega arith
moves-le n n' halts h = omega arith
moves-le n n' ended h = omega arith

all_moves-le : (n n' : ℕ) (ps : List Phase) → n' ≤ n → all_moves n' ps ≤ all_moves n ps
all_moves-le n n' [] h = omega arith
all_moves-le n n' (p ∷ ps) h = omega (arith, moves-le n n' p h, all_moves-le n n' ps h)

moves-if :
    (n m : ℕ) (b : Bool) (p q : Phase)
    → moves n p ≤ m
    → moves n q ≤ m
    → moves n (if b then p else q) ≤ m
moves-if n m true p q h h' = h
moves-if n m false p q h h' = h'

-- A Take, and a pop in the loop of Stop.
taken_moves :
    (d : KDeque Job) (running : Bool) (items : List Job)
    → d.items ≡ items
    → moves (length (take_front d running items).1.items) (begins (take_front d running items).0)
        + task_moves (take_front d running items).1.items
      ≤ task_moves d.items
unfolding take_front
taken_moves d false items e = omega arith
taken_moves d true [] e = omega arith
taken_moves d true (x ∷ xs) e = omega (arith, ap task_moves e)

drained_moves :
    (d : KDeque Job) (running : Bool) (items : List Job)
    → d.items ≡ items
    → (running ≡ true) ⊎ (length items ≡ 0)
    → moves (length (take_front d running items).1.items) drains
        + task_moves (take_front d running items).1.items
      ≤ 4 + task_moves d.items
unfolding take_front
drained_moves d false items e h = ground (arith, h, ap length e)
drained_moves d true [] e h = ground (arith, ap length e)
drained_moves d true (x ∷ xs) e h = ground (arith, ap task_moves e)

-- The test of that loop.
found_moves :
    (items : List Job)
    → moves (length items) (if is_nil items then halts else pops) + 1 ≤ moves (length items) drains
found_moves [] = omega arith
found_moves (j ∷ js) = ground arith

moves-turn :
    (s : Shared) (p : Phase) (d h e : ℕ)
    → Orderly s.pool d h e
    → moves (length (turn s p).0.pool.deque.items) (turn s p).1
        + task_moves (turn s p).0.pool.deque.items
        + 1
      ≤ moves (length s.pool.deque.items) p + task_moves s.pool.deque.items + ends p
unfolding turn pop_front set_stop empty
moves-turn s checks d h e v = omega (
  arith,
  moves-if (length s.pool.deque.items) 1 s.pool.running takes ended (omega arith) (omega arith),
)
moves-turn s takes d h e v =
    omega (arith, taken_moves s.pool.deque s.pool.deque.running s.pool.deque.items refl)
moves-turn s (runs j t []) d h e v = omega arith
moves-turn s (runs j t (c ∷ cs)) d h e v = omega (
  arith,
  moves-if (length s.pool.deque.items) (length cs + 9) ((write_data t s.file c).written == length c)
      (runs j (write_data t s.file c).task cs) (finishes j 23) (omega arith) (omega arith),
)
moves-turn s (finishes j code) d h e v = omega (
  arith,
  moves-if (length s.pool.deque.items) 7 (code == 0 || code == 23) checks stops (omega arith)
      (omega arith),
)
moves-turn s stops d h e v = omega (
  arith,
  moves-if (length s.pool.deque.items) 6 s.pool.running drains checks (ground arith) (omega arith),
)
moves-turn s drains d h e v = omega (arith, found_moves s.pool.deque.items)
moves-turn s pops d h e v =
    omega (
      arith,
      drained_moves s.pool.deque s.pool.deque.running s.pool.deque.items refl v.queue_stopped,
    )
moves-turn s halts d h e v = omega arith
moves-turn s ended d h e v = omega arith

-- The queue does not grow.
turn_shrinks :
    (s : Shared) (p : Phase) → length (turn s p).0.pool.deque.items ≤ length s.pool.deque.items
unfolding turn set_stop
turn_shrinks s checks = omega arith
turn_shrinks s takes = (pop_front-Popped s.pool.deque).fewer
turn_shrinks s (runs j t []) = omega arith
turn_shrinks s (runs j t (c ∷ cs)) = omega arith
turn_shrinks s (finishes j code) = omega arith
turn_shrinks s stops = omega arith
turn_shrinks s drains = omega arith
turn_shrinks s pops = (pop_front-Popped s.pool.deque).fewer
turn_shrinks s halts = omega arith
turn_shrinks s ended = omega arith

step_shrinks :
    (s : Shared) (ps : List Phase) (k : ℕ)
    → length (step s ps k).0.pool.deque.items ≤ length s.pool.deque.items
unfolding step
step_shrinks s [] k = omega arith
step_shrinks s (p ∷ ps) zero = turn_shrinks s p
step_shrinks s (p ∷ ps) (suc k) = step_shrinks s ps k

step_moves :
    (s : Shared) (ps : List Phase) (k d h e : ℕ)
    → Orderly s.pool d h e
    → all_moves (length (step s ps k).0.pool.deque.items) (step s ps k).1
        + task_moves (step s ps k).0.pool.deque.items
        + 1
      ≤ all_moves (length s.pool.deque.items) ps + task_moves s.pool.deque.items + spare ps k
unfolding step
step_moves s [] k d h e v = omega arith
step_moves s (p ∷ ps) zero d h e v = omega (
  arith,
  moves-turn s p d h e v,
  all_moves-le (length s.pool.deque.items) (length (turn s p).0.pool.deque.items) ps
      (turn_shrinks s p),
)
step_moves s (p ∷ ps) (suc k) d h e v = omega (
  arith,
  step_moves s ps k d h e v,
  moves-le (length s.pool.deque.items) (length (step s ps k).0.pool.deque.items) p
      (step_shrinks s ps k),
)

busy_turns_moves :
    (s : Shared) (ps : List Phase) (schedule : List ℕ)
    → InOrder 0 0 0 (s, ps)
    → busy_turns s ps schedule
      ≤ all_moves (length s.pool.deque.items) ps + task_moves s.pool.deque.items
busy_turns_moves s ps [] v = omega arith
busy_turns_moves s ps (k ∷ ks) v = omega (
  arith,
  busy_turns_moves (step s ps k).0 (step s ps k).1 ks (step-InOrder s ps k 0 0 0 v),
  step_moves s ps k _ _ _ v,
  spare-le ps k,
)

all_moves-replicate : (n m : ℕ) → all_moves m (replicate n checks) ≡ 2 * n
all_moves-replicate zero m = refl
all_moves-replicate (suc n) m = omega (arith, all_moves-replicate n m)

pub busy_turns-started :
    (pool : ThreadPool) (f : Stream) (schedule : List ℕ)
    → pool.running ≡ false
    → busy_turns (started pool f).0 (started pool f).1 schedule
      ≤ 2 * threads_of pool + task_moves pool.deque.items
unfolding start
busy_turns-started pool f schedule off = omega (
  arith,
  busy_turns_moves (started pool f).0 (started pool f).1 schedule (started-InOrder pool f off),
  ap (λ r. all_moves (length r.0.deque.items) r.1) (start-eq pool off),
  ap (λ r. task_moves r.0.deque.items) (start-eq pool off),
  all_moves-replicate (threads_of pool) (length pool.deque.items),
)
