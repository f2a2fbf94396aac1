-- ===== src/Pool/Ending.antt =====
-- The turns that the threads of a pool take before they end.
use small_program.Base.{
  ℕ, zero, suc, ◌+◌, ◌-◌, ◌*◌, ◌≤◌, ◌≡◌, refl, ap, List, [], ◌∷◌, Bool, true, false, ◌==◌, ◌||◌,
  if◌then◌else◌, arith, length, replicate,
}
use small_program.Deque.{KDeque, take_front, pop_front}
use small_program.Download.{Stream, Job, write_data}
use small_program.Download.Whole.{Jobs}
use small_program.Pool.{
  ThreadPool, Phase, checks, takes, stops, drains, pops, halts, ended, runs, finishes, begins,
  Shared, turn, step, start,
}
use small_program.Pool.Parts.{Sound, ends}
use small_program.Pool.Parts.Schedules.{AllSound, AllGo, step-Goes}
use small_program.Pool.Started.{started, threads_of, start-eq}
use small_program.Pool.Whole.{started-AllGo, Jobs-AllSupplied}

-- The turns that are left to a thread, and to the tasks in the queue.
abbrev pub turns_left : Phase → ℕ
turns_left checks = 2
turns_left takes = 1
turns_left (runs j t cs) = length cs + 4
turns_left (finishes j code) = 3
turns_left stops = 0
turns_left drains = 0
turns_left pops = 0
turns_left halts = 0
turns_left ended = 0

abbrev pub task_turns : List Job → ℕ
task_turns [] = 0
task_turns (j ∷ js) = length j.pieces + 4 + task_turns js

abbrev pub all_left : List Phase → ℕ
all_left [] = 0
all_left (p ∷ ps) = turns_left p + all_left ps

-- 0 if the thread with that number has a turn to take, and 1 if it has ended or there is none.
abbrev pub spare : List Phase → ℕ → ℕ
spare [] k = 1
spare (p ∷ ps) zero = ends p
spare (p ∷ ps) (suc k) = spare ps k

-- The turns of a schedule in which a thread that has not ended moves.
abbrev pub busy_turns : Shared → List Phase → List ℕ → ℕ
busy_turns s ps [] = 0
busy_turns s ps (k ∷ ks) = 1 - spare ps k + busy_turns (step s ps k).0 (step s ps k).1 ks

left-begins :
    (d : KDeque Job) (running : Bool) (items : List Job)
    → d.items ≡ items
    → turns_left (begins (take_front d running items).0)
        + task_turns (take_front d running items).1.items
      ≤ task_turns d.items
unfolding take_front
left-begins d false items e = omega arith
left-begins d true [] e = omega arith
left-begins d true (x ∷ xs) e = omega (arith, ap task_turns e)

left-if :
    (b : Bool) (p q : Phase) (n : ℕ)
    → turns_left p ≤ n
    → turns_left q ≤ n
    → turns_left (if b then p else q) ≤ n
left-if true p q n h h' = h
left-if false p q n h h' = h'

turn_left :
    (source : ℕ → ℕ) (s : Shared) (p : Phase)
    → Sound source p
    → turns_left (turn s p).1 + task_turns (turn s p).0.pool.deque.items + 1
      ≤ turns_left p + task_turns s.pool.deque.items + ends p
unfolding turn pop_front
turn_left source s checks v =
    omega (arith, left-if s.pool.running takes ended 1 (omega arith) (omega arith))
turn_left source s takes v =
    omega (arith, left-begins s.pool.deque s.pool.deque.running s.pool.deque.items refl)
turn_left source s (runs j t []) v = omega arith
turn_left source s (runs j t (c ∷ cs)) v = omega (
  arith,
  left-if ((write_data t s.file c).written == length c) (runs j (write_data t s.file c).task cs)
      (finishes j 23) (length cs + 4) (omega arith) (omega arith),
)
turn_left source s (finishes j code) v =
    omega (arith, left-if (code == 0 || code == 23) checks stops 2 (omega arith) (omega arith))
turn_left source s stops v = elim v [ ]
turn_left source s drains v = elim v [ ]
turn_left source s pops v = elim v [ ]
turn_left source s halts v = elim v [ ]
turn_left source s ended v = omega arith

pub spare-le : (ps : List Phase) (k : ℕ) → spare ps k ≤ 1
spare-le [] k = omega arith
spare-le (p ∷ ps) zero = ends-le p
  where
    ends-le : (q : Phase) → ends q ≤ 1
    ends-le checks = omega arith
    ends-le takes = omega arith
    ends-le stops = omega arith
    ends-le drains = omega arith
    ends-le pops = omega arith
    ends-le halts = omega arith
    ends-le ended = omega arith
    ends-le (runs j t cs) = omega arith
    ends-le (finishes j code) = omega arith
spare-le (p ∷ ps) (suc k) = spare-le ps k

step_left :
    (source : ℕ → ℕ) (s : Shared) (ps : List Phase) (k : ℕ)
    → AllSound source ps
    → all_left (step s ps k).1 + task_turns (step s ps k).0.pool.deque.items + 1
      ≤ all_left ps + task_turns s.pool.deque.items + spare ps k
unfolding step
step_left source s [] k v = omega arith
step_left source s (p ∷ ps) zero v = omega (arith, turn_left source s p v.0)
step_left source s (p ∷ ps) (suc k) v = omega (arith, step_left source s ps k v.1)

busy_turns_left :
    (source old : ℕ → ℕ) (i : ℕ) (s : Shared) (ps : List Phase) (schedule : List ℕ)
    → AllGo source old i 0 0 (s, ps)
    → busy_turns s ps schedule ≤ all_left ps + task_turns s.pool.deque.items
busy_turns_left source old i s ps [] g = omega arith
busy_turns_left source old i s ps (k ∷ ks) g = omega (
  arith,
  busy_turns_left source old i (step s ps k).0 (step s ps k).1 ks
      (step-Goes source old i s ps k 0 0 g),
  step_left source s ps k g.0,
  spare-le ps k,
)

all_left-replicate : (n : ℕ) → all_left (replicate n checks) ≡ 2 * n
all_left-replicate zero = refl
all_left-replicate (suc n) = omega (arith, all_left-replicate n)

-- In the pool of such tasks, which was not running before, the threads that have not ended take,
-- in any schedule, at most two turns for each thread and for each task four turns and one for
-- each of its pieces together.
pub busy_turns-start :
    (source : ℕ → ℕ) (begin end : ℕ) (pool : ThreadPool) (f : Stream) (schedule : List ℕ)
    → pool.running ≡ false
    → Jobs source begin pool.deque.items end
    → busy_turns (started pool f).0 (started pool f).1 schedule
      ≤ 2 * threads_of pool + task_turns pool.deque.items
unfolding start
busy_turns-start source begin end pool f schedule off js = omega (
  arith,
  busy_turns_left source f.content 0 (started pool f).0 (started pool f).1 schedule
      (started-AllGo source 0 pool f off (Jobs-AllSupplied source begin end pool.deque.items js)),
  ap (λ r. all_left r.1) (start-eq pool off),
  ap (λ r. task_turns r.0.deque.items) (start-eq pool off),
  all_left-replicate (threads_of pool),
)
