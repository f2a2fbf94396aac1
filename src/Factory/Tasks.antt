-- ===== src/Factory/Tasks.antt =====
-- The tasks in the queue, with what arrives for them.
use small_program.Base.{
  ℕ, zero, suc, ◌+◌, ◌*◌, ◌/◌, ◌%◌, ◌<◌, ◌≤◌, ◌≡◌, refl, sym, ap, ◌∙◌, subst, List, [], ◌∷◌, ◌++◌,
  append-nil, append_assoc, Option, none, some, true, Bool-cases, inl, inr, ◌==◌, length, arith, ok,
  Ensures, Ensures-ok, done, Ensures-bind, lt→leb, if◌then◌else◌, Result,
}
use small_program.Deque.{negsuc, push_back, waits}
use small_program.Download.{CurlHttpTask, byte_at, range_size, segments, make_task, Job}
use small_program.Download.Ranges.{IsChain, int_mul-eq}
use small_program.Download.Writes.{joined, HasBytes}
use small_program.Download.Whole.{Jobs, none_left, job}
use small_program.Pool.{ThreadPool, add_task}
use mathlib.Core.Option
use small_program.Factory.{Arrivals, touch, push_tasks}

abbrev pub job_of : Arrivals → CurlHttpTask → Job
job_of arrive t = record { task = t; pieces = (arrive t).0; code = (arrive t).1 }

abbrev pub jobs_of : Arrivals → List CurlHttpTask → List Job
jobs_of arrive [] = []
jobs_of arrive (t ∷ ts) = job_of arrive t ∷ jobs_of arrive ts

pub length-jobs_of :
    (arrive : Arrivals) (ts : List CurlHttpTask) → length (jobs_of arrive ts) ≡ length ts
length-jobs_of arrive [] = refl
length-jobs_of arrive (t ∷ ts) = ap suc (length-jobs_of arrive ts)

-- The pool with more tasks in its queue.
abbrev pub with_jobs : ThreadPool → List Job → ThreadPool
with_jobs pool js = record pool { deque = record pool.deque { items = pool.deque.items ++ js } }

add_task-eq :
    (pool : ThreadPool) (j : Job)
    → pool.deque.max_capacity ≡ negsuc 0
    → add_task pool j ≡ some (with_jobs pool (j ∷ []))
unfolding add_task push_back waits
add_task-eq pool j e =
    ap
      (λ capacity.
        Option.map (λ d. record pool { deque = d })
          (if waits capacity pool.deque.items
            then none
            else some (record pool.deque { items = pool.deque.items ++ (j ∷ []) })))
      e

-- A queue without a bound takes all tasks.
pub push_tasks-eq :
    (arrive : Arrivals) (pool : ThreadPool) (ts : List CurlHttpTask)
    → pool.deque.max_capacity ≡ negsuc 0
    → push_tasks true arrive pool ts ≡ ok (some (with_jobs pool (jobs_of arrive ts)))
unfolding push_tasks touch
push_tasks-eq arrive pool [] e =
    ap (λ items. ok (some (record pool { deque = record pool.deque { items = items } })))
      (sym (append-nil pool.deque.items))
push_tasks-eq arrive pool (t ∷ ts) e =
    ap (λ o. elim o [ none ↦ ok none | some pool' ↦ push_tasks true arrive pool' ts ])
      (add_task-eq pool (job_of arrive t) e)
    ∙ push_tasks-eq arrive (with_jobs pool (job_of arrive t ∷ [])) ts e
    ∙ ap (λ items. ok (some (record pool { deque = record pool.deque { items = items } })))
        (append_assoc pool.deque.items (job_of arrive t ∷ []) (jobs_of arrive ts))

-- What is ensured of the tasks that are made holds for these.
pub made-tasks :
    (P : List CurlHttpTask → Type 0) (made : Result (Option (List CurlHttpTask)))
    (ts : List CurlHttpTask)
    → made ≡ ok (some ts)
    → Ensures (λ r. (us : List CurlHttpTask) × (r ≡ some us) × P us) made
    → P ts
made-tasks P made ts e ensured = of_made (Ensures-ok (subst (Ensures Made) e ensured))
  where
    Made : Option (List CurlHttpTask) → Type 0
    Made r = (us : List CurlHttpTask) × (r ≡ some us) × P us

    given : Option (List CurlHttpTask) → List CurlHttpTask
    given none = ts
    given (some us) = us

    of_made : Made (some ts) → P ts
    of_made m = subst P (ap given (sym m.1)) m.2

-- Each task asks for a range.
abbrev pub AllRanged : List CurlHttpTask → Type 0
AllRanged [] = Unit {0}
AllRanged (t ∷ ts) = (t.ranged ≡ true) × AllRanged ts

segments-AllRanged : (len left i : ℕ) → i + left < 205 → Ensures AllRanged (segments len left i)
unfolding segments
segments-AllRanged len zero i small = elim (Bool-cases (len % range_size == 0)) [
  | inl whole ↦ rw whole (done _ tt)
  | inr part ↦ rw (part, int_mul-eq i range_size (omega (arith, small))) (done _ (refl, tt))
]
segments-AllRanged len (suc left) i small =
    rw
      (
        int_mul-eq i range_size (omega (arith, small)),
        int_mul-eq (i + 1) range_size (omega (arith, small)),
      )
      (Ensures-bind AllRanged _ _ _ (segments-AllRanged len left (i + 1) (omega (arith, small)))
        λ ts v. done _ (refl, v))

-- The tasks of a file that is cut.
pub make_task-AllRanged :
    (len : ℕ) (ts : List CurlHttpTask)
    → range_size < len
    → len < 205 * range_size
    → make_task len true ≡ ok (some ts)
    → AllRanged ts
unfolding make_task
make_task-AllRanged zero ts large small e = absurd (omega (arith, large))
make_task-AllRanged (suc n) ts large small e = made-tasks AllRanged (make_task (suc n) true) ts e (
    rw (lt→leb (suc n) range_size (omega (arith, large))) (
      Ensures-bind AllRanged _ _ _
        (segments-AllRanged (suc n) (suc n / range_size) 0 (omega (arith, small)))
        λ us v. done _ (us, refl, v)))

-- For a task with a range arrive the source's bytes of this range, in pieces that are not empty,
-- and without an error.
pub record Serves (source : ℕ → ℕ) (arrive : Arrivals) (t : CurlHttpTask) : Type 0 where
  pub filled : HasBytes (arrive t).0
  pub whole : t.start_pos + length (joined (arrive t).0) ≡ t.stop_pos + 1
  pub same :
      (k : ℕ)
      → k < length (joined (arrive t).0)
      → byte_at (joined (arrive t).0) k ≡ source (t.start_pos + k)
  pub no_error : (arrive t).1 ≡ 0

pub chain-Jobs :
    (source : ℕ → ℕ) (arrive : Arrivals) (start end : ℕ) (ts : List CurlHttpTask)
    → ((t : CurlHttpTask) → t.start_pos ≤ t.stop_pos → Serves source arrive t)
    → IsChain start ts end
    → AllRanged ts
    → Jobs source start (jobs_of arrive ts) end
chain-Jobs source arrive start end [] serve e r =
    subst (λ n. Jobs source start [] n) e (none_left start)
chain-Jobs source arrive start end (t ∷ ts) serve chain r =
    subst (λ n. Jobs source n (job_of arrive t ∷ jobs_of arrive ts) end) chain.0
      (subst
        (λ code.
          Jobs source t.start_pos
            (record { task = t; pieces = (arrive t).0; code = code } ∷ jobs_of arrive ts) end)
        (sym served.no_error)
        (job r.0 order served.filled served.whole served.same
          (chain-Jobs source arrive (t.stop_pos + 1) end ts serve chain.3 r.1)))
  where
    order : t.start_pos ≤ t.stop_pos
    order = omega (arith, chain.0, chain.1)

    served : Serves source arrive t
    served = serve t order
