-- ===== src/Pool/Stopping/Turns.antt =====
-- A turn of any thread keeps the pool in order.
use small_program.Base.{
  ℕ, zero, suc, ◌+◌, ◌≡◌, refl, sym, ◌⊎◌, inl, inr, subst, List, [], ◌∷◌, Option, none, some, Bool,
  true, false, Bool-cases, length, if◌then◌else◌, arith, ◌==◌, ◌||◌,
}
use small_program.Deque.{KDeque, pop_front, empty, is_nil, set_stop}
use small_program.Download.{Job, write_data}
use small_program.Pool.{
  ThreadPool, Phase, checks, takes, stops, drains, pops, halts, ended, runs, finishes, begins,
  delete_task, with_deque, Shared, turn, step, run,
}
use small_program.Pool.Parts.{ends}
use small_program.Pool.Stopping.{draining, halting, Orderly, Popped, pop_front-Popped}

module _ (d h e : ℕ) where
  -- What a turn leaves, among threads of which so many drain, halt and have ended.
  abbrev Settles : Shared × Phase → Type 0
  Settles r = Orderly r.0.pool (draining r.1 + d) (halting r.1 + h) (ends r.1 + e)

  if-Settles :
      (s : Shared) (b : Bool) (p q : Phase)
      → Settles (s, p)
      → Settles (s, q)
      → Settles (s, if b then p else q)
  if-Settles s true p q v w = v
  if-Settles s false p q v w = w

  check-Settles :
      (s : Shared)
      → Orderly s.pool (0 + d) (0 + h) (0 + e)
      → Settles (s, if s.pool.running then takes else ended)
  check-Settles s v = elim (Bool-cases s.pool.running) [
    | inl on ↦ subst (λ b. Settles (s, if b then takes else ended)) (sym on) v
    | inr off ↦
        subst (λ b. Settles (s, if b then takes else ended)) (sym off)
          (record {
            queue_stopped = v.queue_stopped;
            found_empty = v.found_empty;
            pool_stopped = v.pool_stopped;
            over = ground (arith, off, v.pool_stopped);
          })
  ]

  -- A pop with what the thread does then.
  pop-Settles :
      (s : Shared) (deleted : List Job) (o : Option Job) (d' : KDeque Job) (p q : Phase)
      → Popped s.pool.deque o d'
      → draining q ≡ draining p
      → halting q ≡ 0
      → (ends q ≡ 0) ⊎ (o ≡ none)
      → Settles (s, p)
      → Settles (record s { pool = record s.pool { deque = d' }; deleted = deleted }, q)
  pop-Settles s deleted o d' p q pop same calm last v = record {
    queue_stopped = ground (arith, v.queue_stopped, pop.same, pop.fewer);
    found_empty = ground (arith, v.found_empty, pop.fewer, calm);
    pool_stopped = ground (arith, v.pool_stopped, pop.fewer, same);
    over = ground (arith, v.over, v.queue_stopped, pop.fewer, same, last, pop.nothing);
  }

  take-Settles :
      (s : Shared) (o : Option Job) (d' : KDeque Job)
      → Popped s.pool.deque o d'
      → Settles (s, takes)
      → Settles (with_deque s d', begins o)
  take-Settles s none d' pop v =
      pop-Settles s s.deleted none d' takes ended pop refl refl (inr refl) v
  take-Settles s (some j) d' pop v =
      pop-Settles s s.deleted (some j) d' takes (runs j j.task j.pieces) pop refl refl (inl refl) v

  stop-Settles :
      (s : Shared)
      → Settles (s, stops)
      → Settles (
        record s { pool = record s.pool { running = false } },
        if s.pool.running then drains else checks,
      )
  stop-Settles s v = elim (Bool-cases s.pool.running) [
    | inl on ↦
        subst
          (λ b.
            Settles
              (record s { pool = record s.pool { running = false } }, if b then drains else checks))
          (sym on)
          (record {
            queue_stopped = v.queue_stopped;
            found_empty = v.found_empty;
            pool_stopped = ground arith;
            over = ground arith;
          })
    | inr off ↦
        subst
          (λ b.
            Settles
              (record s { pool = record s.pool { running = false } }, if b then drains else checks))
          (sym off)
          (record {
            queue_stopped = v.queue_stopped;
            found_empty = v.found_empty;
            pool_stopped = ground (arith, off, v.pool_stopped);
            over = v.over;
          })
  ]

  is_nil-length : (items : List Job) → is_nil items ≡ true → length items ≡ 0
  is_nil-length [] x = refl
  is_nil-length (j ∷ js) x = absurd (cc x)

  drain-Settles :
      (s : Shared) → Settles (s, drains) → Settles (s, if empty s.pool.deque then halts else pops)
  unfolding empty
  drain-Settles s v = elim (Bool-cases (is_nil s.pool.deque.items)) [
    | inl none_there ↦
        subst (λ b. Settles (s, if b then halts else pops)) (sym none_there)
          (record {
            queue_stopped = v.queue_stopped;
            found_empty = inr (is_nil-length s.pool.deque.items none_there);
            pool_stopped = v.pool_stopped;
            over = v.over;
          })
    | inr some_there ↦ subst (λ b. Settles (s, if b then halts else pops)) (sym some_there) v
  ]

  halt-Settles :
      (s : Shared) → Settles (s, halts) → Settles (with_deque s (set_stop s.pool.deque), checks)
  unfolding set_stop
  halt-Settles s v = record {
    queue_stopped = ground (arith, v.found_empty);
    found_empty = ground (arith, v.found_empty);
    pool_stopped = ground (arith, v.found_empty);
    over = ground (arith, v.found_empty);
  }

  turn-Settles : (s : Shared) (p : Phase) → Settles (s, p) → Settles (turn s p)
  unfolding turn
  turn-Settles s checks v = check-Settles s v
  turn-Settles s takes v =
      take-Settles s (pop_front s.pool.deque).0 (pop_front s.pool.deque).1
        (pop_front-Popped s.pool.deque) v
  turn-Settles s (runs j t []) v = v
  turn-Settles s (runs j t (c ∷ cs)) v =
      if-Settles (record s { file = (write_data t s.file c).stream })
        ((write_data t s.file c).written == length c) (runs j (write_data t s.file c).task cs)
        (finishes j 23) v v
  turn-Settles s (finishes j code) v =
      if-Settles (record s { deleted = j ∷ s.deleted }) (code == 0 || code == 23) checks stops v v
  turn-Settles s stops v = stop-Settles s v
  turn-Settles s drains v = drain-Settles s v
  turn-Settles s pops v =
      pop-Settles s (delete_task s.deleted (pop_front s.pool.deque).0) (pop_front s.pool.deque).0
        (pop_front s.pool.deque).1 pops drains (pop_front-Popped s.pool.deque) refl refl (inl refl)
        v
  turn-Settles s halts v = halt-Settles s v
  turn-Settles s ended v = v

-- The counts of all threads.
abbrev pub sum_of : (Phase → ℕ) → List Phase → ℕ
sum_of f [] = 0
sum_of f (p ∷ ps) = f p + sum_of f ps

-- The pool is in order among its threads and these.
abbrev pub InOrder : ℕ → ℕ → ℕ → Shared × List Phase → Type 0
InOrder d h e r =
    Orderly r.0.pool (sum_of draining r.1 + d) (sum_of halting r.1 + h) (sum_of ends r.1 + e)

counted :
    (pool : ThreadPool) {d h e : ℕ} (d' h' e' : ℕ)
    → d ≡ d'
    → h ≡ h'
    → e ≡ e'
    → Orderly pool d h e
    → Orderly pool d' h' e'
counted pool d' h' e' same same' same'' v = record {
  queue_stopped = v.queue_stopped;
  found_empty = ground (arith, v.found_empty, same');
  pool_stopped = ground (arith, v.pool_stopped, same);
  over = ground (arith, v.over, same, same'');
}

pub step-InOrder :
    (s : Shared) (ps : List Phase) (k d h e : ℕ)
    → InOrder d h e (s, ps)
    → InOrder d h e (step s ps k)
unfolding step
step-InOrder s [] k d h e v = v
step-InOrder s (p ∷ ps) zero d h e v =
    counted (turn s p).0.pool _ _ _ (omega arith) (omega arith) (omega arith) (
      turn-Settles (sum_of draining ps + d) (sum_of halting ps + h) (sum_of ends ps + e) s p
        (counted s.pool _ _ _ (omega arith) (omega arith) (omega arith) v))
step-InOrder s (p ∷ ps) (suc k) d h e v =
    counted (step s ps k).0.pool _ _ _ (omega arith) (omega arith) (omega arith) (
      step-InOrder s ps k (draining p + d) (halting p + h) (ends p + e)
        (counted s.pool _ _ _ (omega arith) (omega arith) (omega arith) v))

pub run-InOrder :
    (s : Shared) (ps : List Phase) (schedule : List ℕ)
    → InOrder 0 0 0 (s, ps)
    → InOrder 0 0 0 (run s ps schedule)
unfolding run
run-InOrder s ps [] v = v
run-InOrder s ps (k ∷ ks) v =
    run-InOrder (step s ps k).0 (step s ps k).1 ks (step-InOrder s ps k 0 0 0 v)
