-- ===== src/Pool/Parts/Turns.antt =====
-- A turn of a thread, and of a schedule, where no task fails.
use small_program.Base.{
  ℕ, ◌+◌, ◌≡◌, refl, sym, ap, ◌∙◌, subst, List, [], ◌∷◌, none, some, true, ◌==◌, ◌||◌, ==_iff,
  if◌then◌else◌, arith, length,
}
use small_program.Deque.{KDeque, pop_front, take_front}
use small_program.Download.{CurlHttpTask, fseek, fwrite, write_data, Job}
use small_program.Pool.{
  Phase, checks, takes, stops, drains, pops, halts, ended, runs, finishes, Shared, begins,
  with_deque, wrote, turn,
}
use small_program.Pool.Accounts.{total}
use small_program.Pool.Parts.{
  AllSupplied, Supplied-UnderwayWith, Sound, cover, covered, ends, Going, write_data-eq,
  piece_written,
}

popped_nil : {A : Type 0} (d : KDeque A) → d.running ≡ true → d.items ≡ [] → pop_front d ≡ (none, d)
unfolding pop_front take_front
popped_nil d on e = rw (on, e) refl

popped_cons :
    {A : Type 0} (d : KDeque A) (x : A) (xs : List A)
    → d.running ≡ true
    → d.items ≡ x ∷ xs
    → pop_front d ≡ (some x, record d { items = xs })
unfolding pop_front take_front
popped_cons d x xs on e = ap (λ r. take_front d r d.items) on ∙ ap (take_front d true) e

module _ (source old : ℕ → ℕ) (i : ℕ) where
  -- What a turn leaves.
  abbrev pub Goes : ℕ → ℕ → Shared × Phase → Type 0
  Goes n m r = Sound source r.1 × Going source old i r.0 (covered i r.1 + n) (ends r.1 + m)

  pub counted :
      (s : Shared) {n' m' : ℕ} (n m : ℕ)
      → n' ≡ n
      → m' ≡ m
      → Going source old i s n' m'
      → Going source old i s n m
  counted s {m' = m'} n m e e' g =
      subst (λ k. Going source old i s n k) e' (subst (λ k. Going source old i s k m') e g)

  -- A Take from a queue with these items.
  take-Goes :
      (s : Shared) (n m : ℕ) (items : List Job)
      → s.pool.deque.items ≡ items
      → Going source old i s n m
      → Goes n m (with_deque s (pop_front s.pool.deque).1, begins (pop_front s.pool.deque).0)
  take-Goes s n m [] e g =
      subst (λ r. Goes n m (with_deque s r.1, begins r.0))
        (sym (popped_nil s.pool.deque g.serves e))
        (
          tt,
          record {
            on = g.on;
            serves = g.serves;
            queued = g.queued;
            content = ground (arith, g.content);
            idle = λ h. e;
          },
        )
  take-Goes s n m (x ∷ xs) e g =
      subst (λ r. Goes n m (with_deque s r.1, begins r.0))
        (sym (popped_cons s.pool.deque x xs g.serves e))
        (
          (good.0, Supplied-UnderwayWith source x x.pieces refl good.0),
          record {
            on = g.on;
            serves = g.serves;
            queued = good.1;
            content = ground (arith, g.content, good.0.whole, good.0.order);
            idle = λ h. absurd (omega (arith, ap length e, ap length (g.idle (omega (arith, h)))));
          },
        )
    where
      good : AllSupplied source (x ∷ xs)
      good = subst (AllSupplied source) e g.queued

  finish-Goes :
      (s : Shared) (n m code : ℕ) (j : Job)
      → (code == 0 || code == 23) ≡ true
      → Going source old i s (cover i j + n) m
      → Goes n m
          (record s { deleted = j ∷ s.deleted }, if code == 0 || code == 23 then checks else stops)
  finish-Goes s n m code j e g =
      subst (λ b. Goes n m (record s { deleted = j ∷ s.deleted }, if b then checks else stops))
        (sym e)
        (
          tt,
          record {
            on = g.on;
            serves = g.serves;
            queued = g.queued;
            content = ground (arith, g.content);
            idle = λ h. g.idle (omega (arith, h));
          },
        )

  write-Goes :
      (s : Shared) (n m : ℕ) (j : Job) (t : CurlHttpTask) (c : List ℕ) (cs : List (List ℕ))
      → Sound source (runs j t (c ∷ cs))
      → Going source old i s (covered i (runs j t (c ∷ cs)) + n) (0 + m)
      → Goes n m (wrote s j (write_data t s.file c) (length c) cs)
  write-Goes s n m j t c cs v g =
      let (t', e, u) = write_data-eq source j t s.file c cs v.1 in
      subst (λ w. Goes n m (wrote s j w (length c) cs)) (sym e)
        (subst
          (λ b. Goes n m (
            record s { file = fwrite (fseek s.file t.start_pos) c },
            if b then runs j t' cs else finishes j 23,
          ))
          (sym ((==_iff (length c) (length c)).1 refl))
          (
            (v.0, u),
            record {
              on = g.on;
              serves = g.serves;
              queued = g.queued;
              content =
                  piece_written source old i (total (cover i) s.deleted) n j t t' s.file c cs v.1
                    g.content;
              idle = g.idle;
            },
          ))

  pub turn-Goes :
      (s : Shared) (p : Phase) (n m : ℕ)
      → Sound source p
      → Going source old i s (covered i p + n) (ends p + m)
      → Goes n m (turn s p)
  unfolding turn
  turn-Goes s checks n m v g =
      subst (λ b. Goes n m (s, if b then takes else ended)) (sym g.on) (tt, g)
  turn-Goes s takes n m v g =
      take-Goes s n m s.pool.deque.items refl (counted s n m (omega arith) (omega arith) g)
  turn-Goes s (runs j t []) n m v g = (
    (v.0, subst (λ code. (code == 0 || code == 23) ≡ true) (sym v.0.no_error) refl),
    record {
      on = g.on;
      serves = g.serves;
      queued = g.queued;
      content = ground (arith, g.content);
      idle = g.idle;
    },
  )
  turn-Goes s (runs j t (c ∷ cs)) n m v g = write-Goes s n m j t c cs v g
  turn-Goes s (finishes j code) n m v g =
      finish-Goes s n m code j v.1 (counted s (cover i j + n) m refl (omega arith) g)
  turn-Goes s stops n m v g = elim v [ ]
  turn-Goes s drains n m v g = elim v [ ]
  turn-Goes s pops n m v g = elim v [ ]
  turn-Goes s halts n m v g = elim v [ ]
  turn-Goes s ended n m v g = (v, g)
