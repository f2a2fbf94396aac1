-- ===== src/Pool/Parts.antt =====
-- What the threads have written, while each task gets the bytes of its range.
pub mod Turns
pub mod Schedules
use small_program.Base.{
  ℕ, zero, suc, ◌+◌, ◌-◌, ◌<◌, ◌≤◌, ◌≡◌, refl, sym, ap, ◌∙◌, subst, List, [], ◌∷◌, ◌++◌, true, ltb,
  leb, ◌==◌, ◌&&◌, ◌||◌, ==_iff, if◌then◌else◌, arith, length, length-append, take, le→leb, lt→leb,
}
use small_program.Download.{
  CurlHttpTask, Stream, byte_at, fseek, fwrite, overwrite, write_data, Written, Job,
}
use small_program.Download.Writes.{joined, HasBytes, byte_at-append, take_all}
use small_program.Pool.{
  Phase, checks, takes, stops, drains, pops, halts, ended, runs, finishes, Shared,
}
use small_program.Pool.Accounts.{total}

-- A task with a range, to which the source's bytes arrive in pieces that are not empty.
pub record Supplied (source : ℕ → ℕ) (j : Job) : Type 0 where
  pub ranged : j.task.ranged ≡ true
  pub order : j.task.start_pos ≤ j.task.stop_pos
  pub filled : HasBytes j.pieces
  pub whole : j.task.start_pos + length (joined j.pieces) ≡ j.task.stop_pos + 1
  pub same :
      (k : ℕ)
      → k < length (joined j.pieces)
      → byte_at (joined j.pieces) k ≡ source (j.task.start_pos + k)
  pub no_error : j.code ≡ 0

abbrev pub AllSupplied : (ℕ → ℕ) → List Job → Type 0
AllSupplied source [] = Unit {0}
AllSupplied source (j ∷ js) = Supplied source j × AllSupplied source js

-- The task that the transfer has moved on, before it takes a piece.
pub record Underway (source : ℕ → ℕ) (j : Job) (t : CurlHttpTask) (c : List ℕ) (cs : List (List ℕ))
    : Type 0 where
  pub ranged : t.ranged ≡ true
  pub stop : t.stop_pos ≡ j.task.stop_pos
  pub start : j.task.start_pos ≤ t.start_pos
  pub filled : HasBytes (c ∷ cs)
  pub whole : t.start_pos + length (joined (c ∷ cs)) ≡ t.stop_pos + 1
  pub same :
      (k : ℕ)
      → k < length (joined (c ∷ cs))
      → byte_at (joined (c ∷ cs)) k ≡ source (t.start_pos + k)

abbrev pub UnderwayWith : (ℕ → ℕ) → Job → CurlHttpTask → List (List ℕ) → Type 0
UnderwayWith source j t [] = Unit {0}
UnderwayWith source j t (c ∷ cs) = Underway source j t c cs

-- A thread that no failure has reached.
abbrev pub Sound : (ℕ → ℕ) → Phase → Type 0
Sound source checks = Unit {0}
Sound source takes = Unit {0}
Sound source ended = Unit {0}
Sound source (runs j t cs) = Supplied source j × UnderwayWith source j t cs
Sound source (finishes j code) = Supplied source j × ((code == 0 || code == 23) ≡ true)
Sound source stops = ⊥
Sound source drains = ⊥
Sound source pops = ⊥
Sound source halts = ⊥

-- Whether an offset lies in a task's range, and whether a thread has written it.
abbrev pub cover : ℕ → Job → ℕ
cover i j = if leb j.task.start_pos i && leb i j.task.stop_pos then 1 else 0

abbrev pub covered : ℕ → Phase → ℕ
covered i (runs j t cs) =
    if leb j.task.start_pos i && leb (i + length (joined cs)) j.task.stop_pos then 1 else 0
covered i (finishes j code) = cover i j
covered i checks = 0
covered i takes = 0
covered i stops = 0
covered i drains = 0
covered i pops = 0
covered i halts = 0
covered i ended = 0

abbrev pub ends : Phase → ℕ
ends ended = 1
ends checks = 0
ends takes = 0
ends stops = 0
ends drains = 0
ends pops = 0
ends halts = 0
ends (runs j t cs) = 0
ends (finishes j code) = 0

-- The pool runs, and the byte at an offset is the source's where one of the deleted tasks or `n`
-- tasks under way cover it, and the old one elsewhere; and if `m` threads have ended, the queue is
-- empty unless `m` is 0.
pub record Going (source old : ℕ → ℕ) (i : ℕ) (s : Shared) (n m : ℕ) : Type 0 where
  pub on : s.pool.running ≡ true
  pub serves : s.pool.deque.running ≡ true
  pub queued : AllSupplied source s.pool.deque.items
  pub content :
      s.file.content i ≡ (if ltb 0 (total (cover i) s.deleted + n) then source i else old i)
  pub idle : 0 < m → s.pool.deque.items ≡ []

Supplied-UnderwayWith :
    (source : ℕ → ℕ) (j : Job) (pieces : List (List ℕ))
    → j.pieces ≡ pieces
    → Supplied source j
    → UnderwayWith source j j.task pieces
Supplied-UnderwayWith source j [] e g = tt
Supplied-UnderwayWith source j (c ∷ cs) e g = record {
  ranged = g.ranged;
  stop = refl;
  start = omega arith;
  filled = subst HasBytes e g.filled;
  whole = subst (λ ps. j.task.start_pos + length (joined ps) ≡ j.task.stop_pos + 1) e g.whole;
  same =
      subst
        (λ ps.
          (k : ℕ) → k < length (joined ps) → byte_at (joined ps) k ≡ source (j.task.start_pos + k))
        e g.same;
}

-- The bytes of one piece.
piece_bytes :
    (source : ℕ → ℕ) (j : Job) (t : CurlHttpTask) (c : List ℕ) (cs : List (List ℕ))
    → Underway source j t c cs
    → (k : ℕ) → k < length c
    → byte_at c k ≡ source (t.start_pos + k)
piece_bytes source j t c cs u k h = ground (
  arith,
  h,
  u.same k (omega (arith, h, length-append c (joined cs))),
  byte_at-append c (joined cs) k,
)

-- The bytes of the pieces behind it.
later_bytes :
    (source : ℕ → ℕ) (j : Job) (t : CurlHttpTask) (c : List ℕ) (cs : List (List ℕ))
    → Underway source j t c cs
    → (k : ℕ) → k < length (joined cs)
    → byte_at (joined cs) k ≡ source (t.start_pos + length c + k)
later_bytes source j t c cs u k h = ground (
  arith,
  h,
  byte_at-append c (joined cs) (length c + k),
  u.same (length c + k) (omega (arith, h, length-append c (joined cs))),
)

pub write_data-eq :
    (source : ℕ → ℕ) (j : Job) (t : CurlHttpTask) (f : Stream) (c : List ℕ) (cs : List (List ℕ))
    → Underway source j t c cs
    → (t' : CurlHttpTask) × (write_data t f c
        ≡ record { written = length c; task = t'; stream = fwrite (fseek f t.start_pos) c })
      × UnderwayWith source j t' cs
unfolding write_data
write_data-eq source j t f c [] u = (
  record t { start_pos = t.stop_pos },
  rw
      (
        u.ranged,
        lt→leb (t.start_pos + length c) t.stop_pos (omega (arith, last)),
        take_all (t.stop_pos - t.start_pos + 1) c (omega (arith, last, u.filled.0)),
      )
      (ap
        (λ n. record {
          written = n;
          task = record t { start_pos = t.stop_pos; ranged = true };
          stream = fwrite (fseek f t.start_pos) c;
        })
        (omega (arith, last, u.filled.0))),
  tt,
)
  where
    last : t.start_pos + length c ≡ t.stop_pos + 1
    last = omega (arith, u.whole, length-append c [])
write_data-eq source j t f c (d ∷ ds) u = (
  record t { start_pos = t.start_pos + length c },
  rw
      (
        u.ranged,
        le→leb (t.start_pos + length c) t.stop_pos (
            omega (
              arith,
              u.whole,
              u.filled.1.0,
              length-append c (joined (d ∷ ds)),
              length-append d (joined ds),
            )),
      )
      refl,
  record {
    ranged = u.ranged;
    stop = u.stop;
    start = omega (arith, u.start);
    filled = u.filled.1;
    whole = omega (arith, u.whole, length-append c (joined (d ∷ ds)));
    same = later_bytes source j t c (d ∷ ds) u;
  },
)

-- What the file holds behind the write of a piece.
pub piece_written :
    (source old : ℕ → ℕ) (i a n : ℕ) (j : Job) (t t' : CurlHttpTask) (f : Stream) (c : List ℕ)
    (cs : List (List ℕ))
    → Underway source j t c cs
    → f.content i ≡ (if ltb 0 (a + (covered i (runs j t (c ∷ cs)) + n)) then source i else old i)
    → (fwrite (fseek f t.start_pos) c).content i
      ≡ (if ltb 0 (a + (covered i (runs j t' cs) + n)) then source i else old i)
unfolding fwrite fseek
piece_written source old i a n j t t' f c cs u e =
    ground (arith, e, u.start, u.stop, u.whole, length-append c (joined cs), own)
  where
    own : t.start_pos ≤ i → i < t.start_pos + length c → byte_at c (i - t.start_pos) ≡ source i
    own low high =
        piece_bytes source j t c cs u (i - t.start_pos) (omega (arith, low, high))
        ∙ ap source (omega (arith, low))
