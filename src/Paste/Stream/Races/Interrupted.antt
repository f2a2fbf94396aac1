-- ===== src/Paste/Stream/Races/Interrupted.antt =====
-- A Read between whose steps the other thread writes.
use small_program.Base.{
  ℕ, ◌+◌, ◌-◌, ◌%◌, ◌^◌, ◌<◌, ◌≤◌, ◌≡◌, sym, ap, ◌∙◌, subst, List, [], ◌∷◌, ◌++◌, some, false,
  length, drop, take, length-append, arith, le→leb, lt→leb, ok, Ensures, Ensures-bind, done,
  if◌then◌else◌,
}
use small_program.Memory.Regions.{mem_read_rest}
use small_program.Paste.Transfer.{Action, writes, turns, taken, accepted}
use small_program.Paste.Stream.{MsStream, eof, aborted, delivered, run}
use small_program.Paste.Stream.Reading.{received_bytes}
use small_program.Paste.Stream.Delivery.{Fits, later_reads}
use small_program.Paste.Stream.Received.{Received, Accepts}
use small_program.Paste.Stream.Races.Uninterrupted.{after_step}
use small_program.Paste.Stream.Races.{
  ReadPhase, enters, loops, resets, asks, copies, reports, returned, copy_step, read_step,
  interleave,
}
use small_program.Paste.Stream.Races.Placed.{placed, write_file-placed}

copy_step-eq :
    (cb : ℕ) (s : MsStream) (sent after : List ℕ)
    → s.progress_size ≡ length sent
    → s.position ≤ length sent
    → length sent < 2 ^ 32
    → length sent ≤ cb
    → copy_step cb s (some (sent ++ after)) ≡ ok (s, reports (drop s.position sent))
unfolding copy_step
copy_step-eq cb s sent after progress behind small enough = rw (
  progress,
  size,
  le→leb (length sent - s.position) cb (omega (arith, enough)),
  mem_read_rest sent after s.position behind,
)
  where
    size : (length sent + 2 ^ 32 - s.position) % 2 ^ 32 ≡ length sent - s.position
    size = omega (arith, behind, small)

-- A write before the store to `*pcbRead`, and one between this and the store to mPosition.
abbrev pub two_writes : List ℕ → List ℕ → List (Action (Unit {0}))
two_writes first second =
    turns tt
    ∷ turns tt
    ∷ turns tt
    ∷ turns tt
    ∷ turns tt
    ∷ writes (some first)
    ∷ turns tt
    ∷ writes (some second)
    ∷ turns tt
    ∷ []

module _ (s : MsStream) (sent first second : List ℕ) (cb : ℕ) where
  unflagged : MsStream
  unflagged = record s { wait_data_flag = false }

  -- The steps up to the memcpy.
  copied_first :
      (actions : List (Action (Unit {0})))
      → Received s sent
      → s.cancelled ≡ false
      → s.position < length sent
      → s.file_size ≤ cb
      → interleave s (enters cb) (turns tt ∷ turns tt ∷ turns tt ∷ turns tt ∷ turns tt ∷ actions)
        ≡ interleave unflagged (reports (drop s.position sent)) actions
  unfolding read_step unflagged interleave
  copied_first actions v alive more enough =
      after_step s s (enters cb) (loops cb) (turns tt ∷ turns tt ∷ turns tt ∷ turns tt ∷ actions) (
        ap (λ b. ok (s, if b then returned eof 0 else loops cb))
          (lt→leb s.file_size s.position (omega (arith, more, v.fits))))
      ∙ after_step s s (loops cb) (resets cb) (turns tt ∷ turns tt ∷ turns tt ∷ actions)
          (ap (λ b. ok (s, if b then resets cb else loops cb)) (v.woken alive more))
      ∙ after_step unflagged unflagged (asks cb) (copies cb) (turns tt ∷ actions)
          (ap (λ b. ok (unflagged, if b then returned aborted 0 else copies cb)) alive)
      ∙ after_step unflagged unflagged (copies cb) (reports (drop s.position sent)) actions (
          ap (copy_step cb unflagged) v.view
          ∙ copy_step-eq cb unflagged sent v.after v.progress v.behind
              (omega (arith, v.fits, v.small)) (omega (arith, v.fits, enough)))

  -- What the first write hands over, and the second.
  abbrev pub first_taken : List ℕ
  first_taken = taken s.file_size (length sent) first

  abbrev pub second_taken : List ℕ
  second_taken = taken s.file_size (length (sent ++ first_taken)) second

  -- The bytes of the three, and how many they are.
  abbrev pub all_taken : List ℕ
  all_taken = (sent ++ first_taken) ++ second_taken

  length-all_taken : length all_taken ≡ length sent + length first_taken + length second_taken
  length-all_taken =
      length-append (sent ++ first_taken) second_taken
      ∙ ap (λ n. n + length second_taken) (length-append sent first_taken)

  -- The Read copies what had arrived before, and reports and passes more; the Reads among later
  -- calls copy a start of what the writes among them hand over.
  abbrev pub Skips : List (Action ℕ) → MsStream × ReadPhase → Type 0
  Skips later r =
      (r.1
        ≡ returned (delivered (drop s.position sent))
            (length sent + length first_taken - s.position))
      × (r.0.position ≡ length sent + length first_taken + length second_taken)
      × (r.0.progress_size ≡ length sent + length first_taken + length second_taken)
      × Received r.0 all_taken
      × Ensures
          (λ q.
            received_bytes q.0
            ≡ take (q.1.position - length all_taken)
                (accepted s.file_size (length all_taken) later))
          (run r.0 later)

  at_the_end : MsStream
  at_the_end = record s { position = length sent; wait_data_flag = false }

  at_the_end-Received : Received s sent → Received at_the_end sent
  unfolding at_the_end
  at_the_end-Received v = record {
    after = v.after;
    view = v.view;
    progress = v.progress;
    behind = omega arith;
    fits = v.fits;
    room = v.room;
    small = v.small;
    woken = λ c b. absurd (omega (arith, b));
  }

  -- A reader that has passed what was written.
  caught_up-Received :
      (p : ℕ) (x u : MsStream) (all : List ℕ)
      → x ≡ placed p u
      → Received u all
      → Received (record x { position = x.progress_size }) all
  caught_up-Received p x u all e v =
      subst (λ y. Received (record y { position = y.progress_size }) all) (sym e)
        (record {
          after = v.after;
          view = v.view;
          progress = v.progress;
          behind = omega (arith, v.progress);
          fits = v.fits;
          room = v.room;
          small = v.small;
          woken = λ c b. absurd (omega (arith, b, v.progress));
        })

  second_write :
      (t : MsStream) (later : List (Action ℕ))
      → Received s sent
      → Accepts at_the_end sent first t
      → s.file_size + length second < 2 ^ 32
      → Fits s.file_size later
      → Ensures (Skips later) (
          interleave
            (placed s.position t)
            (reports (drop s.position sent))
            (turns tt ∷ writes (some second) ∷ turns tt ∷ []))
  unfolding interleave read_step at_the_end
  second_write t later v a h f =
      Ensures-bind _ (Skips later) _ _
        (write_file-placed s.position t (sent ++ first_taken) second a.0 (omega (arith, h, a.2)))
        λ s'' w. done _ (
          ap (returned (delivered (drop s.position sent))) (
              omega (
                arith,
                a.0.progress,
                v.behind,
                a.0.fits,
                a.0.small,
                length-append sent first_taken,
              )),
          (received s'' w).progress ∙ length-all_taken,
          (received s'' w).progress ∙ length-all_taken,
          received s'' w,
          later_reads (record s'' { position = s''.progress_size }) all_taken s.file_size later
              (received s'' w) (received s'' w).progress (ap (λ x. x.file_size) w.1 ∙ w.2.2 ∙ a.2)
              f,
        )
    where
      received :
          (s'' : MsStream)
          → ((u : MsStream) × (s'' ≡ placed s.position u)
              × Accepts t (sent ++ first_taken) second u)
          → Received (record s'' { position = s''.progress_size }) all_taken
      received s'' w = caught_up-Received s.position s'' w.0 all_taken w.1 (
          subst
            (λ size.
              Received w.0
                ((sent ++ first_taken) ++ taken size (length (sent ++ first_taken)) second))
            a.2 w.2.0)

  -- A Read of a stream that has bytes for it, between whose steps two writes come: one behind
  -- the memcpy, and one behind the store to `*pcbRead`. It copies the bytes that had arrived
  -- before, but reports those of the first write too, and leaves the position behind the bytes
  -- of both, which no Read then copies: the stream keeps the invariant `Received`, and what the
  -- Reads copy after it, whatever calls come, is a start of what the writes after it hand over.
  -- The conditions: the stream has the invariant `Received` and is not cancelled, no sum of the
  -- size and a write wraps, and each Read has room for the file.
  pub interleave-Skips :
      (later : List (Action ℕ))
      → Received s sent
      → s.cancelled ≡ false
      → s.position < length sent
      → s.file_size ≤ cb
      → s.file_size + length first < 2 ^ 32
      → s.file_size + length second < 2 ^ 32
      → Fits s.file_size later
      → Ensures (Skips later) (interleave s (enters cb) (two_writes first second))
  unfolding interleave at_the_end unflagged
  interleave-Skips later v alive more enough h h' f =
      subst (Ensures (Skips later))
        (sym (
          copied_first (writes (some first) ∷ turns tt ∷ writes (some second) ∷ turns tt ∷ []) v
            alive more enough))
        (Ensures-bind _ (Skips later) _ _
          (write_file-placed s.position at_the_end sent first (at_the_end-Received v) h)
          λ s' w.
            subst
              (λ x. Ensures (Skips later) (
                interleave x (reports (drop s.position sent))
                  (turns tt ∷ writes (some second) ∷ turns tt ∷ [])))
              (sym w.1) (second_write w.0 later v w.2 h' f))
