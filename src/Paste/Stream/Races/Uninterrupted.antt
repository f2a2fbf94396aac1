-- ===== src/Paste/Stream/Races/Uninterrupted.antt =====
-- A Read without calls of the other thread between its steps.
use small_program.Base.{
  ℕ, zero, suc, replicate, dec_lt, ◌≡◌, refl, sym, ap, ◌∙◌, List, ◌∷◌, Option, none, some, Bool,
  true, false, Bool-cases, inl, inr, arith, leb, le→leb, lt→leb, Result, ok, err, undefined, guard,
  if◌then◌else◌, ◌>>=◌, ◌>>◌,
}
use small_program.Memory.{mem_read}
use small_program.Paste.Transfer.{Action, turns}
use small_program.Paste.Stream.{MsStream, Outcome, eof, aborted, spins, delivered, copy_out, read}
use small_program.Paste.Stream.Reading.{read_copies, read_eof, read_spins, read_aborted}
use small_program.Paste.Stream.Races.{
  ReadPhase, enters, loops, resets, asks, copies, reports, returned, unread, copy_step, read_step,
  interleave,
}

-- Where the steps are when a Read in one piece ends so; `*pcbRead` is set by what was unread.
abbrev pub finished : ℕ → ℕ → Outcome × MsStream → Result (MsStream × ReadPhase)
finished cb n (eof, s) = ok (s, returned eof 0)
finished cb n (aborted, s) = ok (s, returned aborted 0)
finished cb n (spins, s) = ok (s, loops cb)
finished cb n (delivered bytes, s) = ok (s, returned (delivered bytes) n)

abbrev pub turns_of : ℕ → List (Action (Unit {0}))
turns_of n = replicate n (turns tt)

-- A step whose result is this one.
pub after_step :
    (s s' : MsStream) (p p' : ReadPhase) (actions : List (Action (Unit {0})))
    → read_step s p ≡ ok (s', p')
    → interleave s p (turns tt ∷ actions) ≡ interleave s' p' actions
unfolding interleave
after_step s s' p p' actions e = ap (λ m. m >>= λ r. interleave r.0 r.1 actions) e

looping :
    (cb n : ℕ) (s : MsStream)
    → s.wait_data_flag ≡ false
    → interleave s (loops cb) (turns_of n) ≡ ok (s, loops cb)
unfolding interleave read_step
looping cb zero s unset = refl
looping cb (suc n) s unset =
    after_step s s (loops cb) (loops cb) (turns_of n)
      (ap (λ b. ok (s, if b then resets cb else loops cb)) unset)
    ∙ looping cb n s unset

interleave-copies :
    (cb : ℕ) (s : MsStream) (b : Option (List ℕ))
    → s.buffer ≡ b
    → interleave (record s { wait_data_flag = false }) (copies cb) (turns_of 3)
      ≡ (copy_out cb s b >>= finished cb (unread s))
unfolding interleave read_step copy_step copy_out
interleave-copies cb s none e =
    ap
      (λ b. copy_step cb (record s { wait_data_flag = false }) b >>= λ r.
        interleave r.0 r.1 (turns_of 2))
      e
interleave-copies cb s (some mem) e =
    ap
      (λ b. copy_step cb (record s { wait_data_flag = false }) b >>= λ r.
        interleave r.0 r.1 (turns_of 2))
      e
    ∙ guarded (leb (unread s) cb) (mem_read mem s.position (unread s))
  where
    to_report : List ℕ → Result (MsStream × ReadPhase)
    to_report bs = ok (record s { wait_data_flag = false }, reports bs)

    to_deliver : List ℕ → Result (Outcome × MsStream)
    to_deliver bs =
        ok (delivered bs, record s { position = s.progress_size; wait_data_flag = false })

    guarded :
        (fits : Bool) (bytes : Result (List ℕ))
        → ((guard fits undefined >> (bytes >>= to_report)) >>= λ r. interleave r.0 r.1 (turns_of 2))
          ≡ ((guard fits undefined >> (bytes >>= to_deliver)) >>= finished cb (unread s))
    guarded false bytes = refl
    guarded true (err e) = refl
    guarded true (ok bs) = refl

-- Without a call of the other thread between its steps, a Read is the Read in one piece: seven
-- steps take it to the same result and the same stream, or into the loop on the flag.
pub interleave-read :
    (cb : ℕ) (s : MsStream)
    → interleave s (enters cb) (turns_of 7) ≡ (read cb s >>= finished cb (unread s))
unfolding interleave read_step
interleave-read cb s = elim (dec_lt s.position s.file_size) [
  | no end ↦
      after_step s s (enters cb) (returned eof 0) (turns_of 6) (
        ap (λ b. ok (s, if b then returned eof 0 else loops cb))
          (le→leb s.file_size s.position (omega (arith, end))))
      ∙ sym (ap (λ r. r >>= finished cb (unread s)) (read_eof s cb (omega (arith, end))))
  | yes more ↦
      after_step s s (enters cb) (loops cb) (turns_of 6) (
        ap (λ b. ok (s, if b then returned eof 0 else loops cb))
          (lt→leb s.file_size s.position more))
      ∙ elim (Bool-cases s.wait_data_flag) [
        | inr unset ↦
            looping cb 6 s unset
            ∙ sym (ap (λ r. r >>= finished cb (unread s)) (read_spins s cb more unset))
        | inl set ↦
            after_step s s (loops cb) (resets cb) (turns_of 5)
              (ap (λ b. ok (s, if b then resets cb else loops cb)) set)
            ∙ elim (Bool-cases s.cancelled) [
              | inl gone ↦
                  after_step unflagged unflagged (asks cb) (returned aborted 0) (turns_of 3)
                    (ap (λ b. ok (unflagged, if b then returned aborted 0 else copies cb)) gone)
                  ∙ sym (ap (λ r. r >>= finished cb (unread s)) (read_aborted s cb more set gone))
              | inr alive ↦
                  after_step unflagged unflagged (asks cb) (copies cb) (turns_of 3)
                    (ap (λ b. ok (unflagged, if b then returned aborted 0 else copies cb)) alive)
                  ∙ interleave-copies cb s s.buffer refl
                  ∙ sym (ap (λ r. r >>= finished cb (unread s)) (read_copies s cb more set alive))
            ]
      ]
]
  where
    unflagged : MsStream
    unflagged = record s { wait_data_flag = false }
