-- ===== src/Paste/Stream/Delivery.antt =====
-- What the reader of a stream gets of what was written.
use small_program.Base.{
  ℕ, zero, suc, ◌-◌, drop, take_all, arith, ◌+◌, ◌^◌, ◌<◌, ◌≤◌, ◌≡◌, refl, sym, ap, ◌∙◌, subst,
  List, [], ◌∷◌, ◌++◌, append-nil, append_assoc, none, some, true, length, take, length-append,
  take-append_le, Ensures, done, Ensures-bind, Ensures-weaken, ap₂,
}
use small_program.Paste.Transfer.{Action, writes, cancels, turns, taken, accepted}
use small_program.Paste.Stream.{
  MsStream, create, cancel, Outcome, eof, aborted, spins, delivered, run,
}
use small_program.Paste.Stream.Received.{
  Received, create-Received, Accepts, write_file-Accepts, write_file_null,
}
use small_program.Paste.Stream.Reading.{received_bytes, Reads, read-Reads, cancel-Received}

-- The sizes do not wrap, and each Read has room for the file.
abbrev pub Fits : ℕ → List (Action ℕ) → Type 0
Fits size [] = Unit {0}
Fits size (writes none ∷ actions) = Fits size actions
Fits size (writes (some bytes) ∷ actions) = (size + length bytes < 2 ^ 32) × Fits size actions
Fits size (cancels ∷ actions) = Fits size actions
Fits size (turns cb ∷ actions) = (size ≤ cb) × Fits size actions

received_bytes-cons :
    (o : Outcome) (os : List Outcome)
    → received_bytes (o ∷ os) ≡ received_bytes (o ∷ []) ++ received_bytes os
received_bytes-cons eof os = refl
received_bytes-cons aborted os = refl
received_bytes-cons spins os = refl
received_bytes-cons (delivered bytes) os = ap (λ b. b ++ received_bytes os) (sym (append-nil bytes))

-- What a run leaves, which adds `rest` to the bytes.
abbrev Delivers : MsStream → List ℕ → List ℕ → List Outcome × MsStream → Type 0
Delivers s sent rest r =
    Received r.1 (sent ++ rest)
    × (take s.position sent ++ received_bytes r.0 ≡ take r.1.position (sent ++ rest))

-- A write before the run.
later :
    (s s' : MsStream) (sent bytes rest : List ℕ) (r : List Outcome × MsStream)
    → s'.position ≡ s.position
    → s.position ≤ length sent
    → Delivers s' (sent ++ bytes) rest r
    → Delivers s sent (bytes ++ rest) r
later s s' sent bytes rest r same behind d =
    subst
      (λ all.
        Received r.1 all × (take s.position sent ++ received_bytes r.0 ≡ take r.1.position all))
      (append_assoc sent bytes rest)
      (
        d.0,
        ap (λ front. front ++ received_bytes r.0)
              (sym (take-append_le s.position sent bytes behind)
                ∙ ap (λ n. take n (sent ++ bytes)) (sym same))
            ∙ d.1,
      )

run-Delivers :
    (s : MsStream) (sent : List ℕ) (actions : List (Action ℕ))
    → Received s sent
    → Fits s.file_size actions
    → Ensures (Delivers s sent (accepted s.file_size (length sent) actions)) (run s actions)
unfolding run cancel
run-Delivers s sent [] v f = done _ (
  subst (Received s) (sym (append-nil sent)) v,
  append-nil (take s.position sent) ∙ ap (take s.position) (sym (append-nil sent)),
)
run-Delivers s sent (writes none ∷ actions) v f =
    rw (write_file_null s sent v) (run-Delivers s sent actions v f)
run-Delivers s sent (writes (some bytes) ∷ actions) v f =
    Ensures-bind (Accepts s sent bytes) _ _ _ (write_file-Accepts s sent bytes v f.0) λ s' p.
      Ensures-weaken
        (run-Delivers s' (sent ++ taken s.file_size (length sent) bytes) actions p.0
          (subst (λ size. Fits size actions) (sym p.2) f.1))
        λ r d. later s s' sent _ _ r p.1 v.behind (
          subst (λ rest. Delivers s' (sent ++ taken s.file_size (length sent) bytes) rest r)
            (ap₂ (λ size n. accepted size n actions) p.2
              (length-append sent (taken s.file_size (length sent) bytes)))
            d)
run-Delivers s sent (cancels ∷ actions) v f =
    run-Delivers (cancel s) sent actions (cancel-Received s sent v) f
run-Delivers s sent (turns cb ∷ actions) v f =
    Ensures-bind (Reads s sent) _ _ _ (read-Reads s sent cb v f.0) λ o p.
      Ensures-bind (Delivers o.1 sent (accepted s.file_size (length sent) actions)) _ _ _
        (subst
          (λ size.
            Ensures (Delivers o.1 sent (accepted size (length sent) actions)) (run o.1 actions))
          p.2 (run-Delivers o.1 sent actions p.0 (subst (λ size. Fits size actions) (sym p.2) f.1)))
        λ r d. done _ (
          d.0,
          ap (◌++◌ (take s.position sent)) (received_bytes-cons o.0 r.0)
              ∙ sym (
                  append_assoc (take s.position sent) (received_bytes (o.0 ∷ []))
                    (received_bytes r.0))
              ∙ ap (λ front. front ++ received_bytes r.0) p.1
              ∙ d.1,
        )

append_cancels :
    (p : ℕ) (xs ys zs : List ℕ) → xs ++ zs ≡ take p (xs ++ ys) → zs ≡ take (p - length xs) ys
append_cancels p [] ys zs e = e ∙ ap (λ n. take n ys) (omega arith)
append_cancels zero (x ∷ xs) ys zs e = absurd (omega (arith, ap length e))
append_cancels (suc p) (x ∷ xs) ys zs e =
    append_cancels p xs ys zs (ap (drop 1) e) ∙ ap (λ n. take n ys) (omega arith)

-- What the Reads copy that start behind every byte: a start of what is written after that.
pub later_reads :
    (s : MsStream) (sent : List ℕ) (size : ℕ) (actions : List (Action ℕ))
    → Received s sent
    → s.position ≡ length sent
    → s.file_size ≡ size
    → Fits size actions
    → Ensures
        (λ q.
          received_bytes q.0
          ≡ take (q.1.position - length sent) (accepted size (length sent) actions))
        (run s actions)
later_reads s sent size actions v caught e f =
    Ensures-weaken (run-Delivers s sent actions v (subst (λ n. Fits n actions) (sym e) f)) λ q d.
      append_cancels q.1.position sent (accepted s.file_size (length sent) actions)
        (received_bytes q.0)
        (ap (λ front. front ++ received_bytes q.0)
            (sym (take_all s.position sent (omega (arith, caught))))
          ∙ d.1)
      ∙ ap (λ n. take (q.1.position - length sent) (accepted n (length sent) actions)) e

-- A stream that could be mapped, after any WriteFile, Cancel and Read calls in any order, each
-- in one piece: no call has undefined behaviour, the invariant `Received` holds, which says that
-- the buffer starts with the bytes of the writes that did not exceed the size, in order, and
-- that a reader behind them finds the flag set unless the stream was cancelled; and the bytes
-- that the Reads copied out, one after the other, are these bytes up to the reader's position,
-- so that none is lost, repeated or out of order. The conditions: the file's low size fits a
-- DWORD and no sum with it wraps, and each Read has room for the file.
pub run-Received :
    (high low : ℕ) (actions : List (Action ℕ))
    → low < 2 ^ 32
    → Fits low actions
    → Ensures
        (λ r.
          Received r.1 (accepted low 0 actions)
          × (received_bytes r.0 ≡ take r.1.position (accepted low 0 actions)))
        (run (create true high low) actions)
unfolding create
run-Received high low actions small f =
    run-Delivers (create true high low) [] actions (create-Received high low small) f
