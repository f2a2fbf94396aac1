-- ===== src/TestServer/Progress.antt =====
-- The reports of a file: a hundred, and then none.
use small_program.Base.{
  ℕ, ◌+◌, ◌*◌, ◌^◌, ◌<◌, ◌≤◌, ◌≡◌, refl, sym, ap, ◌∙◌, subst, List, [], ◌∷◌, ◌++◌, append-nil, none,
  some, true, false, leb, le→leb, lt→leb, dec_le, if◌then◌else◌, length, arith, Build, ok, ◌>>=◌,
  Ensures, Ensures-bind, Ensures-of_eq, Ensures-ok, done,
}
use small_program.Message.Qt.{Qt, QByteArray}
use small_program.Message.Serialise.{frame}
use small_program.Message.Fields.{IsEndpoint, IsCarried}
use small_program.Message.Progress as ProgressMsg
use small_program.Message.Progress.{UpdateProgressMsg, IsSendable}
use small_program.TestServer.{TestServer, Pace, Timeout, report, send_progress_data, timeouts}

module _ (pace : Pace) (qt : Qt) (build : Build) (msg : UpdateProgressMsg) where
  -- Bytes that read as the report of a file: its endpoint, name and size, and a sent size that is
  -- the whole size in the hundredth report, and not above it where the file has a hundred bytes.
  abbrev pub Reports : ℕ → Timeout → QByteArray → Type 0
  Reports val t bytes =
      (old : UpdateProgressMsg)
      → (got : UpdateProgressMsg) × (ProgressMsg.from_byte_array qt build bytes old
          ≡ ok (true, got))
        × (got.endpoint ≡ msg.endpoint)
        × (got.file_name ≡ msg.file_name)
        × (got.file_size ≡ t.size)
        × (val ≡ 100 → got.sent_size ≡ t.size)
        × (100 ≤ t.size → got.sent_size ≤ t.size)

  -- The timeouts with the reports of each, from a value on up to a hundred.
  abbrev pub AllReports : ℕ → List Timeout → List QByteArray → Type 0
  AllReports val [] sent = sent ≡ []
  AllReports val (t ∷ ts) sent =
      if leb 100 val
      then sent ≡ []
      else ((bytes : QByteArray) × (rest : List QByteArray) × (sent ≡ bytes ∷ rest)
          × Reports (val + 1) t bytes
          × AllReports (val + 1) ts rest)

  -- The sizes of a file and the time are words of 64 bits.
  abbrev pub Timely : List Timeout → Type 0
  Timely [] = Unit {0}
  Timely (t ∷ ts) = (t.size < 2 ^ 63) × (t.now < 2 ^ 64) × Timely ts

  -- The sent size of a report.
  sent_size-le :
      (val : ℕ) (t : Timeout)
      → val < 100
      → ((val + 1 ≡ 100 → (report pace qt build msg (val + 1) t).sent_size ≡ t.size)
          × (100 ≤ t.size → (report pace qt build msg (val + 1) t).sent_size ≤ t.size)
          × (t.size < 2 ^ 63 → (report pace qt build msg (val + 1) t).sent_size < 2 ^ 64))
  sent_size-le val t h = elim (dec_le 100 (val + 1)) [
    | yes last ↦ rw (le→leb 100 (val + 1) last) (λ z. refl, λ z. omega arith, λ z. omega (arith, z))
    | no part ↦ rw (lt→leb 100 (val + 1) (omega (arith, part))) (
      λ z. absurd (omega (arith, z, part)),
      λ z. pace.sent_part (val + 1) t.size (omega (arith, part)) z,
      λ z. elim (dec_le 100 t.size) [
        | yes large ↦ omega (arith, z, pace.sent_part (val + 1) t.size (omega (arith, part)) large)
        | no small ↦ omega (arith, h, pace.sent_small (val + 1) t.size (omega (arith, small)))
      ],
    )
  ]

  report-Reports :
      (val : ℕ) (t : Timeout)
      → IsEndpoint qt msg.endpoint
      → IsCarried qt msg.file_name
      → val < 100
      → t.size < 2 ^ 63
      → t.now < 2 ^ 64
      → Ensures
          (Reports (val + 1) t)
          (ProgressMsg.to_byte_array qt build (report pace qt build msg (val + 1) t))
  report-Reports val t e n h size now =
      Ensures-of_eq (framed) (ProgressMsg.progress-frame qt build sent v) λ old. (
        ProgressMsg.delivered sent (76 + 2 * length msg.file_name),
        sym (ap (λ bytes. ProgressMsg.from_byte_array qt build bytes old) (append-nil framed))
            ∙ (Ensures-ok (
                subst (Ensures _) (ProgressMsg.progress-frame qt build sent v)
                  (ProgressMsg.progress_round_trip qt build sent old [] v (omega arith)))).0,
        refl,
        refl,
        refl,
        (sent_size-le val t h).0,
        (sent_size-le val t h).1,
      )
    where
      sent : UpdateProgressMsg
      sent = report pace qt build msg (val + 1) t

      v : IsSendable qt sent
      v = record {
        tagged = refl;
        endpoint = e;
        size_bound = omega (arith, size);
        sent_bound = (sent_size-le val t h).2 size;
        time_bound = now;
        name = n;
      }

      framed : QByteArray
      framed = frame sent.header_info.type sent.header_info.code (ProgressMsg.content qt sent v)

  -- The server between two timeouts.
  abbrev pub reporting : TestServer → ℕ → TestServer
  reporting s val = record s {
    timer = true;
    cache_progress_val = val;
    cache_progress_msg = some msg;
  }

  abbrev finished : TestServer → ℕ → TestServer
  finished s val = record s { timer = false; cache_progress_val = val; cache_progress_msg = none }

  timeouts-finished :
      (s : TestServer) (val : ℕ) (ts : List Timeout)
      → timeouts pace qt build (finished s val) ts ≡ ok (finished s val, [])
  unfolding timeouts
  timeouts-finished s val [] = refl
  timeouts-finished s val (t ∷ ts) =
      ap (λ m. m >>= λ rest. ok (rest.0, [] ++ rest.1)) (timeouts-finished s val ts)

  -- The reports, and the end of the timer where the timeouts go on after the hundredth.
  abbrev pub Ends : ℕ → List Timeout → TestServer × List QByteArray → Type 0
  Ends val ts r =
      AllReports val ts r.1
      × (100 < val + length ts → (r.0.timer ≡ false) × (r.0.cache_progress_msg ≡ none))

  none_then : (val : ℕ) (t : Timeout) (ts : List Timeout) → 100 ≤ val → AllReports val (t ∷ ts) []
  none_then val t ts full = rw (le→leb 100 val full) refl

  one_then :
      (val : ℕ) (t : Timeout) (ts : List Timeout) (bytes : QByteArray) (rest : List QByteArray)
      → val < 100
      → Reports (val + 1) t bytes
      → AllReports (val + 1) ts rest
      → AllReports val (t ∷ ts) (bytes ∷ rest)
  one_then val t ts bytes rest more v x = rw (lt→leb 100 val more) (bytes, rest, refl, v, x)

  pub timeouts-Ends :
      (s : TestServer) (val : ℕ) (ts : List Timeout)
      → IsEndpoint qt msg.endpoint
      → IsCarried qt msg.file_name
      → val ≤ 100
      → Timely ts
      → Ensures (Ends val ts) (timeouts pace qt build (reporting s val) ts)
  unfolding timeouts send_progress_data
  timeouts-Ends s val [] e n h d = done _ (refl, λ z. absurd (omega (arith, h, z)))
  timeouts-Ends s val (t ∷ ts) e n h d = elim (dec_le 100 val) [
    | yes full ↦
        rw (le→leb 100 val full, timeouts-finished s val ts)
          (done _ (none_then val t ts full, λ z. (refl, refl)))
    | no more ↦ rw (lt→leb 100 val (omega (arith, more))) (
        Ensures-bind Sent _ _ _
          (Ensures-bind (Reports (val + 1) t) Sent _ _
            (report-Reports val t e n (omega (arith, more)) d.0 d.1)
            λ bytes v. done _ (bytes, refl, v))
          λ r w.
            subst
              (λ q.
                Ensures (Ends val (t ∷ ts))
                  (timeouts pace qt build q.0 ts >>= λ rest. ok (rest.0, q.1 ++ rest.1)))
              (sym w.1)
              (Ensures-bind (Ends (val + 1) ts) _ _ _
                (timeouts-Ends s (val + 1) ts e n (omega (arith, more)) d.2)
                λ q x. done _ (
                  one_then val t ts w.0 q.1 (omega (arith, more)) w.2 x.0,
                  λ z. x.1 (omega (arith, z)),
                )))
  ]
    where
      Sent : TestServer × List QByteArray → Type 0
      Sent r =
          (bytes : QByteArray) × (r ≡ (reporting s (val + 1), bytes ∷ []))
          × Reports (val + 1) t bytes
