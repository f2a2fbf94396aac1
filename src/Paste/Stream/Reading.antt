-- ===== src/Paste/Stream/Reading.antt =====
-- What a Read gives of the bytes that were taken.
use small_program.Base.{
  ℕ, ◌+◌, ◌-◌, ◌%◌, ◌^◌, ◌<◌, ◌≤◌, ◌≡◌, refl, sym, ap, ◌∙◌, List, [], ◌∷◌, ◌++◌, append-nil, some,
  true, false, Bool-cases, inl, inr, le→leb, length, take, drop, take_all, take-append-drop, arith,
  ok, Ensures, Ensures-of_eq, dec_lt,
}
use small_program.Memory.Regions.{mem_read_rest}
use small_program.Paste.Stream.{
  MsStream, cancel, Outcome, eof, aborted, spins, delivered, copy_out, read,
}
use small_program.Paste.Stream.Received.{Received}

-- The bytes that the Reads return.
abbrev pub received_bytes : List Outcome → List ℕ
received_bytes [] = []
received_bytes (eof ∷ outcomes) = received_bytes outcomes
received_bytes (aborted ∷ outcomes) = received_bytes outcomes
received_bytes (spins ∷ outcomes) = received_bytes outcomes
received_bytes (delivered bytes ∷ outcomes) = bytes ++ received_bytes outcomes

copied : MsStream → List ℕ → MsStream
copied s sent = record s { position = length sent; wait_data_flag = false }

copy_out-eq :
    (s : MsStream) (sent : List ℕ) (cb : ℕ) (v : Received s sent)
    → s.file_size ≤ cb
    → copy_out cb s (some (sent ++ v.after)) ≡ ok (delivered (drop s.position sent), copied s sent)
unfolding copy_out copied
copy_out-eq s sent cb v enough = rw (
  v.progress,
  size,
  le→leb (length sent - s.position) cb (omega (arith, v.fits)),
  mem_read_rest sent v.after s.position v.behind,
)
  where
    size : (length sent + 2 ^ 32 - s.position) % 2 ^ 32 ≡ length sent - s.position
    size = omega (arith, v.behind, v.fits, v.small)

copied-Received : (s : MsStream) (sent : List ℕ) → Received s sent → Received (copied s sent) sent
unfolding copied
copied-Received s sent v = record {
  after = v.after;
  view = v.view;
  progress = v.progress;
  behind = omega arith;
  fits = v.fits;
  room = v.room;
  small = v.small;
  woken = λ c b. absurd (omega (arith, b));
}

pub read_copies :
    (s : MsStream) (cb : ℕ)
    → s.position < s.file_size
    → s.wait_data_flag ≡ true
    → s.cancelled ≡ false
    → read cb s ≡ copy_out cb s s.buffer
unfolding read
read_copies s cb more flag alive = ground (arith, more, flag, alive)

-- A Read of a stream with the invariant `Received`, which is not cancelled, whose position is
-- behind the bytes that have arrived, and which has room for the file, does not wait: it returns
-- all the bytes from the position on, and moves the position to their end.
pub read_behind :
    (s : MsStream) (sent : List ℕ) (cb : ℕ)
    → Received s sent
    → s.cancelled ≡ false
    → s.position < length sent
    → s.file_size ≤ cb
    → read cb s
      ≡ ok (
        delivered (drop s.position sent),
        record s { position = length sent; wait_data_flag = false },
      )
unfolding copied read
read_behind s sent cb v alive more enough =
    read_copies s cb (omega (arith, v.fits, more)) (v.woken alive more) alive
    ∙ ap (copy_out cb s) v.view
    ∙ copy_out-eq s sent cb v enough

-- What a Read does to what was received, and to the reader's place in it.
abbrev pub Reads : MsStream → List ℕ → Outcome × MsStream → Type 0
Reads s sent r =
    Received r.1 sent
    × (take s.position sent ++ received_bytes (r.0 ∷ []) ≡ take r.1.position sent)
    × (r.1.file_size ≡ s.file_size)

pub read_eof : (s : MsStream) (cb : ℕ) → s.file_size ≤ s.position → read cb s ≡ ok (eof, s)
unfolding read
read_eof s cb h = ground (arith, h)

pub read_spins :
    (s : MsStream) (cb : ℕ)
    → s.position < s.file_size
    → s.wait_data_flag ≡ false
    → read cb s ≡ ok (spins, s)
unfolding read
read_spins s cb more flag = ground (arith, more, flag)

pub read_aborted :
    (s : MsStream) (cb : ℕ)
    → s.position < s.file_size
    → s.wait_data_flag ≡ true
    → s.cancelled ≡ true
    → read cb s ≡ ok (aborted, record s { wait_data_flag = false })
unfolding read
read_aborted s cb more flag gone = ground (arith, more, flag, gone)

aborted-Received :
    (s : MsStream) (sent : List ℕ)
    → Received s sent
    → s.cancelled ≡ true
    → Received (record s { wait_data_flag = false }) sent
aborted-Received s sent v gone = record {
  after = v.after;
  view = v.view;
  progress = v.progress;
  behind = v.behind;
  fits = v.fits;
  room = v.room;
  small = v.small;
  woken = λ alive b. cc;
}

pub cancel-Received : (s : MsStream) (sent : List ℕ) → Received s sent → Received (cancel s) sent
unfolding cancel
cancel-Received s sent v = record {
  after = v.after;
  view = v.view;
  progress = v.progress;
  behind = v.behind;
  fits = v.fits;
  room = v.room;
  small = v.small;
  woken = λ alive b. refl;
}

copied-Reads :
    (s : MsStream) (sent : List ℕ)
    → Received s sent
    → Reads s sent (delivered (drop s.position sent), copied s sent)
unfolding copied
copied-Reads s sent v = (
  copied-Received s sent v,
  ap (◌++◌ (take s.position sent)) (append-nil (drop s.position sent))
      ∙ take-append-drop s.position sent
      ∙ sym (take_all (length sent) sent (omega arith)),
  refl,
)

pub read-Reads :
    (s : MsStream) (sent : List ℕ) (cb : ℕ)
    → Received s sent
    → s.file_size ≤ cb
    → Ensures (Reads s sent) (read cb s)
read-Reads s sent cb v enough = elim (dec_lt s.position s.file_size) [
  | no end ↦
      Ensures-of_eq _ (read_eof s cb (omega (arith, end)))
        (v, append-nil (take s.position sent), refl)
  | yes more ↦ elim (Bool-cases s.wait_data_flag) [
    | inr unset ↦
        Ensures-of_eq _ (read_spins s cb more unset) (v, append-nil (take s.position sent), refl)
    | inl set ↦ elim (Bool-cases s.cancelled) [
      | inl gone ↦
          Ensures-of_eq _ (read_aborted s cb more set gone)
            (aborted-Received s sent v gone, append-nil (take s.position sent), refl)
      | inr alive ↦
          Ensures-of_eq _
            (read_copies s cb more set alive
              ∙ ap (copy_out cb s) v.view
              ∙ copy_out-eq s sent cb v enough)
            (copied-Reads s sent v)
    ]
  ]
]
