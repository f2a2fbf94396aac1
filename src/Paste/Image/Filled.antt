-- ===== src/Paste/Image/Filled.antt =====
-- The image that GetImg gives, whatever the threads' order.
use small_program.Base.{
  nil_of_length, ℕ, ◌+◌, ◌^◌, ◌<◌, ◌≤◌, ◌≡◌, refl, sym, ap, ap₂, ◌∙◌, subst, List, [], ◌∷◌, ◌++◌,
  append-nil, append_assoc, some, none, Bool, true, false, Bool-cases, inl, inr, length,
  length-append, arith, ok, Ensures, Ensures-bind, Ensures-of_eq, dec_lt,
}
use small_program.Paste.Transfer.{Action, writes, cancels, turns, taken, accepted}
use small_program.Paste.Image.{
  ImageHeader, MsImgHandler, create, data_shift, bitmap_info, Checked, goes_on, ends, spins, check,
  after_check, wait_img, get_img,
}
use small_program.Paste.Image.Waiting.{
  Filling, set_up-Filling, Accepts, write_file-Accepts, write_file_null,
}

-- Nothing is cancelled, and the sizes do not wrap.
abbrev pub IsSteady : ℕ → List (Action (Unit {0})) → Type 0
IsSteady size [] = Unit {0}
IsSteady size (writes none ∷ actions) = IsSteady size actions
IsSteady size (writes (some bytes) ∷ actions) =
    (size + length bytes < 2 ^ 32) × IsSteady size actions
IsSteady size (cancels ∷ actions) = ⊥
IsSteady size (turns _ ∷ actions) = IsSteady size actions

-- The image is whole.
abbrev pub IsFilled : ImageHeader → List ℕ → Bool × MsImgHandler → Type 0
IsFilled header sent r = (r.0 ≡ true) × (r.1.dib ≡ some (bitmap_info header ++ sent))

-- The handler after a Check that goes on.
checked : MsImgHandler → MsImgHandler
checked s = record s { wait_data_flag = false; position = s.progress_size }

check-ends : (s : MsImgHandler) → s.file_size ≤ s.position → check s ≡ (ends, s)
unfolding check
check-ends s h = ground (arith, h)

check_spins :
    (s : MsImgHandler) → s.position < s.file_size → s.wait_data_flag ≡ false → check s ≡ (spins, s)
unfolding check
check_spins s h unset = ground (arith, h, unset)

check_goes_on :
    (s : MsImgHandler)
    → s.position < s.file_size
    → s.wait_data_flag ≡ true
    → s.cancelled ≡ false
    → check s ≡ (goes_on, checked s)
unfolding check checked
check_goes_on s h set alive = ground (arith, h, set, alive)

turn :
    (s : MsImgHandler) (actions : List (Action (Unit {0}))) (c : Checked) (s' : MsImgHandler)
    → check s ≡ (c, s')
    → wait_img s (turns tt ∷ actions) ≡ after_check c (ok (true, s')) (wait_img s' actions)
unfolding wait_img
turn s actions c s' e = ap (λ r. after_check r.0 (ok (true, r.1)) (wait_img r.1 actions)) e

module _ (header : ImageHeader) where
  checked-Filling :
      (s : MsImgHandler) (sent : List ℕ) → Filling s header sent → Filling (checked s) header sent
  unfolding checked
  checked-Filling s sent v = record {
    after = v.after;
    view = v.view;
    progress = v.progress;
    behind = omega (arith, v.progress);
    fits = v.fits;
    room = v.room;
    small = v.small;
    woken = λ b. absurd (omega (arith, b, v.progress));
    alive = v.alive;
  }

  -- With all the bytes there is nothing behind them.
  whole-view :
      (s : MsImgHandler) (sent : List ℕ)
      → Filling s header sent
      → length sent ≡ s.file_size
      → s.dib ≡ some (bitmap_info header ++ sent)
  whole-view s sent v full =
      v.view
      ∙ ap some (
          ap (◌++◌ (bitmap_info header ++ sent))
            (nil_of_length v.after (omega (arith, full, v.room)))
          ∙ append-nil (bitmap_info header ++ sent))

  -- A Check of a handler whose loop has seen all the bytes.
  turn-IsFilled :
      (s : MsImgHandler) (sent : List ℕ) (rest : List (Action (Unit {0})))
      → Filling s header sent
      → s.file_size ≤ s.position
      → Ensures (IsFilled header sent) (wait_img s (turns tt ∷ rest))
  turn-IsFilled s sent rest v end =
      Ensures-of_eq (true, s) (turn s rest ends s (check-ends s end))
        (refl, whole-view s sent v (omega (arith, end, v.behind, v.fits)))

  -- A Check of a handler with all the bytes, and one more.
  two_turns-IsFilled :
      (s : MsImgHandler) (sent : List ℕ)
      → Filling s header sent
      → length sent ≡ s.file_size
      → Ensures (IsFilled header sent) (wait_img s (turns tt ∷ turns tt ∷ []))
  unfolding checked
  two_turns-IsFilled s sent v full = elim (dec_lt s.position s.file_size) [
    | no end ↦ turn-IsFilled s sent (turns tt ∷ []) v (omega (arith, end))
    | yes more ↦
        subst (Ensures (IsFilled header sent))
          (sym (
            turn s (turns tt ∷ []) goes_on (checked s)
              (check_goes_on s more (v.woken (omega (arith, full, more))) v.alive)))
          (turn-IsFilled (checked s) sent [] (checked-Filling s sent v)
            (omega (arith, v.progress, full)))
  ]

  wait_img-IsFilled :
      (s : MsImgHandler) (sent : List ℕ) (actions : List (Action (Unit {0})))
      → Filling s header sent
      → IsSteady s.file_size actions
      → length sent + length (accepted s.file_size (length sent) actions) ≡ s.file_size
      → Ensures
          (IsFilled header (sent ++ accepted s.file_size (length sent) actions))
          (wait_img s (actions ++ turns tt ∷ turns tt ∷ []))
  unfolding wait_img checked
  wait_img-IsFilled s sent [] v f full =
      subst (λ all. Ensures (IsFilled header all) (wait_img s (turns tt ∷ turns tt ∷ [])))
        (sym (append-nil sent)) (two_turns-IsFilled s sent v (omega (arith, full)))
  wait_img-IsFilled s sent (writes none ∷ actions) v f full =
      rw (write_file_null header s sent v) (wait_img-IsFilled s sent actions v f full)
  wait_img-IsFilled s sent (writes (some bytes) ∷ actions) v f full =
      Ensures-bind (Accepts header s sent bytes) _ _ _
        (write_file-Accepts header s sent bytes v f.0)
        λ s' p.
          subst
            (λ all.
              Ensures (IsFilled header all) (wait_img s' (actions ++ turns tt ∷ turns tt ∷ [])))
            (append_assoc sent (taken s.file_size (length sent) bytes) _
              ∙ ap (λ rest. sent ++ (taken s.file_size (length sent) bytes ++ rest))
                  (counted s' p.1))
            (wait_img-IsFilled s' (sent ++ taken s.file_size (length sent) bytes) actions p.0
              (subst (λ size. IsSteady size actions) (sym p.1) f.1)
              (omega (
                arith,
                full,
                p.1,
                ap length (counted s' p.1),
                length-append sent (taken s.file_size (length sent) bytes),
                length-append (taken s.file_size (length sent) bytes) (
                    accepted s.file_size
                      (length sent + length (taken s.file_size (length sent) bytes)) actions),
              )))
    where
      counted :
          (s' : MsImgHandler)
          → s'.file_size ≡ s.file_size
          → accepted s'.file_size (length (sent ++ taken s.file_size (length sent) bytes)) actions
            ≡ accepted s.file_size
                (length sent + length (taken s.file_size (length sent) bytes))
                actions
      counted s' e =
          ap₂ (λ size n. accepted size n actions) e
            (length-append sent (taken s.file_size (length sent) bytes))
  wait_img-IsFilled s sent (cancels ∷ actions) v f full = elim f [ ]
  wait_img-IsFilled s sent (turns _ ∷ actions) v f full = elim (dec_lt s.position s.file_size) [
    | no end ↦
        subst
          (λ all.
            Ensures (IsFilled header all)
              (wait_img s (turns tt ∷ (actions ++ turns tt ∷ turns tt ∷ []))))
          (nothing_more (omega (arith, end, v.behind, v.fits)))
          (turn-IsFilled s sent (actions ++ turns tt ∷ turns tt ∷ []) v (omega (arith, end)))
    | yes more ↦ elim (Bool-cases s.wait_data_flag) [
      | inr unset ↦
          subst (Ensures (IsFilled header (sent ++ accepted s.file_size (length sent) actions)))
            (sym (turn s (actions ++ turns tt ∷ turns tt ∷ []) spins s (check_spins s more unset)))
            (wait_img-IsFilled s sent actions v f full)
      | inl set ↦
          subst (Ensures (IsFilled header (sent ++ accepted s.file_size (length sent) actions)))
            (sym (
              turn s (actions ++ turns tt ∷ turns tt ∷ []) goes_on (checked s)
                (check_goes_on s more set v.alive)))
            (wait_img-IsFilled (checked s) sent actions (checked-Filling s sent v) f full)
    ]
  ]
    where
      nothing_more :
          length sent ≡ s.file_size → sent ≡ sent ++ accepted s.file_size (length sent) actions
      nothing_more e =
          sym (append-nil sent)
          ∙ ap (◌++◌ sent) (
              sym (
                nil_of_length (accepted s.file_size (length sent) actions)
                  (omega (arith, e, full))))

-- If the writes, none cancelled, hand over all the bytes of an image, then GetImg, whose loop
-- has had two more turns after them, has returned, however its turns fall among the writes, and
-- the memory is the BITMAPINFO of the image's header followed by these bytes, in order. The
-- conditions: the size with the header fits 32 bits, and no sum of the size and a write wraps.
pub get_img-IsFilled :
    (file_size : ℕ) (header : ImageHeader) (actions : List (Action (Unit {0})))
    → data_shift + file_size < 2 ^ 32
    → IsSteady file_size actions
    → length (accepted file_size 0 actions) ≡ file_size
    → Ensures
        (IsFilled header (accepted file_size 0 actions))
        (get_img (create file_size header) (actions ++ turns tt ∷ turns tt ∷ []))
unfolding get_img
get_img-IsFilled file_size header actions small steady full =
    Ensures-bind (λ s. Filling s header [] × (s.file_size ≡ file_size)) _ _ _
      (set_up-Filling file_size header small)
      λ s p.
        subst
          (λ size.
            Ensures (IsFilled header (accepted size 0 actions))
              (wait_img s (actions ++ turns tt ∷ turns tt ∷ [])))
          p.1
          (wait_img-IsFilled header s [] actions p.0
            (subst (λ size. IsSteady size actions) (sym p.1) steady)
            (omega (arith, ap (λ size. length (accepted size 0 actions)) p.1, full, p.1)))
