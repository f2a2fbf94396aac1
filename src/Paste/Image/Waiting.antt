-- ===== src/Paste/Image/Waiting.antt =====
-- An image handler that has taken some bytes, and what a write adds to them.
use small_program.Base.{
  ℕ, ◌+◌, ◌%◌, ◌^◌, ◌<◌, ◌≤◌, ◌≡◌, refl, sym, ap, ◌∙◌, subst, List, [], ◌∷◌, ◌++◌, append-nil,
  append_assoc, some, none, true, false, le→ltb, lt→ltb, le→leb, lt→leb, length, drop, replicate,
  length-append, length-replicate, length-drop, arith, ok, Ensures, done, Ensures-of_eq, dec_le,
}
use small_program.Base.Words.{length-to_little_endian}
use small_program.Memory.Regions.{mem_write_front}
use small_program.Paste.Transfer.{taken}
use small_program.Paste.Image.{
  ImageHeader, MsImgHandler, create, data_shift, header_size, bitmap_info, set_up, store_data,
  write_to, write_file,
}

-- The handler has taken the bytes `sent`, and its loop is not past them. Where it is behind them
-- it finds the flag set. Nothing was cancelled.
pub record Filling (s : MsImgHandler) (header : ImageHeader) (sent : List ℕ) : Type 0 where
  pub after : List ℕ
  pub view : s.dib ≡ some ((bitmap_info header ++ sent) ++ after)
  pub progress : s.progress_size ≡ length sent
  pub behind : s.position ≤ length sent
  pub fits : length sent ≤ s.file_size
  pub room : s.file_size ≡ length sent + length after
  pub small : s.file_size < 2 ^ 32
  pub woken : s.position < length sent → s.wait_data_flag ≡ true
  pub alive : s.cancelled ≡ false

pub length-bitmap_info : (h : ImageHeader) → length (bitmap_info h) ≡ data_shift
unfolding bitmap_info
length-bitmap_info h = omega (
  arith,
  length-append {0},
  length-to_little_endian 4 header_size,
  length-to_little_endian 4 h.width,
  length-to_little_endian 4 h.height,
  length-to_little_endian 2 h.planes,
  length-to_little_endian 2 h.bit_count,
  length-to_little_endian 4 h.compression,
)

front_length :
    (h : ImageHeader) (sent : List ℕ) → length (bitmap_info h ++ sent) ≡ data_shift + length sent
front_length h sent = omega (arith, length-append (bitmap_info h) sent, length-bitmap_info h)

pub set_up-Filling :
    (file_size : ℕ) (header : ImageHeader)
    → data_shift + file_size < 2 ^ 32
    → Ensures
        (λ s. Filling s header [] × (s.file_size ≡ file_size))
        (set_up (create file_size header))
unfolding set_up create
set_up-Filling file_size header small =
    rw
      (mem_write_front [] (replicate ((data_shift + file_size) % 2 ^ 32) 0) (bitmap_info header) 0
        refl
        (omega (
          arith,
          small,
          length-replicate {A = ℕ} ((data_shift + file_size) % 2 ^ 32) 0,
          length-bitmap_info header,
        )))
      (done _ (
        record {
          after = rest;
          view = ap some (ap (λ front. front ++ rest) (sym (append-nil (bitmap_info header))));
          progress = refl;
          behind = omega arith;
          fits = omega arith;
          room = room;
          small = omega arith;
          woken = λ b. absurd (omega (arith, b));
          alive = refl;
        },
        refl,
      ))
  where
    memory : List ℕ
    memory = replicate ((data_shift + file_size) % 2 ^ 32) 0

    rest : List ℕ
    rest = drop (length (bitmap_info header)) memory

    room : file_size ≡ 0 + length rest
    room = omega (
      arith,
      small,
      length-drop (length (bitmap_info header)) memory,
      length-replicate {A = ℕ} ((data_shift + file_size) % 2 ^ 32) 0,
      length-bitmap_info header,
    )

module _ (header : ImageHeader) where
  -- A write that fits.
  written : (s : MsImgHandler) (sent : List ℕ) → Filling s header sent → List ℕ → MsImgHandler
  written s sent v bytes = record s {
    dib = some ((bitmap_info header ++ sent) ++ (bytes ++ drop (length bytes) v.after));
    progress_size = (s.progress_size + length bytes) % 2 ^ 32;
    wait_data_flag = true;
  }

  written-Filling :
      (s : MsImgHandler) (sent bytes : List ℕ) (v : Filling s header sent)
      → length sent + length bytes ≤ s.file_size
      → Filling (written s sent v bytes) header (sent ++ bytes)
  unfolding written
  written-Filling s sent bytes v h = record {
    after = drop (length bytes) v.after;
    view = ap some (
        sym (append_assoc (bitmap_info header ++ sent) bytes (drop (length bytes) v.after))
        ∙ ap (λ front. front ++ drop (length bytes) v.after)
            (append_assoc (bitmap_info header) sent bytes));
    progress = omega (arith, v.progress, v.small, length-append sent bytes);
    behind = omega (arith, v.behind, length-append sent bytes);
    fits = omega (arith, length-append sent bytes);
    room = omega (arith, v.room, length-append sent bytes, length-drop (length bytes) v.after);
    small = v.small;
    woken = λ b. refl;
    alive = v.alive;
  }

  store_data-eq :
      (s : MsImgHandler) (sent bytes : List ℕ) (v : Filling s header sent)
      → s.file_size + length bytes < 2 ^ 32
      → length sent + length bytes ≤ s.file_size
      → store_data s ((bitmap_info header ++ sent) ++ v.after) bytes ≡ ok (written s sent v bytes)
  unfolding store_data written
  store_data-eq s sent bytes v h fit = rw (
    le→ltb s.file_size ((s.progress_size + length bytes) % 2 ^ 32)
        (omega (arith, v.progress, v.small)),
    mem_write_front (bitmap_info header ++ sent) v.after bytes (data_shift + s.progress_size)
        (omega (arith, v.progress, front_length header sent)) (omega (arith, v.room)),
  )

  store_data_full :
      (s : MsImgHandler) (mem sent bytes : List ℕ)
      → Filling s header sent
      → s.file_size + length bytes < 2 ^ 32
      → s.file_size < length sent + length bytes
      → store_data s mem bytes ≡ ok s
  unfolding store_data
  store_data_full s mem sent bytes v h full = rw (
      lt→ltb s.file_size ((s.progress_size + length bytes) % 2 ^ 32)
        (omega (arith, v.progress, v.fits, full)))

  -- What a write leaves, and what it adds to the bytes.
  abbrev pub Accepts : MsImgHandler → List ℕ → List ℕ → MsImgHandler → Type 0
  Accepts s sent bytes s' =
      Filling s' header (sent ++ taken s.file_size (length sent) bytes)
      × (s'.file_size ≡ s.file_size)

  store_data-Accepts :
      (s : MsImgHandler) (sent bytes : List ℕ) (v : Filling s header sent)
      → s.file_size + length bytes < 2 ^ 32
      → Ensures
          (Accepts s sent bytes)
          (store_data s ((bitmap_info header ++ sent) ++ v.after) bytes)
  unfolding written
  store_data-Accepts s sent bytes v h = elim (dec_le (length sent + length bytes) s.file_size) [
    | yes fit ↦ Ensures-of_eq (written s sent v bytes) (store_data-eq s sent bytes v h fit) (
        rw (le→leb (length sent + length bytes) s.file_size fit)
          (written-Filling s sent bytes v fit, refl))
    | no full ↦
        Ensures-of_eq s
          (store_data_full s ((bitmap_info header ++ sent) ++ v.after) sent bytes v h
            (omega (arith, full)))
          (rw
            (lt→leb (length sent + length bytes) s.file_size (omega (arith, full)), append-nil sent)
            (v, refl))
  ]

  pub write_file-Accepts :
      (s : MsImgHandler) (sent bytes : List ℕ)
      → Filling s header sent
      → s.file_size + length bytes < 2 ^ 32
      → Ensures (Accepts s sent bytes) (write_file s (some bytes))
  unfolding write_file write_to
  write_file-Accepts s sent [] v h =
      Ensures-of_eq s (ap (λ b. write_to s b (some [])) v.view) (
        rw (le→leb (length sent + 0) s.file_size (omega (arith, v.fits)), append-nil sent)
          (v, refl))
  write_file-Accepts s sent (x ∷ xs) v h =
      subst (Ensures (Accepts s sent (x ∷ xs)))
        (sym (ap (λ b. write_to s b (some (x ∷ xs))) v.view))
        (store_data-Accepts s sent (x ∷ xs) v h)

  pub write_file_null :
      (s : MsImgHandler) (sent : List ℕ) → Filling s header sent → write_file s none ≡ ok s
  unfolding write_file write_to
  write_file_null s sent v = ap (λ b. write_to s b none) v.view
