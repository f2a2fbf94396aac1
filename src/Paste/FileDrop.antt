-- ===== src/Paste/FileDrop.antt =====
-- data_sharing/clipboard/MSPaste/MSFileDrop.cpp: the question whether a file is accepted, and the
-- path that the answer has. The sum of the lengths is an int that does not overflow.
use small_program.Base.{
  ℕ, zero, suc, ◌+◌, ◌<◌, ◌≤◌, ◌≡◌, refl, sym, ap, ◌∙◌, List, [], ◌∷◌, ◌++◌, append_assoc, length,
  length-append, length-drop, length-replicate, drop, replicate, arith, Result, ok, err, undefined,
  dec_le, lt→leb, ◌>>=◌,
}
use small_program.Memory.{mem_write}
use small_program.Memory.Regions.{mem_write_front}

-- The end of a string: wcscat looks for it in the buffer, and not behind.
unfoldable pub wcslen : List ℕ → Result ℕ
wcslen [] = err undefined
wcslen (zero ∷ mem) = ok 0
wcslen (suc c ∷ mem) = do n ← wcslen mem; ok (suc n)

unfoldable pub wcscat : List ℕ → List ℕ → Result (List ℕ)
unfolding wcslen mem_write
wcscat mem s = do n ← wcslen mem; mem_write mem n (s ++ (0 ∷ []))

-- L"\\"
abbrev pub back_slash : List ℕ
back_slash = 92 ∷ []

-- wideCPath
unfoldable pub wide_path : List ℕ → List ℕ → Result (List ℕ)
unfolding wcscat
wide_path path name = do
  mem ← wcscat (replicate (length path + length name) 0) path
  mem' ← wcscat mem back_slash
  wcscat mem' name

-- IDOK with the path that the user selects, IDCANCEL, and no answer.
pub data Response : Type 0 where
  accepts : List ℕ → Response
  cancels closes : Response

-- FILE_DROP_ACCEPT with the path, FILE_DROP_CANCEL, or no command.
pub data Command : Type 0 where
  file_drop_accept : List ℕ → Command
  file_drop_cancel no_command : Command

unfoldable pub setup_dialog : Response → List ℕ → Result Command
unfolding wide_path
setup_dialog (accepts path) name = do mem ← wide_path path name; ok (file_drop_accept mem)
setup_dialog cancels name = ok file_drop_cancel
setup_dialog closes name = ok no_command

-- A string has no character 0.
abbrev pub IsWide : List ℕ → Type 0
IsWide [] = Unit {0}
IsWide (c ∷ cs) = (0 < c) × IsWide cs

IsWide-append : (xs ys : List ℕ) → IsWide xs → IsWide ys → IsWide (xs ++ ys)
IsWide-append [] ys h h' = h'
IsWide-append (x ∷ xs) ys h h' = (h.0, IsWide-append xs ys h.1 h')

wcslen-IsWide : (xs mem : List ℕ) → IsWide xs → wcslen (xs ++ (0 ∷ mem)) ≡ ok (length xs)
unfolding wcslen
wcslen-IsWide [] mem h = refl
wcslen-IsWide (zero ∷ xs) mem h = absurd (omega (arith, h.0))
wcslen-IsWide (suc c ∷ xs) mem h = ap (λ m. m >>= λ n. ok (suc n)) (wcslen-IsWide xs mem h.1)

-- A wcscat that has room, and one that has not.
wcscat_fits :
    (front mem s : List ℕ)
    → IsWide front
    → length s ≤ length mem
    → wcscat (front ++ (0 ∷ mem)) s ≡ ok ((front ++ s) ++ (0 ∷ drop (length s) mem))
unfolding wcscat
wcscat_fits front mem s h room =
    ap (λ m. m >>= λ n. mem_write (front ++ (0 ∷ mem)) n (s ++ (0 ∷ [])))
      (wcslen-IsWide front mem h)
    ∙ mem_write_front front (0 ∷ mem) (s ++ (0 ∷ [])) (length front) refl
        (omega (arith, room, length-append s (0 ∷ [])))
    ∙ ap ok (
        ap (λ rest. front ++ ((s ++ (0 ∷ [])) ++ rest)) (ap (λ n. drop n (0 ∷ mem)) with_end)
        ∙ ap (◌++◌ front) (append_assoc s (0 ∷ []) (drop (length s) mem))
        ∙ sym (append_assoc front s (0 ∷ drop (length s) mem)))
  where
    with_end : length (s ++ (0 ∷ [])) ≡ suc (length s)
    with_end = omega (arith, length-append s (0 ∷ []))

wcscat_overflows :
    (front mem s : List ℕ)
    → IsWide front
    → length mem < length s
    → wcscat (front ++ (0 ∷ mem)) s ≡ err undefined
unfolding wcscat mem_write
wcscat_overflows front mem s h over =
    ap (λ m. m >>= λ n. mem_write (front ++ (0 ∷ mem)) n (s ++ (0 ∷ [])))
      (wcslen-IsWide front mem h)
    ∙ rw
        (lt→leb (length front + length (s ++ (0 ∷ []))) (length (front ++ (0 ∷ mem)))
          (omega (arith, over, length-append s (0 ∷ []), length-append front (0 ∷ mem))))
        refl

-- The three calls of wcscat, behind the first one.
abbrev and_then : List ℕ → Result (List ℕ) → Result (List ℕ)
and_then name m = do mem ← m; mem' ← wcscat mem back_slash; wcscat mem' name

module _ (path name : List ℕ) (h : IsWide path) where
  behind_path :
      (mem : List ℕ)
      → length mem < length name
      → and_then name (ok (path ++ (0 ∷ mem))) ≡ err undefined
  behind_path mem small = elim (dec_le (length back_slash) (length mem)) [
    | no full ↦
        ap (λ m. m >>= λ mem'. wcscat mem' name)
          (wcscat_overflows path mem back_slash h (omega (arith, full)))
    | yes room ↦
        ap (λ m. m >>= λ mem'. wcscat mem' name) (wcscat_fits path mem back_slash h room)
        ∙ wcscat_overflows (path ++ back_slash) (drop (length back_slash) mem) name
            (IsWide-append path back_slash h (omega arith, tt))
            (omega (arith, small, length-drop (length back_slash) mem))
  ]

  wide_path_overflows :
      (n : ℕ)
      → n ≡ length path + length name
      → and_then name (wcscat (replicate n 0) path) ≡ err undefined
  unfolding wcscat wcslen
  wide_path_overflows zero e = refl
  wide_path_overflows (suc k) e = elim (dec_le (length path) k) [
    | no full ↦ ap (and_then name) (
        wcscat_overflows [] (replicate k 0) path tt
          (omega (arith, full, length-replicate {A = ℕ} k 0)))
    | yes room ↦
        ap (and_then name) (
          wcscat_fits [] (replicate k 0) path tt
            (omega (arith, room, length-replicate {A = ℕ} k 0)))
        ∙ behind_path (drop (length path) (replicate k 0)) (
            omega (
              arith,
              e,
              room,
              length-drop (length path) (replicate {A = ℕ} k 0),
              length-replicate {A = ℕ} k 0,
            ))
  ]

  -- Every drop of a file that the user accepts writes behind the buffer for its path, whatever
  -- path the user selects and whatever name the file has; the path has no character 0.
  pub setup_dialog_overflows : setup_dialog (accepts path) name ≡ err undefined
  unfolding setup_dialog wide_path
  setup_dialog_overflows =
      ap (λ m. m >>= λ mem. ok (file_drop_accept mem))
        (wide_path_overflows (length path + length name) refl)
