-- ===== src/FileName.antt =====
-- CommonUtils::getFileNameByPath of windows_clipboard/common/common_utils.cpp.
use small_program.Base.{
  ℕ, ◌≡◌, ◌≢◌, refl, sym, ap, ◌∙◌, List, [], ◌∷◌, ◌++◌, Option, none, some, false, ◌==◌, ==_iff,
  if◌then◌else◌, arith, Build, Result, ok, ◌>>◌, q_assert,
}
use small_program.Message.Qt.{
  Qt, QString, QByteArray, IsAscii, IsAscii-HasNoNul, c_string, c_string-eq,
}

-- '/' and '\\'.
abbrev pub slash : ℕ
slash = 47

abbrev pub backslash : ℕ
backslash = 92

-- What stands behind the last such byte: find_last_of and substr.
unfoldable pub after_last : ℕ → List ℕ → Option (List ℕ)
after_last mark [] = none
after_last mark (x ∷ xs) =
    let rest = after_last mark xs in
    elim rest [ some name ↦ some name | none ↦ if x == mark then some xs else none ]

-- One of the two `do`s: the name that was found, as a C string, or what comes after.
abbrev found : Qt → Option QByteArray → Result QString → Result QString
found qt (some name) next = ok (qt.from_utf8 (c_string name))
found qt none next = next

module _ (build : Build) (qt : Qt) where
  unfoldable pub get_file_name_by_path : QString → Result QString
  get_file_name_by_path path =
      found qt (after_last slash (qt.to_utf8 path))
        (found qt (after_last backslash (qt.to_utf8 path)) (do q_assert build false; ok path))

-- None of the code units is the mark.
abbrev pub IsWithout : ℕ → List ℕ → Type 0
IsWithout mark [] = Unit {0}
IsWithout mark (x ∷ xs) = (x ≢ mark) × IsWithout mark xs

-- The name at the end of a path: behind the last slash, or behind the last backslash of a path
-- that has no slash.
pub data Named : QString → QString → Type 0 where
  slashed :
      {name : QString} (folder : QString)
      → IsWithout slash name
      → Named (folder ++ slash ∷ name) name
  backslashed :
      {name : QString} (folder : QString)
      → IsWithout slash (folder ++ backslash ∷ name)
      → IsWithout backslash name
      → Named (folder ++ backslash ∷ name) name

after_last-IsWithout : (mark : ℕ) (xs : List ℕ) → IsWithout mark xs → after_last mark xs ≡ none
unfolding after_last
after_last-IsWithout mark [] h = refl
after_last-IsWithout mark (x ∷ xs) h =
    rw (after_last-IsWithout mark xs h.1) (ground (arith, h.0, ==_iff x mark))

after_last-append :
    (mark : ℕ) (folder name : List ℕ)
    → IsWithout mark name
    → after_last mark (folder ++ mark ∷ name) ≡ some name
unfolding after_last
after_last-append mark [] name h =
    rw (after_last-IsWithout mark name h) (ground (arith, ==_iff mark mark))
after_last-append mark (x ∷ folder) name h = rw (after_last-append mark folder name h)

IsAscii-back : (xs ys : List ℕ) → IsAscii (xs ++ ys) → IsAscii ys
IsAscii-back [] ys h = h
IsAscii-back (x ∷ xs) ys h = IsAscii-back xs ys h.2

module _ (build : Build) (qt : Qt) where
  back_to_text : (name : QString) → IsAscii name → qt.from_utf8 (c_string name) ≡ name
  back_to_text name h =
      ap qt.from_utf8 (c_string-eq name (IsAscii-HasNoNul name h) ∙ sym (qt.to_utf8_ascii name h))
      ∙ qt.from_utf8-to_utf8 name (qt.IsAscii-IsText name h)

  pub get_file_name_by_path-slash :
      (folder name : QString)
      → IsAscii (folder ++ slash ∷ name)
      → IsWithout slash name
      → get_file_name_by_path build qt (folder ++ slash ∷ name) ≡ ok name
  unfolding get_file_name_by_path
  get_file_name_by_path-slash folder name ascii plain = rw (
    qt.to_utf8_ascii (folder ++ slash ∷ name) ascii,
    after_last-append slash folder name plain,
    back_to_text name (IsAscii-back folder (slash ∷ name) ascii).2,
  )

  get_file_name_by_path-backslash :
      (folder name : QString)
      → IsAscii (folder ++ backslash ∷ name)
      → IsWithout slash (folder ++ backslash ∷ name)
      → IsWithout backslash name
      → get_file_name_by_path build qt (folder ++ backslash ∷ name) ≡ ok name
  unfolding get_file_name_by_path
  get_file_name_by_path-backslash folder name ascii none_of plain = rw (
    qt.to_utf8_ascii (folder ++ backslash ∷ name) ascii,
    after_last-IsWithout slash (folder ++ backslash ∷ name) none_of,
    after_last-append backslash folder name plain,
    back_to_text name (IsAscii-back folder (backslash ∷ name) ascii).2,
  )

  get_file_name_by_path-bare :
      (name : QString)
      → IsAscii name
      → IsWithout slash name
      → IsWithout backslash name
      → get_file_name_by_path build qt name ≡ (do q_assert build false; ok name)
  unfolding get_file_name_by_path
  get_file_name_by_path-bare name ascii no_slash no_backslash = rw (
    qt.to_utf8_ascii name ascii,
    after_last-IsWithout slash name no_slash,
    after_last-IsWithout backslash name no_backslash,
  )

  -- getFileNameByPath of an ASCII path returns what stands behind its last slash, also where
  -- that has backslashes, and for a path without a slash what stands behind its last backslash;
  -- this is for paths that have one of the two.
  pub get_file_name_by_path_lem :
      (path name : QString)
      → IsAscii path
      → Named path name
      → get_file_name_by_path build qt path ≡ ok name
  get_file_name_by_path_lem _ name h (slashed folder plain) =
      get_file_name_by_path-slash folder name h plain
  get_file_name_by_path_lem _ name h (backslashed folder none_of plain) =
      get_file_name_by_path-backslash folder name h none_of plain
