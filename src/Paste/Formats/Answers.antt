-- ===== src/Paste/Formats/Answers.antt =====
-- What the object for files answers a request.
use small_program.Base.{
  ◌==◌, take, ◌-◌, ℕ, zero, suc, ◌+◌, ◌<◌, ◌≤◌, ◌≡◌, ◌⊎◌, inl, inr, refl, sym, ap, ap₂, ◌∙◌, subst,
  List, [], ◌∷◌, Option, none, some, true, false, Bool-cases, length, if◌then◌else◌, arith, ok,
  Ensures, Ensures-of_eq,
}
use small_program.Paste.Formats.{
  Registered, FormatEtc, FileInfo, tymed_istream, tymed_hglobal, no_index, set_formatetc,
  contents_formats, file_formats, PasteType, paste_type_file, get_data_type, matches, find_format,
  get_data_index, is_some, query_get_data, max_path, FileDescriptor, Answer, no_format, image,
  descriptors, stream_of, describe, file_at, get_file_data, answer, get_data,
}

-- What a match says.
matches-eq :
    (pfe format : FormatEtc)
    → matches pfe format ≡ true
    → (pfe.cf_format ≡ format.cf_format) × (pfe.lindex ≡ format.lindex)
unfolding matches
matches-eq pfe format h = (ground (arith, h), ground (arith, h))

is_file :
    (pfe : FormatEtc) (id : ℕ)
    → 49152 ≤ id
    → pfe.cf_format ≡ id
    → get_data_type pfe ≡ paste_type_file
unfolding get_data_type
is_file pfe id h e = ground (arith, h, e)

-- How the search among the files' formats ends, from the file with number `i` on.
abbrev Search : Registered → FormatEtc → ℕ → ℕ → Option (PasteType × ℕ) → Type 0
Search ids pfe i n r =
    (r ≡ none)
    ⊎ ((pfe.cf_format ≡ ids.contents)
        × (i ≤ pfe.lindex)
        × (pfe.lindex < i + n)
        × (r ≡ some (paste_type_file, pfe.lindex + 1)))

find_format_head :
    (pfe format : FormatEtc) (formats : List FormatEtc) (i : ℕ)
    → find_format pfe i (format ∷ formats) ≡ (
        if matches pfe format then some (get_data_type pfe, i) else find_format pfe (i + 1) formats)
unfolding find_format
find_format_head pfe format formats i = refl

find_format-Search :
    (ids : Registered) (pfe : FormatEtc) (files : List FileInfo) (i : ℕ)
    → Search ids pfe i (length files) (find_format pfe (i + 1) (contents_formats ids i files))
unfolding find_format contents_formats set_formatetc
find_format-Search ids pfe [] i = inl refl
find_format-Search ids pfe (f ∷ fs) i =
    subst (λ r. Search ids pfe i (suc (length fs)) r)
      (sym (find_format_head pfe here later (i + 1)))
      (elim (Bool-cases (matches pfe here)) [
        | inl met ↦
            let (same_id, same_index) = matches-eq pfe here met in
            inr (
              same_id,
              omega (arith, same_index),
              omega (arith, same_index),
              rw met (
                  ap₂ (λ type n. some (type, n))
                    (is_file pfe ids.contents ids.contents-range same_id)
                    (omega (arith, same_index))),
            )
        | inr passed ↦ elim (find_format-Search ids pfe fs (i + 1)) [
          | inl nowhere ↦ inl (rw passed nowhere)
          | inr found ↦
              inr (found.0, omega (arith, found.1), omega (arith, found.2), rw passed found.3)
        ]
      ])
  where
    here : FormatEtc
    here = set_formatetc ids.contents tymed_istream i

    later : List FormatEtc
    later = contents_formats ids (i + 1) fs

-- Every name can be converted.
abbrev pub Converts : (List ℕ → Option (List ℕ)) → List FileInfo → Type 0
Converts wcstombs [] = Unit {0}
Converts wcstombs (f ∷ fs) =
    ((name : List ℕ) × (wcstombs f.file_name ≡ some name)) × Converts wcstombs fs

describe-ok :
    (wcstombs : List ℕ → Option (List ℕ)) (files : List FileInfo)
    → Converts wcstombs files
    → (entries : List FileDescriptor) × (describe wcstombs files ≡ ok entries)
unfolding describe
describe-ok wcstombs [] v = ([], refl)
describe-ok wcstombs (f ∷ fs) ((name, e), v) =
    let (entries, e') = describe-ok wcstombs fs v in
    (
      record {
        size_high = f.file_size_high;
        size_low = f.file_size_low;
        name = take (max_path - 1) name;
      }
          ∷ entries,
      rw (e, e') refl,
    )

-- A file's number finds the file.
file_at-lt :
    (files : List FileInfo) (i : ℕ) → i < length files → (f : FileInfo) × (file_at files i ≡ ok f)
unfolding file_at
file_at-lt [] i h = absurd (omega (arith, h))
file_at-lt (f ∷ fs) zero h = (f, refl)
file_at-lt (f ∷ fs) (suc i) h = file_at-lt fs i (omega (arith, h))

module _ (ids : Registered) (wcstombs : List ℕ → Option (List ℕ)) (files : List FileInfo)
    (pfe : FormatEtc) where
  -- What an answer says of the request.
  abbrev pub Answers : Answer → Type 0
  Answers no_format = query_get_data pfe (file_formats ids files) ≡ false
  Answers image = ⊥
  Answers (descriptors entries) =
      (query_get_data pfe (file_formats ids files) ≡ true)
      × (pfe.cf_format ≡ ids.descriptor)
      × (describe wcstombs files ≡ ok entries)
  Answers (stream_of f) =
      (query_get_data pfe (file_formats ids files) ≡ true)
      × (pfe.cf_format ≡ ids.contents)
      × (file_at files pfe.lindex ≡ ok f)

  -- Where GetDataIndex finds a request.
  Located : Option (PasteType × ℕ) → Type 0
  Located r =
      (r ≡ none)
      ⊎ (((pfe.cf_format ≡ ids.descriptor) × (r ≡ some (paste_type_file, 0)))
          ⊎ ((pfe.cf_format ≡ ids.contents)
              × (pfe.lindex < length files)
              × (r ≡ some (paste_type_file, pfe.lindex + 1))))

  get_data_index-Located : Located (get_data_index pfe (file_formats ids files))
  unfolding Located get_data_index file_formats
  get_data_index-Located =
      subst Located
        (sym (
          find_format_head pfe (set_formatetc ids.descriptor tymed_hglobal no_index)
            (contents_formats ids 0 files) 0))
        (elim (Bool-cases (matches pfe (set_formatetc ids.descriptor tymed_hglobal no_index))) [
          | inl met ↦
              let same_id =
                (matches-eq pfe (set_formatetc ids.descriptor tymed_hglobal no_index) met).0 in
              inr (
                inl (
                  same_id,
                  rw met (
                      ap (λ type. some (type, 0))
                        (is_file pfe ids.descriptor ids.descriptor-range same_id)),
                ))
          | inr passed ↦ elim (find_format-Search ids pfe files 0) [
            | inl nowhere ↦ inl (rw passed nowhere)
            | inr found ↦ inr (inr (found.0, omega (arith, found.2), rw passed found.3))
          ]
        ])

  get_file_data-stream :
      (f : FileInfo)
      → pfe.lindex < length files
      → file_at files pfe.lindex ≡ ok f
      → get_file_data wcstombs files pfe (pfe.lindex + 1) ≡ ok (stream_of f)
  unfolding get_file_data
  get_file_data-stream f h e = rw e (ground (arith, h))

  get_file_data-group :
      (entries : List FileDescriptor)
      → describe wcstombs files ≡ ok entries
      → get_file_data wcstombs files pfe 0 ≡ ok (descriptors entries)
  unfolding get_file_data
  get_file_data-group entries e = rw e refl

  -- The answer to every request, where every name can be converted.
  pub get_data-Answers :
      Converts wcstombs files
      → Ensures Answers (get_data wcstombs files (file_formats ids files) pfe)
  unfolding get_data query_get_data Located answer
  get_data-Answers v = elim get_data_index-Located [
    | inl nowhere ↦
        Ensures-of_eq no_format (ap (answer wcstombs files pfe) nowhere) (ap is_some nowhere)
    | inr (inl (same_id, e)) ↦
        let (entries, made) = describe-ok wcstombs files v in
        Ensures-of_eq (descriptors entries)
          (ap (answer wcstombs files pfe) e ∙ get_file_data-group entries made)
          (ap is_some e, same_id, made)
    | inr (inr (same_id, h, e)) ↦
        let (f, found) = file_at-lt files pfe.lindex h in
        Ensures-of_eq (stream_of f)
          (ap (answer wcstombs files pfe) e ∙ get_file_data-stream f h found)
          (ap is_some e, same_id, found)
  ]

  -- The request for the first file's contents.
  pub get_data-first :
      (f : FileInfo)
      → files ≡ f ∷ []
      → pfe ≡ set_formatetc ids.contents tymed_istream 0
      → get_data wcstombs files (file_formats ids files) pfe ≡ ok (stream_of f)
  unfolding get_data get_data_index file_formats contents_formats find_format matches set_formatetc
      answer get_file_data get_data_type file_at
  get_data-first f e e' = rw (e, e', other, same, file) refl
    where
      other : (ids.contents == ids.descriptor) ≡ false
      other = ground (arith, ids.distinct)

      same : (ids.contents == ids.contents) ≡ true
      same = ground arith

      file : (ids.contents == 8) ≡ false
      file = ground (arith, ids.contents-range)
