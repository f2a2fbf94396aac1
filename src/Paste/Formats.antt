-- ===== src/Paste/Formats.antt =====
-- data_sharing/clipboard/MSPaste/MSDataObject.cpp: which of the formats that the object offers a
-- request asks for, and what `GetData` answers. UINT, DWORD and LONG are words of 32 bits; the
-- medium of a format has one bit.
pub mod Answers
use small_program.Base.{
  ℕ, zero, suc, ◌+◌, ◌-◌, ◌/◌, ◌%◌, ◌^◌, ◌<◌, ◌≤◌, ◌≢◌, List, [], ◌∷◌, Option, none, some, Bool,
  true, false, ltb, leb, ◌==◌, ◌&&◌, length, take, if◌then◌else◌, Result, ok, err, undefined, ◌>>=◌,
}

-- RegisterClipboardFormat of the names that the code gives: two numbers of the range that Windows
-- keeps for registered formats.
pub record Registered : Type 0 where
  pub descriptor : ℕ
  pub contents : ℕ
  pub descriptor-range : 49152 ≤ descriptor
  pub contents-range : 49152 ≤ contents
  pub distinct : descriptor ≢ contents

-- CF_DIB, TYMED_HGLOBAL, TYMED_ISTREAM, DVASPECT_CONTENT, MAX_PATH, and the LONG -1.
abbrev pub cf_dib : ℕ
cf_dib = 8

abbrev pub tymed_hglobal : ℕ
tymed_hglobal = 1

abbrev pub tymed_istream : ℕ
tymed_istream = 4

abbrev pub dvaspect_content : ℕ
dvaspect_content = 1

abbrev pub max_path : ℕ
max_path = 260

abbrev pub no_index : ℕ
no_index = 2 ^ 32 - 1

pub record FormatEtc : Type 0 where
  pub cf_format : ℕ
  pub tymed : ℕ
  pub lindex : ℕ
  pub dw_aspect : ℕ

unfoldable pub set_formatetc : ℕ → ℕ → ℕ → FormatEtc
set_formatetc cf tymed lindex = record {
  cf_format = cf;
  tymed = tymed;
  lindex = lindex;
  dw_aspect = dvaspect_content;
}

pub record FileInfo : Type 0 where
  pub file_name : List ℕ
  pub file_size_high : ℕ
  pub file_size_low : ℕ

-- The loop of the constructor over the files, from the one with number `i` on.
unfoldable pub contents_formats : Registered → ℕ → List FileInfo → List FormatEtc
unfolding set_formatetc
contents_formats ids i [] = []
contents_formats ids i (f ∷ fs) =
    set_formatetc ids.contents tymed_istream i ∷ contents_formats ids (i + 1) fs

-- The formats of an object for files, and for an image.
unfoldable pub file_formats : Registered → List FileInfo → List FormatEtc
unfolding contents_formats
file_formats ids files =
    set_formatetc ids.descriptor tymed_hglobal no_index ∷ contents_formats ids 0 files

unfoldable pub image_formats : List FormatEtc
unfolding set_formatetc
image_formats = set_formatetc cf_dib tymed_hglobal no_index ∷ []

pub data PasteType : Type 0 where
  paste_type_file paste_type_dib : PasteType

unfoldable pub get_data_type : FormatEtc → PasteType
get_data_type pfe = if pfe.cf_format == cf_dib then paste_type_dib else paste_type_file

-- The test of the loop of GetDataIndex; `&` with a medium of one bit tests that bit.
unfoldable pub matches : FormatEtc → FormatEtc → Bool
matches pfe format =
    (pfe.cf_format == format.cf_format)
    && (((pfe.tymed / format.tymed) % 2 == 1)
        && ((pfe.dw_aspect == format.dw_aspect) && (pfe.lindex == format.lindex)))

-- The loop of GetDataIndex, from the format with number `i` on.
unfoldable pub find_format : FormatEtc → ℕ → List FormatEtc → Option (PasteType × ℕ)
unfolding matches get_data_type
find_format pfe i [] = none
find_format pfe i (format ∷ formats) =
    let rest = find_format pfe (i + 1) formats in
    if matches pfe format then some (get_data_type pfe, i) else rest

unfoldable pub get_data_index : FormatEtc → List FormatEtc → Option (PasteType × ℕ)
unfolding find_format
get_data_index pfe formats = find_format pfe 0 formats

abbrev pub is_some : {A : Type 0} → Option A → Bool
is_some none = false
is_some (some a) = true

-- QueryGetData: S_OK or S_FALSE.
unfoldable pub query_get_data : FormatEtc → List FormatEtc → Bool
unfolding get_data_index
query_get_data pfe formats = is_some (get_data_index pfe formats)

-- An entry of the FILEGROUPDESCRIPTOR.
pub record FileDescriptor : Type 0 where
  pub size_high : ℕ
  pub size_low : ℕ
  pub name : List ℕ

-- What GetData answers: DV_E_FORMATETC, the descriptors of the files, the stream of a file, or the
-- image.
pub data Answer : Type 0 where
  no_format image : Answer
  descriptors : List FileDescriptor → Answer
  stream_of : FileInfo → Answer

-- The name that StringCchCopy copies; a name that wcstombs does not convert leaves cvtChar without
-- a value.
abbrev pub copied_name : Option (List ℕ) → Result (List ℕ)
copied_name none = err undefined
copied_name (some name) = ok (take (max_path - 1) name)

-- The loop over the files, with what wcstombs makes of a name, `none` where it fails.
unfoldable pub describe : (List ℕ → Option (List ℕ)) → List FileInfo → Result (List FileDescriptor)
describe wcstombs [] = ok []
describe wcstombs (f ∷ fs) = do
  name ← copied_name (wcstombs f.file_name)
  rest ← describe wcstombs fs
  ok (record { size_high = f.file_size_high; size_low = f.file_size_low; name = name } ∷ rest)

-- A file of the list by its number, which operator[] does not check.
unfoldable pub file_at : List FileInfo → ℕ → Result FileInfo
file_at [] i = err undefined
file_at (f ∷ fs) zero = ok f
file_at (f ∷ fs) (suc i) = file_at fs i

-- GetFileData, but for what it does to the object; the memory for the descriptors can be allocated.
unfoldable pub get_file_data :
    (List ℕ → Option (List ℕ)) → List FileInfo → FormatEtc → ℕ → Result Answer
unfolding describe file_at
get_file_data wcstombs files pfe idx =
    let group = describe wcstombs files >>= λ entries. ok (descriptors entries) in
    let stream = file_at files pfe.lindex >>= λ f. ok (stream_of f) in
    if idx == 0 then group else (if leb idx (length files) then stream else ok no_format)

-- GetData behind GetDataIndex, and GetData: which answer it gives.
unfoldable pub answer :
    (List ℕ → Option (List ℕ)) → List FileInfo → FormatEtc → Option (PasteType × ℕ) → Result Answer
unfolding get_file_data
answer wcstombs files pfe none = ok no_format
answer wcstombs files pfe (some (paste_type_file, idx)) = get_file_data wcstombs files pfe idx
answer wcstombs files pfe (some (paste_type_dib, idx)) = ok image

unfoldable pub get_data :
    (List ℕ → Option (List ℕ)) → List FileInfo → List FormatEtc → FormatEtc → Result Answer
unfolding answer get_data_index
get_data wcstombs files formats pfe = answer wcstombs files pfe (get_data_index pfe formats)
