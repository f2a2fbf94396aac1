-- ===== src/Tests/OnDataObject.antt =====
-- The clipboard's data object and its file drop: runs of requests, of the life of a stream, and of the
-- dialog.
use small_program.Base.{
  ℕ, List, Option, ltb, if◌then◌else◌, ◌+◌, ◌≡◌, ◌≤◌, refl, [], ◌∷◌, some, none, true, false, arith,
  ok, err, undefined, Ensures,
}
use small_program.Paste.Stream.{MsStream, eof, create}
use small_program.Paste.Formats.{FileInfo, FormatEtc, file_formats, get_data, stream_of}
use small_program.Paste.FileDrop.{setup_dialog, accepts, setup_dialog_overflows}
use small_program.Paste.DataObject.{
  Heap, release, DataObject, release_obj, open_stream, create_for_files, write_file, event_handle,
  event_type_recv_timeout, read, put, at,
}
use small_program.Paste.DataObject
use small_program.Tests.Data.{ids}
use small_program.Paste.DataObject.Lifetimes.{open_stream-released, read-last}

abbrev a_file : FileInfo
a_file = record { file_name = 97 ∷ []; file_size_high = 0; file_size_low = 3 }

abbrev b_file : FileInfo
b_file = record { file_name = 98 ∷ []; file_size_high = 0; file_size_low = 0 }

abbrev for_second : FormatEtc
for_second = record { cf_format = 49153; tymed = 5; lindex = 1; dw_aspect = 1 }

-- Names of bytes; another name is not converted.
abbrev one_byte_names : List ℕ → Option (List ℕ)
one_byte_names [] = some []
one_byte_names (x ∷ xs) =
    let rest = one_byte_names xs in if ltb x 256 then prefixed x rest else none
  where
    prefixed : ℕ → Option (List ℕ) → Option (List ℕ)
    prefixed x none = none
    prefixed x (some xs) = some (x ∷ xs)

-- An object for two files, whose first file is being pasted.
abbrev two_files : DataObject
two_files = record (create_for_files ids (a_file ∷ b_file ∷ [])) {
  cur_stream = some 0;
  heap = some (record { count = 2; stream = create true 0 3 }) ∷ [];
}

abbrev two_files_released : DataObject
two_files_released = record (create_for_files ids (a_file ∷ b_file ∷ [])) {
  heap = some (record { count = 1; stream = create true 0 3 }) ∷ [];
}

-- The same without the object.
get_data-second :
    get_data one_byte_names
      (a_file ∷ b_file ∷ [])
      (file_formats ids (a_file ∷ b_file ∷ []))
      for_second
    ≡ ok (stream_of b_file)
unfolding get_data file_formats
get_data-second = refl

abbrev one_file : DataObject
one_file = create_for_files ids (a_file ∷ [])

one_file-release : release_obj one_file ≡ ok one_file
unfolding release_obj create_for_files
one_file-release = refl

open_stream-released_example :
    Ensures
      (λ r.
        (h : Heap) × (release r.1.heap r.0 ≡ ok h)
        × (write_file (record r.1 { heap = h }) (some (1 ∷ [])) ≡ err undefined)
        × (event_handle (record r.1 { heap = h }) event_type_recv_timeout ≡ err undefined)
        × (release_obj (record r.1 { heap = h }) ≡ err undefined))
      (open_stream one_file true a_file)
open_stream-released_example =
    open_stream-released one_file one_file true a_file (some (1 ∷ [])) event_type_recv_timeout
      one_file-release

-- An object with a stream at its end, to which the program has a reference of its own.
abbrev at_end : MsStream
at_end = create false 0 0

abbrev shared : DataObject
shared = record one_file {
  cur_stream = some 0;
  img_handler = none;
  heap = some (record { count = 2; stream = at_end }) ∷ [];
}

shared-at : at shared.heap 0 ≡ ok (record { count = 1 + 1; stream = at_end })
unfolding at
shared-at = refl

at_end-size : at_end.file_size ≤ at_end.position
unfolding create
at_end-size = omega arith

read-last_example :
    read shared 0 8
    ≡ ok (
      eof,
      record shared {
        cur_stream = none;
        img_handler = none;
        heap = put shared.heap 0 (some (record { count = 1; stream = at_end }));
      },
    )
read-last_example = read-last shared 0 8 1 at_end refl shared-at (omega arith) at_end-size

setup_dialog_overflows_example :
    setup_dialog (accepts (67 ∷ 58 ∷ [])) (97 ∷ 98 ∷ 99 ∷ []) ≡ err undefined
setup_dialog_overflows_example =
    setup_dialog_overflows (67 ∷ 58 ∷ []) (97 ∷ 98 ∷ 99 ∷ []) (omega arith, (omega arith, tt))
