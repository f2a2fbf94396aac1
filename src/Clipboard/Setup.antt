-- ===== src/Clipboard/Setup.antt =====
-- The paste that SetupDstPasteFile begins, up to the answer to the request for its contents.
use small_program.Base.{ℕ, ◌+◌, ◌≡◌, refl, ap, List, [], ◌∷◌, Option, some, true, ok, ◌>>=◌}
use small_program.Paste.Stream.{MsStream}
use small_program.Paste.Stream
use small_program.Paste.Formats.{
  Registered, FormatEtc, FileInfo, paste_type_file, set_formatetc, tymed_istream, stream_of,
}
use small_program.Paste.Formats.Answers.{get_data-first}
use small_program.Paste.DataObject
use small_program.Paste.DataObject.{
  Counted, DataObject, at, put, on_stream, interface_of, get_interface, create_for_files,
}
use small_program.Clipboard.{
  MsPasteImpl, Clipboard, create, delete_impl, setup_paste_file, setup_dst_paste_file, request,
}

-- The program's request for the contents of the first file.
abbrev pub for_contents : Registered → FormatEtc
for_contents ids = set_formatetc ids.contents tymed_istream 0

module _ (ids : Registered) (file : FileInfo) (refs : ℕ) where
  -- The object that SetupDstPasteFile makes.
  abbrev pub new_file_object : DataObject
  new_file_object = record (create_for_files ids (file ∷ [])) { count = 1 + refs }

  abbrev pub new_impl : MsPasteImpl
  new_impl = record create {
    paste_type = some paste_type_file;
    is_inited = true;
    file_list = file ∷ [];
    cur_data_object = some new_file_object;
  }

  pub setup_dst_paste_file-new :
      (c : Clipboard)
      → delete_impl c ≡ ok tt
      → setup_dst_paste_file ids c file (some refs) ≡ ok (some new_impl)
  unfolding setup_dst_paste_file create_for_files create
  setup_dst_paste_file-new c h =
      ap
        (λ m.
          m >>= λ _. setup_paste_file ids create (file ∷ []) (some refs) >>= λ impl. ok (some impl))
        h

  -- The stream that answers the request, of the sizes that the object has.
  abbrev pub begun_object : DataObject
  begun_object = record new_file_object {
    cur_stream = some 0;
    heap =
        some
          (record { count = 1; stream = Stream.create true file.file_size_high file.file_size_low })
        ∷ [];
  }

  get_data-begun :
      (wcstombs : List ℕ → Option (List ℕ))
      → DataObject.get_data wcstombs new_file_object true (for_contents ids)
        ≡ ok (stream_of file, begun_object)
  unfolding small_program.Paste.DataObject.get_data create_for_files
  get_data-begun wcstombs =
      ap (λ m. m >>= λ a. DataObject.answered new_file_object true a >>= λ d'. ok (a, d'))
        (get_data-first ids wcstombs (file ∷ []) (for_contents ids) file refl refl)

  pub request-begun :
      (wcstombs : List ℕ → Option (List ℕ))
      → request wcstombs (some new_impl) true (for_contents ids)
        ≡ ok (some (record new_impl { cur_data_object = some begun_object }))
  unfolding request
  request-begun wcstombs =
      ap (λ m. m >>= λ r. ok (some (record new_impl { cur_data_object = some r.1 })))
        (get_data-begun wcstombs)
