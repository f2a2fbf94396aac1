-- ===== src/Clipboard/Again.antt =====
-- A paste behind another.
use small_program.Base.{
  ℕ, ◌≡◌, refl, ap, ◌∙◌, List, [], ◌∷◌, Option, none, some, true, ok, err, undefined, ◌>>=◌,
}
use small_program.Paste.Formats.{Registered, FileInfo}
use small_program.Paste.DataObject.{at, create_for_files}
use small_program.Clipboard.Setup.{
  for_contents, new_impl, begun_object, setup_dst_paste_file-new, request-begun,
}
use small_program.Clipboard.{
  drop_stream, end_paste, Clipboard, create, delete_impl, setup_paste_file, setup_dst_paste_file,
  request,
}

module _ (ids : Registered) (file : FileInfo) (refs : ℕ) where
  -- The paste whose stream was handed out.
  abbrev begun : Clipboard
  begun =
      some (record (new_impl ids file refs) { cur_data_object = some (begun_object ids file refs) })

  -- The same with its stream deleted.
  abbrev begun_without : Clipboard
  begun_without = some (record (new_impl ids file refs) {
    cur_data_object = some (record (begun_object ids file refs) { heap = none ∷ [] });
  })

  drop_stream-begun : drop_stream begun 0 ≡ ok begun_without
  unfolding drop_stream
  drop_stream-begun = refl

  delete_impl-without : delete_impl (end_paste begun_without 1) ≡ err undefined
  unfolding delete_impl end_paste create_for_files at
  delete_impl-without = refl

  delete_impl-begun : delete_impl (end_paste begun 1) ≡ ok tt
  unfolding delete_impl end_paste create_for_files
  delete_impl-begun = refl

  undeleted :
      (c' : Clipboard) (file' : FileInfo) (refs' : ℕ)
      → delete_impl c' ≡ err undefined
      → setup_dst_paste_file ids c' file' (some refs') ≡ err undefined
  unfolding setup_dst_paste_file
  undeleted c' file' refs' h =
      ap
        (λ m. m >>= λ _.
          setup_paste_file ids create (file' ∷ []) (some refs') >>= λ impl. ok (some impl))
        h

  -- A paste of a file, whose contents the program asks for, and whose message loop ends, with
  -- the library's reference to the data object left, and then the paste of another file: where
  -- the program has released the stream that it got, by its one Release, the second
  -- SetupDstPasteFile is undefined, since the delete of the first paste has the object release
  -- the stream again; where it has not, the second paste begins as the first did. The
  -- conditions: the paste before the first could be deleted, OLE could be initialized each time,
  -- and the file mapped.
  pub setup_dst_paste_file-again :
      (wcstombs : List ℕ → Option (List ℕ)) (c : Clipboard) (file' : FileInfo) (refs' : ℕ)
      → delete_impl c ≡ ok tt
      → ((setup_dst_paste_file ids c file (some refs) >>= λ c₁.
            request wcstombs c₁ true (for_contents ids) >>= λ c₂.
            drop_stream c₂ 0 >>= λ c₃. setup_dst_paste_file ids (end_paste c₃ 1) file' (some refs'))
          ≡ err undefined)
        × ((setup_dst_paste_file ids c file (some refs) >>= λ c₁.
              request wcstombs c₁ true (for_contents ids) >>= λ c₂.
              setup_dst_paste_file ids (end_paste c₂ 1) file' (some refs'))
            ≡ ok (some (new_impl ids file' refs')))
  setup_dst_paste_file-again wcstombs c file' refs' deleted = (
    ap
          (λ m. m >>= λ c₁. request wcstombs c₁ true (for_contents ids) >>= λ c₂.
            drop_stream c₂ 0 >>= λ c₃. setup_dst_paste_file ids (end_paste c₃ 1) file' (some refs'))
          (setup_dst_paste_file-new ids file refs c deleted)
        ∙ ap
            (λ m. m >>= λ c₂. drop_stream c₂ 0 >>= λ c₃.
              setup_dst_paste_file ids (end_paste c₃ 1) file' (some refs'))
            (request-begun ids file refs wcstombs)
        ∙ ap (λ m. m >>= λ c₃. setup_dst_paste_file ids (end_paste c₃ 1) file' (some refs'))
            drop_stream-begun
        ∙ undeleted (end_paste begun_without 1) file' refs' delete_impl-without,
    ap
          (λ m. m >>= λ c₁. request wcstombs c₁ true (for_contents ids) >>= λ c₂.
            setup_dst_paste_file ids (end_paste c₂ 1) file' (some refs'))
          (setup_dst_paste_file-new ids file refs c deleted)
        ∙ ap (λ m. m >>= λ c₂. setup_dst_paste_file ids (end_paste c₂ 1) file' (some refs'))
            (request-begun ids file refs wcstombs)
        ∙ setup_dst_paste_file-new ids file' refs' (end_paste begun 1) delete_impl-begun,
  )
