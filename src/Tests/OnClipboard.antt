-- ===== src/Tests/OnClipboard.antt =====
-- The clipboard library: runs of its exported calls.
use small_program.Base.{
  ℕ, ◌≡◌, refl, List, [], ◌∷◌, Option, none, some, true, false, ok, err, undefined, Bool, ltb, ◌&&◌,
  if◌then◌else◌, ◌>>=◌,
}
use small_program.Paste.Formats.{FileInfo, paste_type_file}
use small_program.Tests.Data.{ids}
use small_program.Paste.DataObject.{create_for_files, event_type_recv_timeout}
use small_program.Clipboard.{
  drop_stream, end_paste, Clipboard, delete_impl, setup_dst_paste_file, request, on_event,
}
use small_program.Clipboard.Transfers.{kept}
use small_program.Clipboard.Setup.{for_contents, new_impl}
use small_program.Clipboard.Again.{setup_dst_paste_file-again}

abbrev a_file : FileInfo
a_file = record { file_name = 97 ∷ []; file_size_high = 0; file_size_low = 3 }

-- A piece, no data, a piece that is too long, and the rest.
abbrev some_pieces : List (Option (List ℕ))
some_pieces = some (1 ∷ 2 ∷ []) ∷ none ∷ some (7 ∷ 8 ∷ []) ∷ some (3 ∷ []) ∷ []

abbrev one_byte_names : List ℕ → Option (List ℕ)
one_byte_names name = if all_below name then some name else none
  where
    all_below : List ℕ → Bool
    all_below [] = true
    all_below (x ∷ xs) = ltb x 256 && all_below xs

-- A paste of another file, whose message loop has ended.
abbrev before : Clipboard
before = some (record {
  paste_type = some paste_type_file;
  is_inited = false;
  file_list = a_file ∷ [];
  pic_header = record { width = 0; height = 0; planes = 0; bit_count = 0; compression = 0 };
  data_size = 0;
  cur_data_object = some (create_for_files ids (a_file ∷ []));
})

before-deleted : delete_impl before ≡ ok tt
unfolding delete_impl create_for_files
before-deleted = refl

setup_dst_paste_file-again_example :
    ((setup_dst_paste_file ids before a_file (some 1) >>= λ c.
    request one_byte_names c true (for_contents ids) >>= λ c'.
    drop_stream c' 0 >>= λ c''. setup_dst_paste_file ids (end_paste c'' 1) a_file (some 1))
      ≡ err undefined)
    × ((setup_dst_paste_file ids before a_file (some 1) >>= λ c.
          request one_byte_names c true (for_contents ids) >>= λ c'.
          setup_dst_paste_file ids (end_paste c' 1) a_file (some 1))
        ≡ ok (some (new_impl ids a_file 1)))
setup_dst_paste_file-again_example =
    setup_dst_paste_file-again ids a_file 1 one_byte_names before a_file 1 before-deleted

-- Another paste while the message loop of the first one goes on.
setup-twice :
    (setup_dst_paste_file ids none a_file (some 1) >>= λ c.
    setup_dst_paste_file ids c a_file (some 1))
    ≡ err undefined
unfolding setup_dst_paste_file create_for_files
setup-twice = refl

kept-some_pieces : kept 3 0 some_pieces ≡ 1 ∷ 2 ∷ 3 ∷ []
kept-some_pieces = refl

-- An event when OLE could not be initialized.
on_event-no_object :
    (setup_dst_paste_file ids none a_file none >>= λ c. on_event c event_type_recv_timeout)
    ≡ err undefined
unfolding on_event setup_dst_paste_file
on_event-no_object = refl
