-- ===== src/Clipboard.antt =====
-- data_sharing/clipboard/clipboard.cpp and MSPaste/MSPasteImpl.cpp: the calls that start a paste and
-- pass on what arrives, up to the message loop of a paste, which OLE's requests come through.
pub mod Setup
pub mod Transfers
pub mod Again
pub mod Listener
pub mod Monitor
use small_program.Base.{
  ℕ, ◌+◌, List, [], ◌∷◌, Option, none, some, Bool, true, false, ◌==◌, if◌then◌else◌, Result, ok,
  err, undefined, ◌>>=◌, ◌>>◌,
}
use small_program.Paste.Image.{ImageHeader}
use small_program.Paste.Formats.{
  Registered, FormatEtc, FileInfo, PasteType, paste_type_file, paste_type_dib,
}
use small_program.Paste.DataObject
use small_program.Paste.DataObject.{
  DataObject, create_for_files, create_for_image, release_object, get_data, EventType,
}

-- `paste_type` is `none` for PASTE_TYPE_UNKNOWN.
pub record MsPasteImpl : Type 0 where
  pub paste_type : Option PasteType
  pub is_inited : Bool
  pub file_list : List FileInfo
  pub pic_header : ImageHeader
  pub data_size : ℕ
  pub cur_data_object : Option DataObject

unfoldable pub create : MsPasteImpl
create = record {
  paste_type = none;
  is_inited = false;
  file_list = [];
  pic_header = record { width = 0; height = 0; planes = 0; bit_count = 0; compression = 0 };
  data_size = 0;
  cur_data_object = none;
}

abbrev pub release_current : Option DataObject → Result (Unit {0})
unfolding release_object
release_current none = ok tt
release_current (some d) = do _ ← release_object d; ok tt

unfoldable pub release_obj : MsPasteImpl → Result MsPasteImpl
unfolding release_current
release_obj impl = do
  _ ← release_current impl.cur_data_object
  ok (record impl { cur_data_object = none })

-- The object that SetOleClipboard makes, for the type, the files, and the size and header of the
-- image.
abbrev pub new_object :
    Registered → Option PasteType → List FileInfo → ℕ → ImageHeader → Option DataObject
unfolding create_for_files create_for_image
new_object ids none files size header = none
new_object ids (some paste_type_file) [] size header = none
new_object ids (some paste_type_file) (f ∷ fs) size header = some (create_for_files ids (f ∷ fs))
new_object ids (some paste_type_dib) files size header =
    if size == 0 then none else some (create_for_image size header)

-- OleSetClipboard, which takes so many references, none where it fails.
abbrev pub shared_with : ℕ → Option DataObject → Option DataObject
shared_with refs none = none
shared_with refs (some d) = some (record d { count = d.count + refs })

-- SetOleClipboard
unfoldable pub set_ole_clipboard : Registered → MsPasteImpl → ℕ → Result MsPasteImpl
unfolding release_obj new_object
set_ole_clipboard ids impl refs = do
  impl' ← release_obj impl
  ok (record impl' {
    cur_data_object =
        shared_with refs
          (new_object ids impl.paste_type impl.file_list impl.data_size impl.pic_header);
  })

-- InitOle up to its message loop; `none` where OleInitialize fails, and else what OLE takes.
unfoldable pub init_ole : Registered → MsPasteImpl → Option ℕ → Result MsPasteImpl
unfolding set_ole_clipboard
init_ole ids impl none = ok impl
init_ole ids impl (some refs) = set_ole_clipboard ids (record impl { is_inited = true }) refs

-- ReleaseOle, at the end of the message loop, with the references that OLE leaves to the object.
unfoldable pub release_ole : MsPasteImpl → ℕ → MsPasteImpl
release_ole impl count =
    if impl.is_inited
    then record impl { is_inited = false; cur_data_object = counted count impl.cur_data_object }
    else impl
  where
    counted : ℕ → Option DataObject → Option DataObject
    counted count none = none
    counted count (some d) = some (record d { count = count })

abbrev pub begin_files : Registered → MsPasteImpl → List FileInfo → Option ℕ → Result MsPasteImpl
unfolding init_ole
begin_files ids impl [] ole = ok impl
begin_files ids impl (f ∷ fs) ole = init_ole ids impl ole

-- SetupPasteFile and SetupPasteImage.
unfoldable pub setup_paste_file :
    Registered → MsPasteImpl → List FileInfo → Option ℕ → Result MsPasteImpl
unfolding begin_files
setup_paste_file ids impl files ole =
    begin_files ids (record impl { paste_type = some paste_type_file; file_list = files }) files ole

unfoldable pub setup_paste_image :
    Registered → MsPasteImpl → ImageHeader → ℕ → Option ℕ → Result MsPasteImpl
unfolding init_ole
setup_paste_image ids impl header size ole =
    let impl' = record impl {
      paste_type = some paste_type_dib;
      pic_header = header;
      data_size = size;
    } in
    if size == 0 then ok impl' else init_ole ids impl' ole

-- WriteFile and EventHandle of the current object.
unfoldable pub write_to : MsPasteImpl → Option DataObject → Option (List ℕ) → Result MsPasteImpl
unfolding small_program.Paste.DataObject.write_file
write_to impl none bytes = ok impl
write_to impl (some d) bytes = do
  d' ← DataObject.write_file d bytes
  ok (record impl { cur_data_object = some d' })

unfoldable pub write_file : MsPasteImpl → Option (List ℕ) → Result MsPasteImpl
unfolding write_to
write_file impl bytes = write_to impl impl.cur_data_object bytes

unfoldable pub event_to : MsPasteImpl → Option DataObject → EventType → Result MsPasteImpl
unfolding small_program.Paste.DataObject.event_handle
event_to impl none event = err undefined
event_to impl (some d) event = do
  d' ← DataObject.event_handle d event
  ok (record impl { cur_data_object = some d' })

unfoldable pub event_handle : MsPasteImpl → EventType → Result MsPasteImpl
unfolding event_to
event_handle impl event = event_to impl impl.cur_data_object event

-- `msPasteImpl`, `none` for NULL.
abbrev pub Clipboard : Type 0
Clipboard = Option MsPasteImpl

-- `delete msPasteImpl`, which is undefined while the message loop of its paste goes on, since the
-- loop reads mIsInited again.
unfoldable pub delete_impl : Clipboard → Result (Unit {0})
unfolding release_obj
delete_impl none = ok tt
delete_impl (some impl) = if impl.is_inited then err undefined else (do _ ← release_obj impl; ok tt)

unfoldable pub setup_dst_paste_file :
    Registered → Clipboard → FileInfo → Option ℕ → Result Clipboard
unfolding delete_impl create setup_paste_file
setup_dst_paste_file ids c file ole = do
  _ ← delete_impl c
  impl ← setup_paste_file ids create (file ∷ []) ole
  ok (some impl)

unfoldable pub setup_dst_paste_image :
    Registered → Clipboard → ImageHeader → ℕ → Option ℕ → Result Clipboard
unfolding delete_impl create setup_paste_image
setup_dst_paste_image ids c header size ole = do
  _ ← delete_impl c
  impl ← setup_paste_image ids create header size ole
  ok (some impl)

unfoldable pub data_transfer : Clipboard → Option (List ℕ) → Result Clipboard
unfolding write_file
data_transfer none bytes = ok none
data_transfer (some impl) bytes = do impl' ← write_file impl bytes; ok (some impl')

unfoldable pub on_event : Clipboard → EventType → Result Clipboard
unfolding event_handle
on_event none event = ok none
on_event (some impl) event = do impl' ← event_handle impl event; ok (some impl')

-- OLE's request, which GetData of the current object answers.
abbrev pub request_of :
    (List ℕ → Option (List ℕ))
    → MsPasteImpl
    → Option DataObject
    → Bool
    → FormatEtc
    → Result Clipboard
unfolding get_data
request_of wcstombs impl none mapped pfe = ok (some impl)
request_of wcstombs impl (some d) mapped pfe = do
  (a, d') ← get_data wcstombs d mapped pfe
  ok (some (record impl { cur_data_object = some d' }))

unfoldable pub request :
    (List ℕ → Option (List ℕ)) → Clipboard → Bool → FormatEtc → Result Clipboard
unfolding request_of
request wcstombs none mapped pfe = ok none
request wcstombs (some impl) mapped pfe = request_of wcstombs impl impl.cur_data_object mapped pfe

-- Release of a stream by the program that pastes.
abbrev pub dropped : MsPasteImpl → Option DataObject → ℕ → Result Clipboard
unfolding small_program.Paste.DataObject.release
dropped impl none p = ok (some impl)
dropped impl (some d) p = do
  h ← DataObject.release d.heap p
  ok (some (record impl { cur_data_object = some (record d { heap = h }) }))

unfoldable pub drop_stream : Clipboard → ℕ → Result Clipboard
unfolding dropped
drop_stream none p = ok none
drop_stream (some impl) p = dropped impl impl.cur_data_object p

-- The end of the message loop of a paste.
unfoldable pub end_paste : Clipboard → ℕ → Clipboard
unfolding release_ole
end_paste none count = none
end_paste (some impl) count = some (release_ole impl count)

-- DataTransfer of one piece after the other.
unfoldable pub transfers : Clipboard → List (Option (List ℕ)) → Result Clipboard
unfolding data_transfer
transfers c [] = ok c
transfers c (bytes ∷ pieces) = do c' ← data_transfer c bytes; transfers c' pieces
