-- ===== src/Paste/DataObject.antt =====
-- data_sharing/clipboard/MSPaste/MSDataObject.cpp: the streams and the image handler that the
-- object makes, hands out, and passes what arrives to. A stream is counted; the address of one is
-- its place in the heap. The progress window is left out.
pub mod Counts
pub mod Lifetimes
pub mod Requests
use small_program.Base.{
  ℕ, zero, suc, ◌+◌, ◌-◌, ◌%◌, ◌^◌, List, [], ◌∷◌, ◌++◌, Option, none, some, Bool, true, false,
  ◌==◌, length, if◌then◌else◌, Result, ok, err, undefined, ◌>>=◌,
}
use small_program.Paste.Stream.{MsStream, Outcome, eof, aborted, spins, delivered}
use small_program.Paste.Stream
use small_program.Paste.Image.{MsImgHandler, ImageHeader}
use small_program.Paste.Image
use small_program.Paste.Formats
use small_program.Paste.Formats.{
  Registered, FileInfo, FormatEtc, file_formats, image_formats, Answer, no_format, image,
  descriptors, stream_of,
}

-- A stream with its count.
pub record Counted : Type 0 where
  pub count : ℕ
  pub stream : MsStream

-- `none` was deleted.
abbrev pub Heap : Type 0
Heap = List (Option Counted)

unfoldable pub at : Heap → ℕ → Result Counted
at [] p = err undefined
at (none ∷ h) zero = err undefined
at (some c ∷ h) zero = ok c
at (c ∷ h) (suc p) = at h p

unfoldable pub put : Heap → ℕ → Option Counted → Heap
put [] p c = []
put (old ∷ h) zero c = c ∷ h
put (old ∷ h) (suc p) c = old ∷ put h p c

-- MSStream::AddRef and MSStream::Release.
unfoldable pub add_ref : Heap → ℕ → Result Heap
unfolding at put
add_ref h p = do c ← at h p; ok (put h p (some (record c { count = (c.count + 1) % 2 ^ 32 })))

unfoldable pub release : Heap → ℕ → Result Heap
unfolding at put
release h p = do
  c ← at h p
  let count = (c.count + 2 ^ 32 - 1) % 2 ^ 32
  ok (put h p (if count == 0 then none else some (record c { count = count })))

-- `count` is m_cRef, and an object for files has no size and no header of an image.
pub record DataObject : Type 0 where
  pub count : ℕ
  pub file_list : List FileInfo
  pub data_size : ℕ
  pub pic_header : ImageHeader
  pub formats : List FormatEtc
  pub cur_stream : Option ℕ
  pub img_handler : Option MsImgHandler
  pub heap : Heap

-- Init and the two constructors.
unfoldable pub init : List FileInfo → ℕ → ImageHeader → List FormatEtc → DataObject
init files size header formats = record {
  count = 1;
  file_list = files;
  data_size = size;
  pic_header = header;
  formats = formats;
  cur_stream = none;
  img_handler = none;
  heap = [];
}

unfoldable pub create_for_files : Registered → List FileInfo → DataObject
unfolding init
create_for_files ids files =
    init files 0 (record { width = 0; height = 0; planes = 0; bit_count = 0; compression = 0 })
      (file_formats ids files)

unfoldable pub create_for_image : ℕ → ImageHeader → DataObject
unfolding init
create_for_image size header = init [] size header image_formats

abbrev pub release_stream : Heap → Option ℕ → Result Heap
release_stream h none = ok h
release_stream h (some p) = release h p

unfoldable pub release_obj : DataObject → Result DataObject
unfolding release
release_obj d = do
  h ← release_stream d.heap d.cur_stream
  ok (record d { cur_stream = none; img_handler = none; heap = h })

-- MSDataObject::Release, with the destructor; `none` is an object that is deleted.
unfoldable pub release_object : DataObject → Result (Option DataObject)
unfolding release_obj
release_object d =
    let count = (d.count + 2 ^ 32 - 1) % 2 ^ 32 in
    let deleted = release_obj d >>= λ d'. ok none in
    if count == 0 then deleted else ok (some (record d { count = count }))

-- The last part of GetFileData, with whether the file can be mapped: the stream that the caller
-- gets, and the object.
unfoldable pub open_stream : DataObject → Bool → FileInfo → Result (ℕ × DataObject)
unfolding release_obj small_program.Paste.Stream.create
open_stream d mapped file = do
  d' ← release_obj d
  let s = Stream.create mapped file.file_size_high file.file_size_low
  ok (
    length d'.heap,
    record d' {
      cur_stream = some (length d'.heap);
      heap = d'.heap ++ (some (record { count = 1; stream = s }) ∷ []);
    },
  )

-- GetDibData before it waits for the image; ReleaseObj leaves no handler.
unfoldable pub open_image : DataObject → ℕ → ImageHeader → Result DataObject
unfolding release_obj small_program.Paste.Image.create
open_image d data_size header = do
  d' ← release_obj d
  ok (record d' { img_handler = some (Image.create data_size header) })

-- What GetFileData and GetDibData do to the object for an answer.
unfoldable pub answered : DataObject → Bool → Answer → Result DataObject
unfolding open_stream open_image
answered d mapped no_format = ok d
answered d mapped (descriptors entries) = ok d
answered d mapped (stream_of f) = do (p, d') ← open_stream d mapped f; ok d'
answered d mapped image = open_image d d.data_size d.pic_header

-- GetData, for an image before it waits: the answer and the object. A stream that it answers with
-- is the object's current one.
unfoldable pub get_data :
    (List ℕ → Option (List ℕ)) → DataObject → Bool → FormatEtc → Result (Answer × DataObject)
unfolding answered small_program.Paste.Formats.get_data
get_data wcstombs d mapped pfe = do
  a ← Formats.get_data wcstombs d.file_list d.formats pfe
  d' ← answered d mapped a
  ok (a, d')

-- What GetInterface finds.
pub data Interface : Type 0 where
  nothing : Interface
  a_stream : ℕ → Interface
  an_image : MsImgHandler → Interface

abbrev pub interface_of : Option ℕ → Option MsImgHandler → Interface
interface_of (some p) handler = a_stream p
interface_of none (some handler) = an_image handler
interface_of none none = nothing

unfoldable pub get_interface : DataObject → Interface
get_interface d = interface_of d.cur_stream d.img_handler

-- A call on a stream.
unfoldable pub on_stream : DataObject → ℕ → (MsStream → Result MsStream) → Result DataObject
unfolding at put
on_stream d p call = do
  c ← at d.heap p
  s ← call c.stream
  ok (record d { heap = put d.heap p (some (record c { stream = s })) })

unfoldable pub write_to : DataObject → Interface → Option (List ℕ) → Result DataObject
unfolding on_stream small_program.Paste.Stream.write_file small_program.Paste.Image.write_file
write_to d nothing bytes = ok d
write_to d (a_stream p) bytes = on_stream d p (λ s. Stream.write_file s bytes)
write_to d (an_image handler) bytes = do
  handler' ← Image.write_file handler bytes
  ok (record d { img_handler = some handler' })

unfoldable pub write_file : DataObject → Option (List ℕ) → Result DataObject
unfolding write_to get_interface
write_file d bytes = write_to d (get_interface d) bytes

unfoldable pub cancel_on : DataObject → Interface → Result DataObject
unfolding on_stream small_program.Paste.Stream.cancel small_program.Paste.Image.cancel
cancel_on d nothing = ok d
cancel_on d (a_stream p) = on_stream d p (λ s. ok (Stream.cancel s))
cancel_on d (an_image handler) = ok (record d { img_handler = some (Image.cancel handler) })

pub data EventType : Type 0 where
  event_type_open_file_err event_type_recv_timeout : EventType

unfoldable pub event_handle : DataObject → EventType → Result DataObject
unfolding cancel_on get_interface
event_handle d event_type_open_file_err = cancel_on d (get_interface d)
event_handle d event_type_recv_timeout = cancel_on d (get_interface d)

-- OnStreamEOF
unfoldable pub on_stream_eof : DataObject → Result DataObject
unfolding release_obj
on_stream_eof d = release_obj d

-- Behind the part of Read that `read` has: the observer hears of the end, and then the lock of the
-- stream is given back.
unfoldable pub after_read : DataObject → ℕ → Outcome → Result DataObject
unfolding on_stream_eof at
after_read d p (delivered bytes) = ok d
after_read d p spins = ok d
after_read d p eof = do d' ← on_stream_eof d; c ← at d'.heap p; ok d'
after_read d p aborted = do d' ← on_stream_eof d; c ← at d'.heap p; ok d'

-- Read of the stream at an address.
unfoldable pub read : DataObject → ℕ → ℕ → Result (Outcome × DataObject)
unfolding at put after_read small_program.Paste.Stream.read
read d p cb = do
  c ← at d.heap p
  (outcome, s) ← Stream.read cb c.stream
  d' ← after_read (record d { heap = put d.heap p (some (record c { stream = s })) }) p outcome
  ok (outcome, d')
