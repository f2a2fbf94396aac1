-- ===== src/Paste/DataObject/Requests.antt =====
-- What GetData of the object for files does.
use small_program.Base.{ℕ, ◌≡◌, List, Option, some, Bool, true, false, ok}
use small_program.Paste.Stream
use small_program.Paste.Formats
use small_program.Paste.Formats.{
  Registered, FormatEtc, FileInfo, file_formats, query_get_data, Answer, no_format, image,
  descriptors, stream_of, describe, file_at,
}
use small_program.Paste.Formats.Answers.{Answers}
use small_program.Paste.DataObject.{DataObject, at}

module _ (ids : Registered) (wcstombs : List ℕ → Option (List ℕ)) (files : List FileInfo)
    (mapped : Bool) (pfe : FormatEtc) (d : DataObject) where
  -- What an answer says of the request, and what it leaves in the object.
  abbrev pub Serves : Answer × DataObject → Type 0
  Serves (no_format, d') = (query_get_data pfe (file_formats ids files) ≡ false) × (d' ≡ d)
  Serves (image, d') = ⊥
  Serves (descriptors entries, d') =
      (query_get_data pfe (file_formats ids files) ≡ true)
      × (pfe.cf_format ≡ ids.descriptor)
      × (describe wcstombs files ≡ ok entries)
      × (d' ≡ d)
  Serves (stream_of f, d') =
      (query_get_data pfe (file_formats ids files) ≡ true)
      × (pfe.cf_format ≡ ids.contents)
      × (file_at files pfe.lindex ≡ ok f)
      × (p : ℕ) × (d'.cur_stream ≡ some p)
      × (at d'.heap p
          ≡ ok (record {
            count = 1;
            stream = Stream.create mapped f.file_size_high f.file_size_low;
          }))
