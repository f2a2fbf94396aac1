-- ===== src/Paste/DataObject/Lifetimes.antt =====
-- When the object and the program that pastes still have a stream.
use small_program.Base.{
  ℕ, zero, suc, ◌+◌, ◌-◌, ◌^◌, ◌<◌, ◌≤◌, ◌≡◌, refl, sym, ap, ◌∙◌, List, [], ◌∷◌, ◌++◌, Option, none,
  some, Bool, false, ◌==◌, length, if◌then◌else◌, arith, Result, ok, err, undefined, Ensures,
  Ensures-of_eq, ◌>>=◌,
}
use small_program.Paste.Stream.{MsStream, Outcome, eof}
use small_program.Paste.Stream.Reading.{read_eof}
use small_program.Paste.Stream
use small_program.Paste.Formats.{FileInfo}
use small_program.Paste.DataObject.{
  Counted, Heap, at, put, release, DataObject, release_obj, release_stream, open_stream, write_file,
  write_to, on_stream, cancel_on, EventType, event_type_open_file_err, event_type_recv_timeout,
  event_handle, get_interface, interface_of, on_stream_eof, after_read, read,
}
use small_program.Paste.DataObject.Counts.{
  at-put, at-deleted, at-append, release_last, release_one, put-put,
}

-- A call on a stream that was deleted.
on_stream-deleted :
    (d : DataObject) (p : ℕ) (call : MsStream → Result MsStream)
    → at d.heap p ≡ err undefined
    → on_stream d p call ≡ err undefined
unfolding on_stream
on_stream-deleted d p call e = rw e refl

-- A stream that was just made.
abbrev pub fresh : Bool → FileInfo → Counted
fresh mapped file = record {
  count = 1;
  stream = Stream.create mapped file.file_size_high file.file_size_low;
}

-- The object behind open_stream, from the one that release_obj left.
abbrev pub opened : DataObject → Bool → FileInfo → DataObject
opened e mapped file = record e {
  cur_stream = some (length e.heap);
  heap = e.heap ++ (some (fresh mapped file) ∷ []);
}

pub open_stream-eq :
    (d e : DataObject) (mapped : Bool) (file : FileInfo)
    → release_obj d ≡ ok e
    → open_stream d mapped file ≡ ok (length e.heap, opened e mapped file)
unfolding open_stream
open_stream-eq d e mapped file released =
    ap (λ m. m >>= λ d'. ok (length d'.heap, opened d' mapped file)) released

module _ (d : DataObject) (p : ℕ) (gone : at d.heap p ≡ err undefined)
    (current : d.cur_stream ≡ some p) where
  write_file-deleted : (bytes : Option (List ℕ)) → write_file d bytes ≡ err undefined
  unfolding write_file write_to get_interface
  write_file-deleted bytes =
      ap (λ q. write_to d (interface_of q d.img_handler) bytes) current
      ∙ on_stream-deleted d p (λ s. Stream.write_file s bytes) gone

  event_handle-deleted : (event : EventType) → event_handle d event ≡ err undefined
  unfolding event_handle cancel_on get_interface
  event_handle-deleted event_type_open_file_err =
      ap (λ q. cancel_on d (interface_of q d.img_handler)) current
      ∙ on_stream-deleted d p (λ s. ok (Stream.cancel s)) gone
  event_handle-deleted event_type_recv_timeout =
      ap (λ q. cancel_on d (interface_of q d.img_handler)) current
      ∙ on_stream-deleted d p (λ s. ok (Stream.cancel s)) gone

  release_obj-deleted : release_obj d ≡ err undefined
  unfolding release_obj release
  release_obj-deleted =
      ap
        (λ q. release_stream d.heap q >>= λ h.
          ok (record d { cur_stream = none; img_handler = none; heap = h }))
        current
      ∙ rw gone refl

-- The stream that GetFileData hands out is deleted by one Release of the program that gets it,
-- and the object's next WriteFile, EventHandle and ReleaseObj have undefined behaviour then. The
-- condition is that the object could release what it had before.
pub open_stream-released :
    (d e : DataObject) (mapped : Bool) (file : FileInfo) (bytes : Option (List ℕ))
    (event : EventType)
    → release_obj d ≡ ok e
    → Ensures
        (λ r.
          (h : Heap) × (release r.1.heap r.0 ≡ ok h)
          × (write_file (record r.1 { heap = h }) bytes ≡ err undefined)
          × (event_handle (record r.1 { heap = h }) event ≡ err undefined)
          × (release_obj (record r.1 { heap = h }) ≡ err undefined))
        (open_stream d mapped file)
open_stream-released d e mapped file bytes event released =
    Ensures-of_eq (length e.heap, opened e mapped file) (open_stream-eq d e mapped file released)
      (
        put (opened e mapped file).heap (length e.heap) none,
        release_last (opened e mapped file).heap (length e.heap) (fresh mapped file) here refl,
        write_file-deleted after (length e.heap) gone refl bytes,
        event_handle-deleted after (length e.heap) gone refl event,
        release_obj-deleted after (length e.heap) gone refl,
      )
  where
    here : at (opened e mapped file).heap (length e.heap) ≡ ok (fresh mapped file)
    here = at-append e.heap (fresh mapped file)

    after : DataObject
    after = record (opened e mapped file) {
      heap = put (opened e mapped file).heap (length e.heap) none;
    }

    gone : at (put (opened e mapped file).heap (length e.heap) none) (length e.heap) ≡ err undefined
    gone = at-deleted (opened e mapped file).heap (length e.heap) (fresh mapped file) here

-- The object behind OnStreamEOF, with these streams.
abbrev left_with : DataObject → Heap → DataObject
left_with d h = record d { cur_stream = none; img_handler = none; heap = h }

-- The object with a cell of its heap written.
abbrev written : DataObject → ℕ → Counted → DataObject
written d p c = record d { heap = put d.heap p (some c) }

read-eof :
    (d : DataObject) (p cb : ℕ) (c : Counted)
    → at d.heap p ≡ ok c
    → c.stream.file_size ≤ c.stream.position
    → read d p cb ≡ (after_read (written d p c) p eof >>= λ d'. ok (eof, d'))
unfolding read
read-eof d p cb c here end =
    ap
      (λ m. m >>= λ c'. Stream.read cb c'.stream >>= λ r.
        after_read (written d p (record c' { stream = r.1 })) p r.0 >>= λ d'. ok (r.0, d'))
      here
    ∙ ap
        (λ m. m >>= λ r.
          after_read (written d p (record c { stream = r.1 })) p r.0 >>= λ d'. ok (r.0, d'))
        (read_eof c.stream cb end)

after_eof :
    (d : DataObject) (p : ℕ) (h : Heap)
    → d.cur_stream ≡ some p
    → release d.heap p ≡ ok h
    → after_read d p eof ≡ (at h p >>= λ c. ok (left_with d h))
unfolding after_read on_stream_eof release_obj
after_eof d p h current released =
    ap
      (λ q. (release_stream d.heap q >>= λ h'. ok (left_with d h')) >>= λ d'.
        at d'.heap p >>= λ c. ok d')
      current
    ∙ ap (λ m. (m >>= λ h'. ok (left_with d h')) >>= λ d'. at d'.heap p >>= λ c. ok d') released

not_zero : (n : ℕ) → (suc n == 0) ≡ false
not_zero n = ground arith

lower : (n : ℕ) → suc n + 1 - 1 ≡ suc n
lower n = omega arith

-- The Read that finds the end of a stream, with what the object's Release leaves of the stream.
read_end :
    (d : DataObject) (p cb : ℕ) (c : Counted) (rest : Option Counted)
    → d.cur_stream ≡ some p
    → at d.heap p ≡ ok c
    → c.stream.file_size ≤ c.stream.position
    → release (put d.heap p (some c)) p ≡ ok (put (put d.heap p (some c)) p rest)
    → read d p cb ≡ (
        (at (put d.heap p rest) p >>= λ c'. ok (left_with d (put d.heap p rest))) >>= λ d'.
        ok (eof, d'))
read_end d p cb c rest current here end released =
    read-eof d p cb c here end
    ∙ ap (λ m. m >>= λ d'. ok (eof, d'))
        (after_eof (written d p c) p (put d.heap p rest) current
          (released ∙ ap ok (put-put d.heap p (some c) rest)))

-- The Read that finds the end of the object's stream, which has one reference of the object and
-- n others: without others it has undefined behaviour, since the observer's Release deletes the
-- stream while Read holds its lock; with others it returns the end, the object has no stream
-- left, and the stream keeps the n references. The condition is a count below 2^32.
pub read-last :
    (d : DataObject) (p cb n : ℕ) (s : MsStream)
    → d.cur_stream ≡ some p
    → at d.heap p ≡ ok (record { count = n + 1; stream = s })
    → n + 1 < 2 ^ 32
    → s.file_size ≤ s.position
    → read d p cb ≡ (
        if n == 0
        then err undefined
        else ok (
          eof,
          record d {
            cur_stream = none;
            img_handler = none;
            heap = put d.heap p (some (record { count = n; stream = s }));
          },
        ))
read-last d p cb zero s current here small end =
    read_end d p cb (counted 1) none current here end (
      release_last (put d.heap p (some (counted 1))) p (counted 1)
        (at-put d.heap p (counted 1) (counted 1) here) refl)
    ∙ ap (λ m. (m >>= λ c. ok (left_with d (put d.heap p none))) >>= λ d'. ok (eof, d'))
        (at-deleted d.heap p (counted 1) here)
  where
    counted : ℕ → Counted
    counted n = record { count = n; stream = s }
read-last d p cb (suc n) s current here small end =
    read_end d p cb (counted (suc n + 1)) (some (counted (suc n))) current here end (
      release_one (put d.heap p (some (counted (suc n + 1)))) p (counted (suc n + 1))
        (at-put d.heap p (counted (suc n + 1)) (counted (suc n + 1)) here) (omega arith) small
      ∙ ap (λ k. ok (put (put d.heap p (some (counted (suc n + 1)))) p (some (counted k))))
          (lower n))
    ∙ ap
        (λ m. (m >>= λ c. ok (left_with d (put d.heap p (some (counted (suc n)))))) >>= λ d'.
          ok (eof, d'))
        (at-put d.heap p (counted (suc n + 1)) (counted (suc n)) here)
    ∙ sym (
        ap
          (λ b.
            if b
            then err undefined
            else ok (eof, left_with d (put d.heap p (some (counted (suc n))))))
          (not_zero n))
  where
    counted : ℕ → Counted
    counted k = record { count = k; stream = s }
