-- ===== src/Clipboard/Transfers.antt =====
-- What DataTransfer leaves in the stream of a paste.
use small_program.Base.{
  ℕ, ◌+◌, ◌^◌, ◌<◌, ◌≡◌, refl, sym, ap, ◌∙◌, subst, List, [], ◌∷◌, ◌++◌, append-nil, append_assoc,
  Option, none, some, length, length-append, Result, ok, err, Ensures, done, Ensures-bind,
  Ensures-of_eq, ◌>>=◌,
}
use small_program.Paste.Transfer.{taken}
use small_program.Paste.Stream.{MsStream}
use small_program.Paste.Stream
use small_program.Paste.Stream.Received.{Received, Accepts, write_file-Accepts, write_file_null}
use small_program.Paste.DataObject
use small_program.Paste.DataObject.{
  Counted, DataObject, at, put, on_stream, interface_of, get_interface, create_for_files,
}
use small_program.Paste.DataObject.Counts.{at-put}
use small_program.Clipboard.{MsPasteImpl, Clipboard, write_file, write_to, data_transfer, transfers}

-- The bytes of the pieces that the stream takes, behind `n` bytes.
abbrev pub kept : ℕ → ℕ → List (Option (List ℕ)) → List ℕ
kept size n [] = []
kept size n (none ∷ pieces) = kept size n pieces
kept size n (some bytes ∷ pieces) =
    taken size n bytes ++ kept size (n + length (taken size n bytes)) pieces

-- No sum of the size and a piece wraps.
abbrev pub Fit : ℕ → List (Option (List ℕ)) → Type 0
Fit size [] = Unit {0}
Fit size (none ∷ pieces) = Fit size pieces
Fit size (some bytes ∷ pieces) = (size + length bytes < 2 ^ 32) × Fit size pieces

-- The current stream of the current object, which has this file size and has received these bytes.
pub record Receives (c : Clipboard) (size : ℕ) (sent : List ℕ) : Type 0 where
  pub impl : MsPasteImpl
  pub object : DataObject
  pub address : ℕ
  pub cell : Counted
  pub current_impl : c ≡ some impl
  pub current_object : impl.cur_data_object ≡ some object
  pub current_stream : object.cur_stream ≡ some address
  pub here : at object.heap address ≡ ok cell
  pub file_size : cell.stream.file_size ≡ size
  pub received : Received cell.stream sent

-- A write through the object is a write to its stream.
write_file-current :
    (d : DataObject) (p : ℕ) (cell : Counted) (bytes : Option (List ℕ))
    → d.cur_stream ≡ some p
    → at d.heap p ≡ ok cell
    → DataObject.write_file d bytes ≡ (
        Stream.write_file cell.stream bytes >>= λ s.
        ok (record d { heap = put d.heap p (some (record cell { stream = s })) }))
unfolding small_program.Paste.DataObject.write_file small_program.Paste.DataObject.write_to
    on_stream get_interface
write_file-current d p cell bytes current here =
    ap (λ q. DataObject.write_to d (interface_of q d.img_handler) bytes) current
    ∙ ap
        (λ m. m >>= λ c. Stream.write_file c.stream bytes >>= λ s.
          ok (record d { heap = put d.heap p (some (record c { stream = s })) }))
        here

data_transfer-current :
    (c : Clipboard) (impl : MsPasteImpl) (d : DataObject) (bytes : Option (List ℕ))
    → c ≡ some impl
    → impl.cur_data_object ≡ some d
    → data_transfer c bytes ≡ (
        (DataObject.write_file d bytes >>= λ d'. ok (record impl { cur_data_object = some d' }))
        >>= λ impl'. ok (some impl'))
unfolding data_transfer write_file write_to
data_transfer-current c impl d bytes e e' =
    ap (λ c'. data_transfer c' bytes) e
    ∙ ap (λ o. write_to impl o bytes >>= λ impl'. ok (some impl')) e'

one_call :
    {A B C D : Type 0} (f : A → B) (g : B → C) (h : C → D) (m : Result A)
    → (((m >>= λ a. ok (f a)) >>= λ b. ok (g b)) >>= λ c. ok (h c)) ≡ (m >>= λ a. ok (h (g (f a))))
one_call f g h (ok a) = refl
one_call f g h (err e) = refl

module _ (c : Clipboard) (size : ℕ) (sent : List ℕ) (r : Receives c size sent) where
  -- The clipboard with another stream in the place of the current one.
  abbrev with_stream : MsStream → Clipboard
  with_stream s = some (record r.impl {
    cur_data_object = some (record r.object {
      heap = put r.object.heap r.address (some (record r.cell { stream = s }));
    });
  })

  with_stream-Receives :
      (s : MsStream) (bytes : List ℕ)
      → Received s (sent ++ bytes)
      → s.file_size ≡ size
      → Receives (with_stream s) size (sent ++ bytes)
  with_stream-Receives s bytes v e = record {
    impl = record r.impl {
      cur_data_object = some (record r.object {
        heap = put r.object.heap r.address (some (record r.cell { stream = s }));
      });
    };
    object = record r.object {
      heap = put r.object.heap r.address (some (record r.cell { stream = s }));
    };
    address = r.address;
    cell = record r.cell { stream = s };
    current_impl = refl;
    current_object = refl;
    current_stream = r.current_stream;
    here = at-put r.object.heap r.address r.cell (record r.cell { stream = s }) r.here;
    file_size = e;
    received = v;
  }

  data_transfer-stream :
      (bytes : Option (List ℕ))
      → data_transfer c bytes ≡ (Stream.write_file r.cell.stream bytes >>= λ s. ok (with_stream s))
  data_transfer-stream bytes =
      data_transfer-current c r.impl r.object bytes r.current_impl r.current_object
      ∙ ap
          (λ m. (m >>= λ d'. ok (record r.impl { cur_data_object = some d' })) >>= λ impl'.
            ok (some impl'))
          (write_file-current r.object r.address r.cell bytes r.current_stream r.here)
      ∙ one_call
          (λ s. record r.object {
            heap = put r.object.heap r.address (some (record r.cell { stream = s }));
          })
          (λ d'. record r.impl { cur_data_object = some d' }) some
          (Stream.write_file r.cell.stream bytes)

  data_transfer-Receives :
      (bytes : List ℕ)
      → size + length bytes < 2 ^ 32
      → Ensures
          (λ c'. Receives c' size (sent ++ taken size (length sent) bytes))
          (data_transfer c (some bytes))
  data_transfer-Receives bytes h =
      subst (Ensures (λ c'. Receives c' size (sent ++ taken size (length sent) bytes)))
        (sym (data_transfer-stream (some bytes)))
        (Ensures-bind (Accepts r.cell.stream sent bytes) _ _ _
          (write_file-Accepts r.cell.stream sent bytes r.received
            (subst (λ n. n + length bytes < 2 ^ 32) (sym r.file_size) h))
          λ s p. done _ (
            with_stream-Receives s (taken size (length sent) bytes)
              (subst (λ n. Received s (sent ++ taken n (length sent) bytes)) r.file_size p.0)
              (p.2 ∙ r.file_size)))

  data_transfer_null-Receives : Ensures (λ c'. Receives c' size sent) (data_transfer c none)
  data_transfer_null-Receives =
      Ensures-of_eq (with_stream r.cell.stream)
        (data_transfer-stream none
          ∙ ap (λ m. m >>= λ s. ok (with_stream s)) (write_file_null r.cell.stream sent r.received))
        (subst (Receives (with_stream r.cell.stream) size) (append-nil sent) (
          with_stream-Receives r.cell.stream []
            (subst (Received r.cell.stream) (sym (append-nil sent)) r.received) r.file_size))

pub transfers-Receives :
    (c : Clipboard) (size : ℕ) (sent : List ℕ) (pieces : List (Option (List ℕ)))
    → Receives c size sent
    → Fit size pieces
    → Ensures (λ c'. Receives c' size (sent ++ kept size (length sent) pieces)) (transfers c pieces)
unfolding transfers
transfers-Receives c size sent [] r f = done _ (subst (Receives c size) (sym (append-nil sent)) r)
transfers-Receives c size sent (none ∷ pieces) r f =
    Ensures-bind (λ c'. Receives c' size sent) _ _ _ (data_transfer_null-Receives c size sent r)
      λ c' r'. transfers-Receives c' size sent pieces r' f
transfers-Receives c size sent (some bytes ∷ pieces) r f =
    Ensures-bind (λ c'. Receives c' size (sent ++ taken size (length sent) bytes)) _ _ _
      (data_transfer-Receives c size sent r bytes f.0)
      λ c' r'.
        subst (λ all. Ensures (λ c''. Receives c'' size all) (transfers c' pieces))
          (append_assoc sent (taken size (length sent) bytes) _
            ∙ ap (λ n. sent ++ (taken size (length sent) bytes ++ kept size n pieces))
                (length-append sent (taken size (length sent) bytes)))
          (transfers-Receives c' size (sent ++ taken size (length sent) bytes) pieces r' f.1)
