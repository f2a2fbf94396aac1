-- ===== src/Process/Turns.antt =====
-- One round of the receiving loop on a buffer that begins with a whole message.
use small_program.Base.{
  ap₂, ℕ, ◌+◌, ◌-◌, ◌*◌, ◌^◌, ◌<◌, ◌≤◌, ◌≡◌, refl, sym, ap, subst, ◌⊎◌, List, [], ◌∷◌, ◌++◌,
  append-nil, some, Bool, true, length, length-append, lt→ltb, arith, Build, Result, ok, ◌>>=◌,
  Ensures, done, Ensures-bind, Ensures-ok, Ensures-eq_ok,
}
use small_program.Base.Words.{to_big_endian, length-to_big_endian}
use small_program.Buffer.{Buffer, cheap_prepend, readable_bytes}
use small_program.Buffer.Regions.{Holds, readable_bytes-Holds}
use small_program.Buffer.Retrieve.{mem_read-Holds, retrieve_moves}
use small_program.Message.Qt.{Qt, QByteArray}
use small_program.Message.Frame.{
  tag_name, request, get_message_length, get_code_from_byte_array, message_length,
}
use small_program.Message.Serialise.{frame_head, frame}
use small_program.Message.Parse.{Opens, open_frame-Opens}
use small_program.Message.Content.{received}
use small_program.Message.ClientStatus
use small_program.Message.ClientStatus.{UpdateClientStatusMsg}
use small_program.Message.FileRequest
use small_program.Message.FileRequest.{SendFileRequestMsg}
use small_program.Message.Progress
use small_program.Message.Progress.{UpdateProgressMsg}
use small_program.Message.ConnResponse
use small_program.Message.ConnResponse.{GetConnStatusResponseMsg, conn_response_length}
use small_program.Process.{
  Dispatched, conn_response, client_status, file_request, progress, Turn, again, received_bytes,
  take_message, handle, turn, new_conn_response, new_client_status, new_file_request, new_progress,
}

-- More bytes than a client has waiting.
abbrev pub stream_limit : ℕ
stream_limit = 2 ^ 30 - 1024

-- A turn that takes a message of `n` bytes and leaves `rest`.
abbrev pub Takes : Buffer → ℕ → Dispatched → List ℕ → Turn → Type 0
Takes b n event rest t =
    (b' : Buffer) × (t ≡ again b' (event ∷ []))
    × Holds b' rest
    × ((b'.reader_index ≡ cheap_prepend) ⊎ (b'.reader_index ≡ b.reader_index + n))

pub received_bytes-Holds :
    (b : Buffer) (xs : List ℕ) → Holds b xs → length xs < 2 ^ 31 → received_bytes b ≡ ok xs
unfolding received_bytes
received_bytes-Holds b xs h small = rw (
  lt→ltb (readable_bytes b) (2 ^ 31) (omega (arith, readable_bytes-Holds h)),
  mem_read-Holds xs [] (readable_bytes b) (readable_bytes-Holds h)
      (subst (Holds b) (sym (append-nil xs)) h),
)

module _ (build : Build) where
  pub get_code-frame :
      (type code : ℕ) (rest : List ℕ)
      → 4 ≤ length rest
      → length rest < 2 ^ 31
      → get_code_from_byte_array build (frame_head type code ++ rest) ≡ ok (some (type, code))
  unfolding get_code_from_byte_array
  get_code-frame type code rest enough small = Ensures-eq_ok (
      Ensures-bind (Opens type code rest) _ _ _ (open_frame-Opens build type code rest enough small)
        λ r o. rw o.1 (done _ refl))

module _ (qt : Qt) (build : Build) where
  take_message-Takes {ℓ} :
      {M : Type ℓ} (size : M → ℕ) (wrap : M → Dispatched) (b : Buffer) (m : M) (bytes rest : List ℕ)
      → size m ≡ length bytes
      → Holds b (bytes ++ rest)
      → Ensures (Takes b (length bytes) (wrap m) rest) (take_message qt build size wrap b (true, m))
  unfolding take_message
  take_message-Takes size wrap b m bytes rest e h = rw e (
      Ensures-bind _ _ _ _ (retrieve_moves build b bytes rest (length bytes) refl h)
        λ b' p. done _ (b', refl, p.0, p.1))

  -- The round, once the code is known.
  pub turn-handle :
      (type code : ℕ) (rest : List ℕ) (b : Buffer)
      → Holds b (frame_head type code ++ rest)
      → 4 ≤ length rest
      → length rest < 2 ^ 31 - 7
      → turn qt build b ≡ handle qt build b (frame_head type code ++ rest) (type, code)
  unfolding turn
  turn-handle type code rest b h enough small = rw (
    received_bytes-Holds b (frame_head type code ++ rest) h (omega arith),
    get_code-frame build type code rest enough (omega arith),
  )

  turn_framed-Takes {ℓ} :
      {M : Type ℓ} (type code : ℕ) (content rest : List ℕ) (b : Buffer) (from : Result (Bool × M))
      (size : M → ℕ) (wrap : M → Dispatched) (m : M)
      → Holds b (frame type code content ++ rest)
      → message_length + length content + length rest < 2 ^ 31
      → handle qt build b (frame type code content ++ rest) (type, code)
        ≡ (from >>= take_message qt build size wrap b)
      → (from ≡ ok (true, m)) × (size m ≡ length (frame type code content))
      → Ensures (Takes b (length (frame type code content)) (wrap m) rest) (turn qt build b)
  turn_framed-Takes type code content rest b from size wrap m h fits handled facts =
      rw
        (
          turn-handle type code ((to_big_endian 4 (length content) ++ content) ++ rest) b h
              (omega (arith, length-append {0}, length-to_big_endian 4 (length content)))
              (omega (arith, length-append {0}, length-to_big_endian 4 (length content))),
          handled,
          facts.0,
        )
        (take_message-Takes size wrap b m (frame type code content) rest facts.1 h)

  pub handle-client_status :
      (b : Buffer) (bytes : QByteArray) (type code : ℕ)
      → code ≡ 3
      → handle qt build b bytes (type, code) ≡ (
          ClientStatus.from_byte_array qt build bytes new_client_status
          >>= take_message qt build (λ m. get_message_length m.header_info) client_status b)
  unfolding handle
  handle-client_status b bytes type code e = ap (λ c. handle qt build b bytes (type, c)) e

  pub handle-conn_response :
      (b : Buffer) (bytes : QByteArray) (type code : ℕ)
      → code ≡ 1
      → handle qt build b bytes (type, code) ≡ (
          ConnResponse.from_byte_array qt build bytes new_conn_response
          >>= take_message qt build (λ m. conn_response_length) conn_response b)
  unfolding handle
  handle-conn_response b bytes type code e = ap (λ c. handle qt build b bytes (type, c)) e

  pub handle-progress :
      (b : Buffer) (bytes : QByteArray) (type code : ℕ)
      → code ≡ 5
      → handle qt build b bytes (type, code) ≡ (
          Progress.from_byte_array qt build bytes new_progress
          >>= take_message qt build (λ m. get_message_length m.header_info) progress b)
  unfolding handle
  handle-progress b bytes type code e = ap (λ c. handle qt build b bytes (type, c)) e

  pub handle-file_request :
      (b : Buffer) (bytes : QByteArray) (type code : ℕ)
      → type ≡ request
      → code ≡ 4
      → handle qt build b bytes (type, code) ≡ (
          FileRequest.from_byte_array qt build bytes new_file_request
          >>= take_message qt build (λ m. get_message_length m.header_info) file_request b)
  unfolding handle
  handle-file_request b bytes type code d e = ap₂ (λ t c. handle qt build b bytes (t, c)) d e

-- The frames that the loop takes, each with what it dispatches for it.
pub data Carries (qt : Qt) : Dispatched → List ℕ → Type 0 where
  of_conn_response :
      (m : GetConnStatusResponseMsg)
      → m.header_info.header ≡ tag_name
      → m.header_info.code ≡ 1
      → Carries qt
          (conn_response
            (record m { header_info = received m.header_info.type m.header_info.code 1 }))
          (frame m.header_info.type m.header_info.code (m.status_code ∷ []))
  of_client_status :
      (m : UpdateClientStatusMsg) (v : ClientStatus.IsSendable qt m)
      → m.header_info.code ≡ 3
      → Carries qt
          (client_status (ClientStatus.delivered m (53 + 2 * length m.client_name)))
          (frame m.header_info.type m.header_info.code (ClientStatus.content qt m v))
  of_file_request :
      (m : SendFileRequestMsg) (v : FileRequest.IsSendable qt m)
      → m.header_info.type ≡ request
      → m.header_info.code ≡ 4
      → Carries qt
          (file_request (FileRequest.delivered m (68 + 2 * length m.file_name)))
          (frame m.header_info.type m.header_info.code (FileRequest.content qt m v))
  of_progress :
      (m : UpdateProgressMsg) (v : Progress.IsSendable qt m)
      → m.header_info.code ≡ 5
      → Carries qt
          (progress (Progress.delivered m (76 + 2 * length m.file_name)))
          (frame m.header_info.type m.header_info.code (Progress.content qt m v))

module _ (qt : Qt) (build : Build) where
  -- A round of the loop on a buffer that begins with the frame of a message of one of the four
  -- kinds takes exactly that frame and dispatches exactly that message, and leaves what follows
  -- it, which is shorter than the stream limit.
  pub turn-Takes :
      (event : Dispatched) (bytes rest : List ℕ) (b : Buffer)
      → Carries qt event bytes
      → length rest < stream_limit
      → Holds b (bytes ++ rest)
      → Ensures (Takes b (length bytes) event rest) (turn qt build b)
  turn-Takes _ _ rest b (of_conn_response m tagged coded) short h =
      turn_framed-Takes qt build m.header_info.type m.header_info.code (m.status_code ∷ []) rest b _
        (λ _. conn_response_length) conn_response _ h (omega arith)
        (handle-conn_response qt build b _ m.header_info.type m.header_info.code coded)
        (Ensures-ok (
          subst (Ensures _) (ConnResponse.conn_response-frame qt build m tagged) (
            ConnResponse.conn_response_round_trip qt build m new_conn_response rest tagged
              (omega arith))))
  turn-Takes _ _ rest b (of_client_status m v coded) short h =
      turn_framed-Takes qt build m.header_info.type m.header_info.code (ClientStatus.content qt m v)
        rest b _ (λ m'. get_message_length m'.header_info) client_status _ h
        (omega (arith, ClientStatus.length-content qt build m v, v.name.short))
        (handle-client_status qt build b _ m.header_info.type m.header_info.code coded)
        (Ensures-ok (
          subst (Ensures _) (ClientStatus.client_status-frame qt build m v)
            (ClientStatus.client_status_round_trip qt build m new_client_status rest v short)))
  turn-Takes _ _ rest b (of_file_request m v asked coded) short h =
      turn_framed-Takes qt build m.header_info.type m.header_info.code (FileRequest.content qt m v)
        rest b _ (λ m'. get_message_length m'.header_info) file_request _ h
        (omega (arith, FileRequest.length-content qt build m v, v.file.name.short))
        (handle-file_request qt build b _ m.header_info.type m.header_info.code asked coded)
        (Ensures-ok (
          subst (Ensures _) (FileRequest.file_request-frame qt build m v)
            (FileRequest.file_request_round_trip qt build m new_file_request rest v short)))
  turn-Takes _ _ rest b (of_progress m v coded) short h =
      turn_framed-Takes qt build m.header_info.type m.header_info.code (Progress.content qt m v)
        rest b _ (λ m'. get_message_length m'.header_info) progress _ h
        (omega (arith, Progress.length-content qt build m v, v.name.short))
        (handle-progress qt build b _ m.header_info.type m.header_info.code coded)
        (Ensures-ok (
          subst (Ensures _) (Progress.progress-frame qt build m v)
            (Progress.progress_round_trip qt build m new_progress rest v short)))
