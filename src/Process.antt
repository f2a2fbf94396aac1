-- ===== src/Process.antt =====
-- common/process_message.cpp: the client's receiving end. Bytes that arrive are put into a buffer,
-- and messages are taken from its front and dispatched while there are any.
pub mod Turns
pub mod Stream
pub mod Deliveries
pub mod Stuck
use small_program.Base.{
  ℕ, zero, suc, ◌^◌, List, [], ◌∷◌, ◌++◌, Option, none, some, Bool, true, false, ltb, ◌==◌,
  if◌then◌else◌, Build, Result, ok, length_error, ◌>>=◌, ◌>>◌, guard, q_assert,
}
use small_program.Memory.{mem_read}
use small_program.Buffer.{Buffer, readable_bytes, peek, append, retrieve}
use small_program.Message.Qt.{Qt, QByteArray}
use small_program.Message.Frame.{MsgHeader, request, get_message_length, get_code_from_byte_array}
use small_program.Message.Fields.{Endpoint}
use small_program.Message.File.{File}
use small_program.Message.ClientStatus
use small_program.Message.ClientStatus.{UpdateClientStatusMsg, client_status_header}
use small_program.Message.FileRequest
use small_program.Message.FileRequest.{SendFileRequestMsg, file_request_header}
use small_program.Message.Progress
use small_program.Message.Progress.{UpdateProgressMsg, progress_header}
use small_program.Message.ConnResponse
use small_program.Message.ConnResponse.{
  GetConnStatusResponseMsg, conn_response_header, conn_response_length,
}

-- What is emitted by `dispatchMessage`.
pub data Dispatched : Type 0 where
  conn_response : GetConnStatusResponseMsg → Dispatched
  client_status : UpdateClientStatusMsg → Dispatched
  file_request : SendFileRequestMsg → Dispatched
  progress : UpdateProgressMsg → Dispatched

-- The local variables `message`. A field without an initialiser has no known value in C++: 0 and
-- empty stand for it here, and every field is set before the message is dispatched.
abbrev pub no_endpoint : Endpoint
no_endpoint = record { ip = []; port = 0; client_id = [] }

abbrev pub new_conn_response : GetConnStatusResponseMsg
new_conn_response = record { header_info = conn_response_header; status_code = 0 }

abbrev pub new_client_status : UpdateClientStatusMsg
new_client_status = record {
  header_info = client_status_header;
  status = 0;
  endpoint = no_endpoint;
  client_name = [];
}

abbrev pub new_file_request : SendFileRequestMsg
new_file_request = record {
  header_info = file_request_header;
  endpoint = no_endpoint;
  file = record { file_size = 0; time_stamp = 0; file_name = [] };
}

abbrev pub new_progress : UpdateProgressMsg
new_progress = record {
  header_info = progress_header;
  endpoint = no_endpoint;
  file_size = 0;
  sent_size = 0;
  time_stamp = 0;
  file_name = [];
}

-- One round of the loop: the loop ends, or it goes on with the buffer as it is then and what has
-- been dispatched.
pub data Turn : Type 0 where
  stop : Turn
  again : Buffer → List Dispatched → Turn

-- QByteArray(m_buffer.peek(), m_buffer.readableBytes())
unfoldable pub received_bytes : Buffer → Result QByteArray
unfolding peek readable_bytes
received_bytes b = do
  guard (ltb (readable_bytes b) (2 ^ 31)) length_error
  mem_read b.bytes (peek b) (readable_bytes b)

module _ (qt : Qt) (build : Build) where
  -- After `fromByteArray`: on success the message's bytes go and it is dispatched.
  unfoldable pub take_message {ℓ} :
      {M : Type ℓ} → (M → ℕ) → (M → Dispatched) → Buffer → Bool × M → Result Turn
  take_message size wrap b (false, m) = ok (again b [])
  take_message size wrap b (true, m) = do
    b' ← retrieve build b (size m)
    ok (again b' (wrap m ∷ []))

  abbrev take_conn_response : Buffer → QByteArray → Result Turn
  take_conn_response b bytes =
      ConnResponse.from_byte_array qt build bytes new_conn_response
      >>= take_message (λ m. conn_response_length) conn_response b

  abbrev take_client_status : Buffer → QByteArray → Result Turn
  take_client_status b bytes =
      ClientStatus.from_byte_array qt build bytes new_client_status
      >>= take_message (λ m. get_message_length m.header_info) client_status b

  abbrev take_file_request : Buffer → QByteArray → Result Turn
  take_file_request b bytes =
      FileRequest.from_byte_array qt build bytes new_file_request
      >>= take_message (λ m. get_message_length m.header_info) file_request b

  abbrev take_progress : Buffer → QByteArray → Result Turn
  take_progress b bytes =
      Progress.from_byte_array qt build bytes new_progress
      >>= take_message (λ m. get_message_length m.header_info) progress b

  -- Q_ASSERT(false), and the loop goes on.
  abbrev unexpected : Buffer → Result Turn
  unexpected b = do q_assert build false; ok (again b [])

  -- The body of the loop: the switch over the code.
  unfoldable pub handle : Buffer → QByteArray → ℕ × ℕ → Result Turn
  unfolding take_message
  handle b bytes (type, code) =
      if code == 1
      then take_conn_response b bytes
      else (if code == 2
          then ok (again b [])
          else (if code == 3
              then take_client_status b bytes
              else (if code == 4
                  then (if type == request then take_file_request b bytes else unexpected b)
                  else (if code == 5 then take_progress b bytes else unexpected b))))

  abbrev pub switched : Buffer → QByteArray → Option (ℕ × ℕ) → Result Turn
  switched b bytes none = ok stop
  switched b bytes (some c) = handle b bytes c

  -- The loop's condition, and its body.
  unfoldable pub turn : Buffer → Result Turn
  unfolding received_bytes handle
  turn b = do bytes ← received_bytes b; c ← get_code_from_byte_array build bytes; switched b bytes c

  -- The loop, for so many rounds; `none` means that it has not ended by then. What was
  -- dispatched is collected in order.
  unfoldable pub loop : ℕ → Buffer → List Dispatched → Result (Option (Buffer × List Dispatched))
  unfolding turn
  loop zero b out = ok none
  loop (suc rounds) b out = turn b >>= λ t. elim t [
    | stop ↦ ok (some (b, out))
    | again b' more ↦ loop rounds b' (out ++ more)
  ]

  unfoldable pub on_recv_server_data :
      ℕ → Buffer → QByteArray → Result (Option (Buffer × List Dispatched))
  unfolding loop
  on_recv_server_data rounds b bytes = do b' ← append build b bytes; loop rounds b' []

  abbrev pub behind :
      List Dispatched → Option (Buffer × List Dispatched) → Option (Buffer × List Dispatched)
  behind out none = none
  behind out (some (b, more)) = some (b, out ++ more)

  -- Each `readyRead` of the pipe emits what has arrived, and the slot above runs on it. `none`
  -- means that one of the runs has not ended in so many rounds.
  unfoldable pub receive_all :
      ℕ → Buffer → List QByteArray → Result (Option (Buffer × List Dispatched))
  unfolding on_recv_server_data
  receive_all rounds b [] = ok (some (b, []))
  receive_all rounds b (chunk ∷ chunks) = on_recv_server_data rounds b chunk >>= λ r. elim r [
    | none ↦ ok none
    | some (b', out) ↦ (do r' ← receive_all rounds b' chunks; ok (behind out r'))
  ]
