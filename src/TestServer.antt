-- ===== src/TestServer.antt =====
-- test-server/mainwindow.cpp: the window of the server that the client is tried with. It takes
-- messages from its buffer, answers them, and reports the progress of a file on a timer.
pub mod Progress
pub mod Answers
pub mod Transfers
use small_program.Base.{
  ℕ, zero, suc, ◌+◌, ◌<◌, ◌≤◌, ◌≡◌, List, [], ◌∷◌, ◌++◌, Option, none, some, Bool, true, false, leb,
  ◌==◌, if◌then◌else◌, Build, Result, ok, ◌>>=◌, ◌>>◌, q_assert, err, uncaught,
}
use small_program.Buffer.{Buffer, append, retrieve}
use small_program.Message.Qt.{Qt, QString, QByteArray}
use small_program.Message.Frame.{response, request, get_message_length, get_code_from_byte_array}
use small_program.Message.Fields.{Endpoint}
use small_program.Message.Progress as ProgressMsg
use small_program.Message.Progress.{UpdateProgressMsg, progress_header}
use small_program.Message.ConnRequest
use small_program.Message.ConnRequest.{
  GetConnStatusRequestMsg, conn_request_header, conn_request_length,
}
use small_program.Message.ConnResponse
use small_program.Message.ConnResponse.{conn_response_header}
use small_program.Message.FileRequest
use small_program.Message.FileRequest.{SendFileRequestMsg}
use small_program.Message.FileResponse
use small_program.Message.FileResponse.{SendFileResponseMsg, file_response_header}
use small_program.Process.{new_file_request, no_endpoint, received_bytes}

-- `timer` is whether m_timer runs; `cache_progress_msg` is what m_cacheProgressMsgPtr points to.
pub record TestServer : Type 0 where
  pub buffer : Buffer
  pub timer : Bool
  pub cache_progress_val : ℕ
  pub cache_progress_msg : Option UpdateProgressMsg

-- The messages that are read into.
abbrev pub new_conn_request : GetConnStatusRequestMsg
new_conn_request = record { header_info = conn_request_header }

abbrev pub new_file_response : SendFileResponseMsg
new_file_response = record {
  header_info = file_response_header;
  status_code = 0;
  endpoint = no_endpoint;
  file = record { file_size = 0; time_stamp = 0; file_name = [] };
}

-- A progress message that is not complete: the size is set for each report.
abbrev pub progress_for : Endpoint → ℕ → QString → UpdateProgressMsg
progress_for endpoint time_stamp file_name = record {
  header_info = progress_header;
  endpoint = endpoint;
  file_size = 0;
  sent_size = 0;
  time_stamp = time_stamp;
  file_name = file_name;
}

abbrev pub cache : UpdateProgressMsg → TestServer → TestServer
cache msg s = record s { cache_progress_msg = some msg }

-- The new timer, at the end of the case of a file.
abbrev pub start_timer : TestServer → TestServer
start_timer s = record s { timer = true; cache_progress_val = 0 }

-- A round of the loop: its end, or the server then and what it sends.
pub data Round : Type 0 where
  finish : Round
  next : TestServer → List QByteArray → Round

-- infoJson.dump(4) of a message; `none` where it throws, since a text is not UTF-8.
pub record Log : Type 0 where
  pub response_text : SendFileResponseMsg → Option QByteArray
  pub request_text : SendFileRequestMsg → Option QByteArray

abbrev pub logged : Option QByteArray → Result (Unit {0})
logged none = err uncaught
logged (some text) = ok tt

module _ (log : Log) (qt : Qt) (build : Build) where
  unfoldable pub answer_conn_request : TestServer → Bool × GetConnStatusRequestMsg → Result Round
  answer_conn_request s (false, msg) = ok (next s [])
  answer_conn_request s (true, msg) = do
    b ← retrieve build s.buffer conn_request_length
    reply ←
        ConnResponse.to_byte_array qt build
          (record { header_info = conn_response_header; status_code = 1 })
    ok (next (record s { buffer = b }) (reply ∷ []))

  -- A refusal leaves the timer.
  unfoldable pub on_file_response : TestServer → Bool × SendFileResponseMsg → Result Round
  on_file_response s (false, msg) = ok (next (start_timer s) [])
  on_file_response s (true, msg) = do
    b ← retrieve build s.buffer (get_message_length msg.header_info)
    _ ← logged (log.response_text msg)
    let s' = record s { buffer = b }
    if msg.status_code == 0
        then ok (next s' [])
        else ok (
            next (start_timer (cache (progress_for msg.endpoint msg.time_stamp msg.file_name) s'))
              [])

  unfoldable pub on_file_request : TestServer → Bool × SendFileRequestMsg → Result Round
  on_file_request s (false, msg) = ok (next (start_timer s) [])
  on_file_request s (true, msg) = do
    b ← retrieve build s.buffer (get_message_length msg.header_info)
    _ ← logged (log.request_text msg)
    let s' = record s { buffer = b }
    ok (next (start_timer (cache (progress_for msg.endpoint msg.time_stamp msg.file_name) s')) [])

  -- The switch over the code.
  unfoldable pub serve : TestServer → QByteArray → ℕ × ℕ → Result Round
  unfolding answer_conn_request on_file_response on_file_request
  serve s bytes (type, code) =
      if code == 1
      then ConnRequest.from_byte_array qt build bytes new_conn_request >>= answer_conn_request s
      else (if code == 4
          then (if type == response
              then FileResponse.from_byte_array qt build bytes new_file_response
                >>= on_file_response s
              else q_assert build (type == request)
                >> (FileRequest.from_byte_array qt build bytes new_file_request
                    >>= on_file_request s))
          else q_assert build false >> ok (next s []))

  abbrev pub round_for : TestServer → QByteArray → Option (ℕ × ℕ) → Result Round
  unfolding serve
  round_for s bytes none = ok finish
  round_for s bytes (some c) = serve s bytes c

  unfoldable pub round : TestServer → Result Round
  unfolding round_for received_bytes
  round s = do
    bytes ← received_bytes s.buffer
    c ← get_code_from_byte_array build bytes
    round_for s bytes c

  -- The loop for so many rounds; `none` means that it has not ended then.
  unfoldable pub rounds :
      ℕ → TestServer → List QByteArray → Result (Option (TestServer × List QByteArray))
  unfolding round
  rounds zero s out = ok none
  rounds (suc k) s out = round s >>= λ r. elim r [
    | finish ↦ ok (some (s, out))
    | next s' more ↦ rounds k s' (out ++ more)
  ]

  -- onRecvClientData
  unfoldable pub on_recv_client_data :
      ℕ → TestServer → QByteArray → Result (Option (TestServer × List QByteArray))
  unfolding rounds
  on_recv_client_data k s bytes = do
    b ← append build s.buffer bytes
    rounds k (record s { buffer = b }) []

-- static_cast<uint64_t>(k * delta), where delta is a hundredth of the size as double, and at least 1.
-- Below 100 parts of a size of at least 100 do not exceed it.
pub record Pace : Type 0 where
  pub sent : ℕ → ℕ → ℕ
  pub sent_part : (k size : ℕ) → k < 100 → 100 ≤ size → sent k size ≤ size
  pub sent_small : (k size : ℕ) → size < 100 → sent k size ≡ k

-- A timeout of the timer: the size of the file, 0 where there is none, and the time.
pub record Timeout : Type 0 where
  pub size : ℕ
  pub now : ℕ

module _ (pace : Pace) (qt : Qt) (build : Build) where
  -- The message of one report, with the value after its increment.
  abbrev pub report : UpdateProgressMsg → ℕ → Timeout → UpdateProgressMsg
  report msg val t = record {
    header_info = progress_header;
    endpoint = msg.endpoint;
    file_size = t.size;
    sent_size = if leb 100 val then t.size else pace.sent val t.size;
    time_stamp = t.now;
    file_name = msg.file_name;
  }

  abbrev pub send_report :
      TestServer → Option UpdateProgressMsg → Timeout → Result (TestServer × List QByteArray)
  send_report s none t = ok (s, [])
  send_report s (some msg) t =
      if leb 100 s.cache_progress_val
      then ok (record s { timer = false; cache_progress_msg = none }, [])
      else (do
        bytes ← ProgressMsg.to_byte_array qt build (report msg (s.cache_progress_val + 1) t)
        ok (record s { cache_progress_val = s.cache_progress_val + 1 }, bytes ∷ []))

  -- sendProgressData
  unfoldable pub send_progress_data : TestServer → Timeout → Result (TestServer × List QByteArray)
  send_progress_data s t = send_report s s.cache_progress_msg t

  -- Timeouts, which come while the timer runs.
  unfoldable pub timeouts : TestServer → List Timeout → Result (TestServer × List QByteArray)
  unfolding send_progress_data
  timeouts s [] = ok (s, [])
  timeouts s (t ∷ ts) = do
    r ← if s.timer then send_progress_data s t else ok (s, [])
    rest ← timeouts r.0 ts
    ok (rest.0, r.1 ++ rest.1)
