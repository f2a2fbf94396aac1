-- ===== src/Window/Offers.antt =====
-- The offers of files: what the window answers to one, and what a widget sends.
use small_program.Base.{
  sym, subst, Ensures-ok, ◌≢◌, ℕ, ◌+◌, ◌*◌, ◌≡◌, refl, ap, ◌∙◌, List, [], ◌∷◌, ◌++◌, append-nil,
  some, true, false, length, arith, Build, ok, Ensures, done, Ensures-bind,
}
use small_program.Message.Qt.{Qt, QString, QByteArray, IsAscii}
use small_program.Message.Fields.{IsEndpoint, IsCarried}
use small_program.Message.File.{IsFile}
use small_program.Message.ClientStatus.{UpdateClientStatusMsg}
use small_program.Message.FileRequest
use small_program.Message.FileRequest.{SendFileRequestMsg}
use small_program.Message.FileResponse
use small_program.Message.FileResponse.{SendFileResponseMsg}
use small_program.Process.{file_request}
use small_program.ClientList.{find_client}
use small_program.FileName.{slash, Named, get_file_name_by_path_lem}
use small_program.Window.{
  GlobalData, Emitted, send_data_to_server, update_control_status, Answer, refused, accepted, Host,
  response_to, answer_request, on_dispatch_message, DeviceInfo, get_client_id, request_to,
  offer_file, on_open_file,
}

-- Bytes from which the server reads the response back, with the content's length in its header.
abbrev pub ReadsResponse : Qt → Build → SendFileResponseMsg → QByteArray → Type 0
ReadsResponse qt build msg bytes =
    (old : SendFileResponseMsg)
    → FileResponse.from_byte_array qt build bytes old
      ≡ ok (true, FileResponse.delivered msg (69 + 2 * length msg.file_name))

abbrev pub ReadsRequest : Qt → Build → SendFileRequestMsg → QByteArray → Type 0
ReadsRequest qt build msg bytes =
    (old : SendFileRequestMsg)
    → FileRequest.from_byte_array qt build bytes old
      ≡ ok (true, FileRequest.delivered msg (68 + 2 * length msg.file_name))

response_to-IsSendable :
    (qt : Qt) (msg : SendFileRequestMsg) (status : ℕ) (name : QString)
    → FileRequest.IsSendable qt msg
    → IsCarried qt name
    → FileResponse.IsSendable qt (response_to msg status name)
response_to-IsSendable qt msg status name v named = record {
  tagged = refl;
  endpoint = v.endpoint;
  file = record { size_bound = v.file.size_bound; time_bound = v.file.time_bound; name = named };
}

module _ (qt : Qt) (build : Build) where
  to_byte_array-ReadsResponse :
      (msg : SendFileResponseMsg)
      → FileResponse.IsSendable qt msg
      → Ensures (ReadsResponse qt build msg) (FileResponse.to_byte_array qt build msg)
  to_byte_array-ReadsResponse msg v = rw (FileResponse.file_response-frame qt build msg v) (
      done _ λ old.
        sym (ap (λ bytes. FileResponse.from_byte_array qt build bytes old) (append-nil _))
        ∙ (Ensures-ok (
            subst (Ensures _) (FileResponse.file_response-frame qt build msg v)
              (FileResponse.file_response_round_trip qt build msg old [] v (omega arith)))).0)

  to_byte_array-ReadsRequest :
      (msg : SendFileRequestMsg)
      → FileRequest.IsSendable qt msg
      → Ensures (ReadsRequest qt build msg) (FileRequest.to_byte_array qt build msg)
  to_byte_array-ReadsRequest msg v = rw (FileRequest.file_request-frame qt build msg v) (
      done _ λ old.
        sym (ap (λ bytes. FileRequest.from_byte_array qt build bytes old) (append-nil _))
        ∙ (Ensures-ok (
            subst (Ensures _) (FileRequest.file_request-frame qt build msg v)
              (FileRequest.file_request_round_trip qt build msg old [] v (omega arith)))).0)

-- The file name of the reply.
abbrev pub reply_name : Answer → QString → QString → QString
reply_name refused path name = path
reply_name (accepted dir) path name = dir ++ slash ∷ name

abbrev pub reply_status : Answer → ℕ
reply_status refused = 0
reply_status (accepted dir) = 1

-- What the window emits with the reply: on acceptance the controls are disabled too.
abbrev pub after_reply : Answer → List Emitted
after_reply refused = []
after_reply (accepted dir) = update_control_status false ∷ []

-- A directory was chosen, if the file was accepted.
abbrev pub IsAnswered : Answer → Type 0
IsAnswered refused = Unit {0}
IsAnswered (accepted dir) = dir ≢ []

module _ (host : Host) (qt : Qt) (build : Build) where
  -- When a file request that the format can carry is dispatched and the user answers, one
  -- response goes to the server, from whose bytes fromByteArray reads: the status 0 and the
  -- request's file name on refusal, the status 1 and the chosen directory with the name at the
  -- end of the request's path on acceptance, and the request's endpoint, size and time stamp. On
  -- acceptance the controls are disabled too, and the global data stay. The conditions: the path
  -- is ASCII and has a slash or a backslash, a directory was chosen on acceptance, and the
  -- reply's file name can be carried.
  pub on_dispatch_message-ReadsResponse :
      (answer : Answer) (g : GlobalData) (msg : SendFileRequestMsg) (name : QString)
      → FileRequest.IsSendable qt msg
      → IsAscii msg.file_name
      → Named msg.file_name name
      → IsAnswered answer
      → IsCarried qt (reply_name answer msg.file_name name)
      → Ensures
          (λ r.
            (bytes : QByteArray) × (r ≡ (g, send_data_to_server bytes ∷ after_reply answer))
            × ReadsResponse qt build
                (response_to msg (reply_status answer) (reply_name answer msg.file_name name))
                bytes)
          (on_dispatch_message host qt build answer g (file_request msg))
  unfolding on_dispatch_message answer_request
  on_dispatch_message-ReadsResponse refused g msg name v ascii named answered carried =
      Ensures-bind (ReadsResponse qt build (response_to msg 0 msg.file_name)) _ _ _
        (to_byte_array-ReadsResponse qt build (response_to msg 0 msg.file_name)
          (response_to-IsSendable qt msg 0 msg.file_name v carried))
        λ bytes reads. done _ (bytes, refl, reads)
  on_dispatch_message-ReadsResponse (accepted []) g msg name v ascii named answered carried =
      absurd (answered refl)
  on_dispatch_message-ReadsResponse (accepted (x ∷ dir)) g msg name v ascii named answered carried =
      rw (get_file_name_by_path_lem build qt msg.file_name name ascii named) (
        Ensures-bind (ReadsResponse qt build (response_to msg 1 (x ∷ dir ++ slash ∷ name))) _ _ _
          (to_byte_array-ReadsResponse qt build (response_to msg 1 (x ∷ dir ++ slash ∷ name))
            (response_to-IsSendable qt msg 1 (x ∷ dir ++ slash ∷ name) v carried))
          λ bytes reads. done _ (bytes, refl, reads))

module _ (qt : Qt) (build : Build) where
  -- When the user chooses a file at the widget of a client that is in the list, one request goes
  -- to the server, from whose bytes fromByteArray reads the endpoint of the client's entry and
  -- the file's size, time stamp and path; the path is kept as the selected file, and the
  -- controls are disabled. The conditions: a file was chosen, and the format can carry the
  -- endpoint and the file.
  pub on_open_file-ReadsRequest :
      (w : DeviceInfo) (g : GlobalData) (client : UpdateClientStatusMsg) (name : QString)
      (size now : ℕ)
      → find_client (get_client_id w) g.client_vec ≡ some client
      → name ≢ []
      → IsEndpoint qt client.endpoint
      → IsFile qt (record { file_size = size; time_stamp = now; file_name = name })
      → Ensures
          (λ r.
            (bytes : QByteArray) × (r ≡ (
              record g { selected_file_name = name },
              send_data_to_server bytes ∷ update_control_status false ∷ [],
            ))
            × ReadsRequest qt build (request_to client size now name) bytes)
          (on_open_file qt build w g name size now)
  unfolding on_open_file offer_file
  on_open_file-ReadsRequest w g client [] size now found chosen e f = absurd (chosen refl)
  on_open_file-ReadsRequest w g client (x ∷ name) size now found chosen e f = rw found (
      Ensures-bind (ReadsRequest qt build (request_to client size now (x ∷ name))) _ _ _
        (to_byte_array-ReadsRequest qt build (request_to client size now (x ∷ name))
          (record { tagged = refl; endpoint = e; file = f }))
        λ bytes reads. done _ (bytes, refl, reads))
