-- ===== src/Window.antt =====
-- windows_clipboard/src/mainwindow.cpp and device_info.cpp: what the main window does with a
-- message that was dispatched, and what a device's widget sends and shows. A slot returns the
-- global data as it leaves it, and the signals it emits in order, the log's left out.
pub mod Offers
pub mod Progress
use small_program.Base.{
  ℕ, ◌+◌, ◌*◌, ◌<◌, ◌≤◌, ◌≡◌, List, [], ◌∷◌, ◌++◌, Option, none, some, Bool, true, false, ltb, leb,
  not, ◌==◌, if◌then◌else◌, bytes_eq, Build, Result, ok, err, undefined, uncaught, ◌>>=◌, ◌>>◌,
}
use small_program.Message.Qt.{Qt, QString, QByteArray, c_string}
use small_program.Message.ClientStatus.{UpdateClientStatusMsg}
use small_program.Message.FileRequest
use small_program.Message.FileRequest.{SendFileRequestMsg, file_request_header}
use small_program.Message.FileResponse
use small_program.Message.FileResponse.{SendFileResponseMsg, file_response_header}
use small_program.Message.Progress.{UpdateProgressMsg}
use small_program.Process.{Dispatched, conn_response, client_status, file_request, progress}
use small_program.ClientList.{update_clients, find_client}
use small_program.FileName.{slash, get_file_name_by_path}

pub record GlobalData : Type 0 where
  pub named_pipe_connected : Bool
  pub client_vec : List UpdateClientStatusMsg
  pub selected_file_name : QString
  pub display_log_switch : Bool

pub data Emitted : Type 0 where
  show_info_message_box show_warning_message_box update_client_list : Emitted
  pipe_disconnected system_config_changed : Emitted
  send_data_to_server : QByteArray → Emitted
  update_control_status : Bool → Emitted
  update_progress_info_with_id : ℕ → QByteArray → Emitted

-- What the user answers when a file is offered: to refuse it, or to accept it and choose a
-- directory; the directory is empty when that dialog is closed.
pub data Answer : Type 0 where
  refused : Answer
  accepted : QString → Answer

-- Arithmetic on double, and the JSON of the log.
pub record Host : Type 0 where
  -- static_cast<int>((sent / double(total)) * 100); `none` where int has no such value.
  pub percent : ℕ → ℕ → Option ℕ
  -- infoJson.dump(4); `none` where it throws.
  pub dump : UpdateProgressMsg → Option QByteArray
  -- The quotient of a smaller number by a larger one is at most 1.
  pub percent_part :
      (sent total : ℕ) → sent < total → (p : ℕ) × (percent sent total ≡ some p) × (p ≤ 100)
  -- The quotient by zero is infinite or no number.
  pub percent_zero : (sent : ℕ) → percent sent 0 ≡ none

-- The reply to a request: its endpoint, size and time stamp, with a status and a file name.
abbrev pub response_to : SendFileRequestMsg → ℕ → QString → SendFileResponseMsg
response_to msg status_code file_name = record {
  header_info = file_response_header;
  status_code = status_code;
  endpoint = msg.endpoint;
  file = record { file_size = msg.file_size; time_stamp = msg.time_stamp; file_name = file_name };
}

-- `progressVal`, of a cast and a test.
unfoldable pub progress_val : Option ℕ → ℕ → ℕ → Result ℕ
progress_val none sent total = err undefined
progress_val (some p) sent total = ok (if leb total sent then 100 else p)

module _ (host : Host) (qt : Qt) (build : Build) where
  -- onDispatchMessage of a file request.
  unfoldable pub answer_request :
      Answer → GlobalData → SendFileRequestMsg → Result (GlobalData × List Emitted)
  answer_request refused g msg = do
    bytes ← FileResponse.to_byte_array qt build (response_to msg 0 msg.file_name)
    ok (g, send_data_to_server bytes ∷ [])
  answer_request (accepted []) g msg = ok (g, [])
  answer_request (accepted (x ∷ dir)) g msg = do
    name ← get_file_name_by_path build qt msg.file_name
    bytes ← FileResponse.to_byte_array qt build (response_to msg 1 (x ∷ dir ++ slash ∷ name))
    ok (g, send_data_to_server bytes ∷ update_control_status false ∷ [])

  abbrev logged : Option QByteArray → Result (Unit {0})
  logged none = err uncaught
  logged (some text) = ok tt

  -- onDispatchMessage of a progress message.
  unfoldable pub show_progress : GlobalData → UpdateProgressMsg → Result (GlobalData × List Emitted)
  unfolding progress_val
  show_progress g msg = do
    logged (host.dump msg)
    val ← progress_val (host.percent msg.sent_size msg.file_size) msg.sent_size msg.file_size
    ok (g, update_progress_info_with_id val msg.client_id ∷ [])

  unfoldable pub on_dispatch_message :
      Answer → GlobalData → Dispatched → Result (GlobalData × List Emitted)
  unfolding answer_request show_progress
  on_dispatch_message answer g (conn_response msg) =
      ok
        (g, (if msg.status_code == 1 then show_info_message_box else show_warning_message_box) ∷ [])
  on_dispatch_message answer g (client_status msg) =
      ok (record g { client_vec = update_clients msg g.client_vec }, update_client_list ∷ [])
  on_dispatch_message answer g (file_request msg) = answer_request answer g msg
  on_dispatch_message answer g (progress msg) = show_progress g msg

-- MainWindow::on_settings_btn_clicked
unfoldable pub on_settings_btn_clicked : GlobalData → GlobalData × List Emitted
on_settings_btn_clicked g =
    (record g { display_log_switch = not g.display_log_switch }, system_config_changed ∷ [])

-- NamedPipeClient::onConnected and onDisconnected of common/namedpipe_client.cpp.
unfoldable pub on_connected : GlobalData → GlobalData
on_connected g = record g { named_pipe_connected = true }

unfoldable pub on_disconnected : GlobalData → GlobalData × List Emitted
on_disconnected g =
    (record g { named_pipe_connected = false; client_vec = [] }, pipe_disconnected ∷ [])

-- The widget of a device: the id in its JSON, its progress bar, and whether its button to send a
-- file is enabled.
pub record DeviceInfo : Type 0 where
  pub shown_id : QByteArray
  pub bar : ℕ
  pub file_icon : Bool

-- The id goes through a C string.
unfoldable pub get_client_id : DeviceInfo → QByteArray
get_client_id w = c_string w.shown_id

unfoldable pub on_update_progress_info_with_id :
    ℕ → QByteArray → DeviceInfo → DeviceInfo × List Emitted
unfolding get_client_id
on_update_progress_info_with_id val id w =
    if bytes_eq id (get_client_id w)
    then (record w { bar = val }, if leb 100 val then update_control_status true ∷ [] else [])
    else (record w { bar = 0 }, [])

unfoldable pub on_update_control_status : Bool → DeviceInfo → DeviceInfo
on_update_control_status status w = record w { file_icon = status }

-- The request that a widget sends to its client.
abbrev pub request_to : UpdateClientStatusMsg → ℕ → ℕ → QString → SendFileRequestMsg
request_to client file_size time_stamp file_name = record {
  header_info = file_request_header;
  endpoint = client.endpoint;
  file = record { file_size = file_size; time_stamp = time_stamp; file_name = file_name };
}

module _ (qt : Qt) (build : Build) where
  -- The second half of `onOpenFile`: with the client, and the file that the user chose, its size
  -- and the time. The name is empty when the dialog is closed.
  unfoldable pub offer_file :
      GlobalData → UpdateClientStatusMsg → QString → ℕ → ℕ → Result (GlobalData × List Emitted)
  offer_file g client [] size now = ok (record g { selected_file_name = [] }, [])
  offer_file g client (x ∷ name) size now = do
    bytes ← FileRequest.to_byte_array qt build (request_to client size now (x ∷ name))
    ok (
      record g { selected_file_name = x ∷ name },
      send_data_to_server bytes ∷ update_control_status false ∷ [],
    )

  abbrev with_client :
      GlobalData
      → QString
      → ℕ
      → ℕ
      → Option UpdateClientStatusMsg
      → Result (GlobalData × List Emitted)
  with_client g name size now none = ok (g, [])
  with_client g name size now (some client) = offer_file g client name size now

  unfoldable pub on_open_file :
      DeviceInfo → GlobalData → QString → ℕ → ℕ → Result (GlobalData × List Emitted)
  unfolding get_client_id offer_file
  on_open_file w g name size now =
      with_client g name size now (find_client (get_client_id w) g.client_vec)
