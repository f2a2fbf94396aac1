-- ===== src/Tests/OnWindow.antt =====
-- The window: runs of its slots.
use small_program.Base.{
  ℕ, ◌<◌, ◌≤◌, ◌≡◌, refl, [], ◌∷◌, Option, none, some, true, false, ltb, ok, arith, debug, release,
  Ensures, ◌==◌, if◌then◌else◌, bytes_eq,
}
use small_program.Message.Qt.{QString, QByteArray, IsAscii, IsAscii-HasNoNul, c_string}
use small_program.Message.ClientStatus.{UpdateClientStatusMsg}
use small_program.Message.FileRequest
use small_program.Message.FileRequest.{SendFileRequestMsg}
use small_program.Message.Fields.{IsCarried}
use small_program.Process.{file_request}
use small_program.ClientList.{update_all, find_client}
use small_program.ClientList.Registry.{entry, IsUnique, find_client-update_all, disconnection_lags}
use small_program.FileName.{Named, slashed, get_file_name_by_path, get_file_name_by_path_lem}
use small_program.Window.{
  GlobalData, send_data_to_server, update_control_status, accepted, Host, response_to,
  on_dispatch_message, DeviceInfo, get_client_id, request_to, on_open_file,
}
use small_program.Window.Offers.{
  ReadsResponse, ReadsRequest, on_dispatch_message-ReadsResponse, on_open_file-ReadsRequest,
}
use small_program.Tests.Data.{
  ascii_qt, sample-IsEndpoint, sample-IsFile, sample_name, sample_status, sample_request,
}

-- A half for a quotient less than 1, and the whole for any other.
quotient : ℕ → ℕ → Option ℕ
quotient sent total = if total == 0 then none else (if ltb sent total then some 50 else some 100)

quotient_part :
    (sent total : ℕ) → sent < total → (p : ℕ) × (quotient sent total ≡ some p) × (p ≤ 100)
unfolding quotient
quotient_part sent total h = (50, ground arith, omega arith)

quotient_zero : (sent : ℕ) → quotient sent 0 ≡ none
unfolding quotient
quotient_zero sent = refl

abbrev full_host : Host
full_host = record {
  percent = quotient;
  dump = λ msg. some [];
  percent_part = quotient_part;
  percent_zero = quotient_zero;
}

abbrev gone_status : UpdateClientStatusMsg
gone_status = record sample_status { status = 0 }

find_client-update_all_example :
    (find_client sample_status.client_id (update_all (sample_status ∷ gone_status ∷ []) [])
      ≡ entry sample_status.client_id (sample_status ∷ gone_status ∷ []) none)
    × IsUnique (update_all (sample_status ∷ gone_status ∷ []) [])
unfolding find_client
find_client-update_all_example =
    find_client-update_all sample_status.client_id (sample_status ∷ gone_status ∷ []) [] tt

disconnection_lags_example :
    (find_client sample_status.client_id (update_all (sample_status ∷ gone_status ∷ []) [])
      ≡ some gone_status)
    × (find_client sample_status.client_id
          (update_all (sample_status ∷ gone_status ∷ sample_status ∷ []) [])
        ≡ none)
unfolding find_client
disconnection_lags_example = disconnection_lags sample_status gone_status [] tt refl refl refl refl

-- "/a.c"
abbrev sample_path : QString
sample_path = 47 ∷ sample_name

sample_path-IsAscii : IsAscii sample_path
sample_path-IsAscii = (
  omega arith,
  omega arith,
  (omega arith, omega arith, (omega arith, omega arith, (omega arith, omega arith, tt))),
)

sample_path-IsCarried : IsCarried ascii_qt sample_path
sample_path-IsCarried = record {
  text = sample_path-IsAscii;
  no_nul = IsAscii-HasNoNul sample_path sample_path-IsAscii;
  short = omega arith;
}

sample_path-Named : Named sample_path sample_name
sample_path-Named =
    slashed [] (λ e. omega (arith, e), (λ e. omega (arith, e), (λ e. omega (arith, e), tt)))

get_file_name_by_path_lem_example :
    get_file_name_by_path debug ascii_qt sample_path ≡ ok sample_name
get_file_name_by_path_lem_example =
    get_file_name_by_path_lem debug ascii_qt sample_path sample_name sample_path-IsAscii
      sample_path-Named

abbrev path_request : SendFileRequestMsg
path_request = record sample_request {
  file = record { file_size = 9; time_stamp = 8; file_name = sample_path };
}

abbrev sample_global : GlobalData
sample_global = record {
  named_pipe_connected = true;
  client_vec = sample_status ∷ [];
  selected_file_name = [];
  display_log_switch = false;
}

abbrev sample_widget : DeviceInfo
sample_widget = record { shown_id = sample_status.client_id; bar = 0; file_icon = true }

abbrev other_widget : DeviceInfo
other_widget = record { shown_id = 66 ∷ []; bar = 10; file_icon = true }

path_request-IsSendable : FileRequest.IsSendable ascii_qt path_request
path_request-IsSendable = record {
  tagged = refl;
  endpoint = sample-IsEndpoint;
  file = record {
    size_bound = omega arith;
    time_bound = omega arith;
    name = sample_path-IsCarried;
  };
}

on_dispatch_message-ReadsResponse_example :
    Ensures
      (λ r.
        (bytes : QByteArray) × (r
          ≡ (sample_global, send_data_to_server bytes ∷ update_control_status false ∷ []))
        × ReadsResponse ascii_qt release (response_to path_request 1 (68 ∷ 47 ∷ sample_name)) bytes)
      (on_dispatch_message full_host ascii_qt release
        (accepted (68 ∷ []))
        sample_global
        (file_request path_request))
on_dispatch_message-ReadsResponse_example =
    on_dispatch_message-ReadsResponse full_host ascii_qt release (accepted (68 ∷ [])) sample_global
      path_request sample_name path_request-IsSendable sample_path-IsAscii sample_path-Named
      (λ e. cc)
      (record {
        text = (omega arith, omega arith, sample_path-IsAscii);
        no_nul = (omega arith, IsAscii-HasNoNul sample_path sample_path-IsAscii);
        short = omega arith;
      })

on_open_file-ReadsRequest_example :
    Ensures
      (λ r.
        (bytes : QByteArray) × (r ≡ (
          record sample_global { selected_file_name = sample_name },
          send_data_to_server bytes ∷ update_control_status false ∷ [],
        ))
        × ReadsRequest ascii_qt release
            (request_to sample_status 5000000000 1700000000 sample_name)
            bytes)
      (on_open_file ascii_qt release sample_widget sample_global sample_name 5000000000 1700000000)
unfolding find_client get_client_id c_string bytes_eq quotient
on_open_file-ReadsRequest_example =
    on_open_file-ReadsRequest ascii_qt release sample_widget sample_global sample_status sample_name
      5000000000 1700000000 refl (λ e. cc) sample-IsEndpoint sample-IsFile
