-- ===== src/Tests/OnMessage.antt =====
-- The messages: runs of the serialisers and the parsers.
use small_program.Base.{◌≡◌, [], ◌∷◌, ◌++◌, true, length, arith, release, debug, Ensures, ok}
use small_program.Message.Frame.{get_message_length}
use small_program.Message.ClientStatus
use small_program.Message.FileRequest
use small_program.Message.Progress
use small_program.Tests.Data.{
  ascii_qt, sample_status, sample_status-IsSendable, sample_request, sample_request-IsSendable,
  sample_progress, sample_progress-IsSendable,
}
use small_program.Process.{new_client_status, new_file_request, new_progress}

client_status_round_trip_example :
    Ensures
      (λ bytes.
        (ClientStatus.from_byte_array ascii_qt release (bytes ++ 1 ∷ []) new_client_status
          ≡ ok (true, ClientStatus.delivered sample_status 59))
        × (get_message_length (ClientStatus.delivered sample_status 59).header_info ≡ length bytes))
      (ClientStatus.to_byte_array ascii_qt release sample_status)
client_status_round_trip_example =
    ClientStatus.client_status_round_trip ascii_qt release sample_status new_client_status (1 ∷ [])
      sample_status-IsSendable (omega arith)

file_request_round_trip_example :
    Ensures
      (λ bytes.
        (FileRequest.from_byte_array ascii_qt debug (bytes ++ 1 ∷ []) new_file_request
          ≡ ok (true, FileRequest.delivered sample_request 74))
        × (get_message_length (FileRequest.delivered sample_request 74).header_info ≡ length bytes))
      (FileRequest.to_byte_array ascii_qt debug sample_request)
file_request_round_trip_example =
    FileRequest.file_request_round_trip ascii_qt debug sample_request new_file_request (1 ∷ [])
      sample_request-IsSendable (omega arith)

progress_round_trip_example :
    Ensures
      (λ bytes.
        (Progress.from_byte_array ascii_qt release (bytes ++ []) new_progress
          ≡ ok (true, Progress.delivered sample_progress 82))
        × (get_message_length (Progress.delivered sample_progress 82).header_info ≡ length bytes))
      (Progress.to_byte_array ascii_qt release sample_progress)
progress_round_trip_example =
    Progress.progress_round_trip ascii_qt release sample_progress new_progress []
      sample_progress-IsSendable (omega arith)
