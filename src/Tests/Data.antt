-- ===== src/Tests/Data.antt =====
-- A toolkit of ASCII strings, and the messages and buffers of the test runs.
use small_program.Base.{
  ℕ, ◌+◌, ◌^◌, ◌<◌, refl, List, [], ◌∷◌, ◌++◌, length, replicate, length-append, length-replicate,
  arith,
}
use small_program.Base.Words.{to_big_endian, from_big_endian, from_big_endian-to_big_endian}
use small_program.Buffer.{Buffer}
use small_program.Buffer.Regions.{Holds}
use small_program.Paste.Formats.{Registered}
use small_program.Message.Qt.{Qt, QString, IsAscii}
use small_program.Message.Fields.{Endpoint, IsEndpoint, IsCarried}
use small_program.Message.File.{File, IsFile}
use small_program.Message.ClientStatus
use small_program.Message.ClientStatus.{UpdateClientStatusMsg, client_status_header}
use small_program.Message.FileRequest
use small_program.Message.FileRequest.{SendFileRequestMsg, file_request_header}
use small_program.Message.FileResponse
use small_program.Message.FileResponse.{SendFileResponseMsg, file_response_header}
use small_program.Message.Progress
use small_program.Message.Progress.{UpdateProgressMsg, progress_header}
use small_program.Message.ConnRequest.{GetConnStatusRequestMsg, conn_request_header}
use small_program.Message.ConnResponse.{GetConnStatusResponseMsg, conn_response_header}

-- Strings are ASCII, and an address is written as its four bytes.
abbrev pub ascii_qt : Qt
ascii_qt = record {
  IsText = IsAscii;
  to_utf8 = λ s. s;
  from_utf8 = λ s. s;
  to_ipv4 = from_big_endian;
  ip_text = to_big_endian 4;
  from_utf8-to_utf8 = λ s h. refl;
  to_utf8-HasNoNul = λ s h. h;
  to_utf8_ascii = λ s h. refl;
  IsAscii-IsText = λ s h. h;
  to_ipv4-ip_text = λ address h. from_big_endian-to_big_endian 4 address h;
}

abbrev pub sample_endpoint : Endpoint
sample_endpoint = record {
  ip = to_big_endian 4 3232235777;
  port = 8888;
  client_id = replicate 46 65;
}

pub sample-IsEndpoint : IsEndpoint ascii_qt sample_endpoint
sample-IsEndpoint = record {
  address = 3232235777;
  address_bound = omega arith;
  ip_is = refl;
  port_bound = omega arith;
  id_is = refl;
}

-- "a.c"
abbrev pub sample_name : QString
sample_name = 97 ∷ 46 ∷ 99 ∷ []

pub sample-IsCarried : IsCarried ascii_qt sample_name
sample-IsCarried = record {
  text = (omega arith, omega arith, (omega arith, omega arith, (omega arith, omega arith, tt)));
  no_nul = (omega arith, (omega arith, (omega arith, tt)));
  short = omega arith;
}

abbrev pub sample_file : File
sample_file = record { file_size = 5000000000; time_stamp = 1700000000; file_name = sample_name }

pub sample-IsFile : IsFile ascii_qt sample_file
sample-IsFile = record {
  size_bound = omega arith;
  time_bound = omega arith;
  name = sample-IsCarried;
}

abbrev pub sample_status : UpdateClientStatusMsg
sample_status = record {
  header_info = client_status_header;
  status = 1;
  endpoint = sample_endpoint;
  client_name = sample_name;
}

pub sample_status-IsSendable : ClientStatus.IsSendable ascii_qt sample_status
sample_status-IsSendable = record {
  tagged = refl;
  endpoint = sample-IsEndpoint;
  name = sample-IsCarried;
}

abbrev pub sample_request : SendFileRequestMsg
sample_request = record {
  header_info = file_request_header;
  endpoint = sample_endpoint;
  file = sample_file;
}

pub sample_request-IsSendable : FileRequest.IsSendable ascii_qt sample_request
sample_request-IsSendable = record {
  tagged = refl;
  endpoint = sample-IsEndpoint;
  file = sample-IsFile;
}

abbrev pub sample_response : SendFileResponseMsg
sample_response = record {
  header_info = file_response_header;
  status_code = 1;
  endpoint = sample_endpoint;
  file = sample_file;
}

pub sample_response-IsSendable : FileResponse.IsSendable ascii_qt sample_response
sample_response-IsSendable = record {
  tagged = refl;
  endpoint = sample-IsEndpoint;
  file = sample-IsFile;
}

abbrev pub sample_progress : UpdateProgressMsg
sample_progress = record {
  header_info = progress_header;
  endpoint = sample_endpoint;
  file_size = 5000000000;
  sent_size = 4000000000;
  time_stamp = 1700000000;
  file_name = sample_name;
}

pub sample_progress-IsSendable : Progress.IsSendable ascii_qt sample_progress
sample_progress-IsSendable = record {
  tagged = refl;
  endpoint = sample-IsEndpoint;
  size_bound = omega arith;
  sent_bound = omega arith;
  time_bound = omega arith;
  name = sample-IsCarried;
}

abbrev pub sample_conn_request : GetConnStatusRequestMsg
sample_conn_request = record { header_info = conn_request_header }

abbrev pub sample_conn_response : GetConnStatusResponseMsg
sample_conn_response = record { header_info = conn_response_header; status_code = 1 }

-- Buffer(n) with `xs` put into it, and room for `room` more bytes.
abbrev pub buffer_of : List ℕ → ℕ → Buffer
buffer_of xs room = record {
  bytes = replicate 8 0 ++ (xs ++ replicate room 0);
  reader_index = 8;
  writer_index = 8 + length xs;
}

pub buffer_of-Holds :
    (xs : List ℕ) (room : ℕ) → length xs + room < 2 ^ 20 → Holds (buffer_of xs room) xs
buffer_of-Holds xs room small = record {
  before = replicate 8 0;
  after = replicate room 0;
  layout = refl;
  reader_at = refl;
  writer_at = refl;
  reserved = omega (arith, length-append {0}, length-replicate {A = ℕ} room 0);
  limit = omega (arith, length-append xs (replicate room 0), length-replicate {A = ℕ} room 0);
}

-- The first two numbers of the registered formats.
abbrev pub ids : Registered
ids = record {
  descriptor = 49152;
  contents = 49153;
  descriptor-range = omega arith;
  contents-range = omega arith;
  distinct = λ e. omega (arith, e);
}
