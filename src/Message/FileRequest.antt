-- ===== src/Message/FileRequest.antt =====
-- SendFileRequestMsg: a client asks to send a file to another.
use small_program.Base.{
  ℕ, ◌+◌, ◌*◌, ◌^◌, ◌<◌, ◌≡◌, ap₂, ◌-◌, List, [], ◌++◌, Bool, true, length, length-append, arith,
  Build, Result, ok, ◌>>=◌, Ensures, done, Ensures-bind, Ensures-eq_ok,
}
use small_program.Buffer.{Buffer, initial_size, make}
use small_program.Buffer.Regions.{Holds, Leaves}
use small_program.Buffer.Chain.{make-then}
use small_program.Message.Qt.{Qt, QByteArray}
use small_program.Message.Frame.{
  tag_name, MsgHeader, request, new_header, get_message_length, begin_frame, end_frame,
}
use small_program.Message.Serialise.{frame, begin_frame-IsFresh, end_frame-frame}
use small_program.Message.Content.{received}
use small_program.Message.Fields.{
  Endpoint, IsEndpoint, endpoint_bytes, length-endpoint_bytes, append_endpoint, read_endpoint,
  append_endpoint-IsFresh, read_endpoint-Leaves,
}
use small_program.Message.Body.{from_frame, round_trip}
use small_program.Message.File.{
  File, IsFile, file_bytes, length-file_bytes, append_file, read_file, append_file-IsFresh,
  read_file-eq,
}

pub record SendFileRequestMsg : Type 0 where
  pub header_info : MsgHeader
  pub endpoint : Endpoint
  pub open endpoint use *
  pub file : File
  pub open file use *

abbrev pub file_request_header : MsgHeader
file_request_header = new_header request 4

module _ (qt : Qt) (build : Build) where
  unfoldable pub to_byte_array : SendFileRequestMsg → Result QByteArray
  unfolding append_endpoint append_file
  to_byte_array msg = do
    b ← begin_frame build qt msg.header_info
    c₀ ← make build initial_size
    c₁ ← append_endpoint qt build c₀ msg.endpoint
    c₂ ← append_file qt build c₁ msg.file
    end_frame build b c₂

  read_fields : SendFileRequestMsg → MsgHeader → Buffer → Result SendFileRequestMsg
  read_fields msg h c = do
    (endpoint, c₁) ← read_endpoint qt build c
    file ← read_file qt build c₁
    ok (record { header_info = h; endpoint = endpoint; file = file })

  -- The result is what the function returns, and the message as it leaves it.
  unfoldable pub from_byte_array :
      QByteArray → SendFileRequestMsg → Result (Bool × SendFileRequestMsg)
  unfolding read_fields from_frame
  from_byte_array bytes msg =
      from_frame qt build (λ h. record msg { header_info = h }) (read_fields msg) bytes
        msg.header_info

-- The messages that the format can carry.
pub record IsSendable (qt : Qt) (msg : SendFileRequestMsg) : Type 0 where
  pub tagged : msg.header_info.header ≡ tag_name
  pub endpoint : IsEndpoint qt msg.endpoint
  pub file : IsFile qt msg.file

-- The content on the wire.
abbrev pub content : (qt : Qt) (msg : SendFileRequestMsg) → IsSendable qt msg → List ℕ
content qt msg v = endpoint_bytes v.endpoint.address msg.endpoint ++ file_bytes msg.file

-- The message as it arrives: its header has the length of the content.
abbrev pub delivered : SendFileRequestMsg → ℕ → SendFileRequestMsg
delivered msg n = record msg { header_info = received msg.header_info.type msg.header_info.code n }

module _ (qt : Qt) (build : Build) where
  pub length-content :
      (msg : SendFileRequestMsg) (v : IsSendable qt msg)
      → length (content qt msg v) ≡ 68 + 2 * length msg.file_name
  length-content msg v = omega (
    arith,
    length-append {0},
    length-endpoint_bytes v.endpoint.address msg.endpoint,
    v.endpoint.id_is,
    length-file_bytes msg.file,
  )

  -- `toByteArray` makes the frame of the content.
  pub file_request-frame :
      (msg : SendFileRequestMsg) (v : IsSendable qt msg)
      → to_byte_array qt build msg
        ≡ ok (frame msg.header_info.type msg.header_info.code (content qt msg v))
  unfolding to_byte_array
  file_request-frame msg v = Ensures-eq_ok (
      Ensures-bind _ _ _ _ (begin_frame-IsFresh qt build msg.header_info v.tagged) λ b hb.
        make-then build _ λ c₀ h₀.
          Ensures-bind _ _ _ _
            (append_endpoint-IsFresh qt build c₀ [] msg.endpoint v.endpoint h₀ (omega arith))
            λ c₁ h₁.
              Ensures-bind _ _ _ _
                (append_file-IsFresh qt build c₁ _ msg.file v.file h₁ (
                  omega (
                    arith,
                    length-endpoint_bytes v.endpoint.address msg.endpoint,
                    v.endpoint.id_is,
                  )))
                λ c₂ h₂.
                  end_frame-frame qt build msg.header_info.type msg.header_info.code b c₂ _ hb h₂
                    (omega (arith, length-content msg v, v.file.name.short)))

  read_fields-eq :
      (msg old : SendFileRequestMsg) (v : IsSendable qt msg) (n : ℕ) (c : Buffer)
      → Holds c (content qt msg v)
      → Ensures
          (λ m. m ≡ delivered msg n)
          (read_fields qt build old (delivered msg n).header_info c)
  unfolding read_fields
  read_fields-eq msg old v n c h =
      Ensures-bind (Leaves msg.endpoint (file_bytes msg.file)) _ _ _
        (read_endpoint-Leaves qt build c msg.endpoint v.endpoint (file_bytes msg.file) h)
        λ r p.
          Ensures-bind (λ f. f ≡ msg.file) _ _ _ (read_file-eq qt build r.1 msg.file v.file p.1)
            λ f e. done _ (ap₂ (with_fields (delivered msg n).header_info) p.0 e)
    where
      with_fields : MsgHeader → Endpoint → File → SendFileRequestMsg
      with_fields hd e f = record { header_info = hd; endpoint = e; file = f }

  -- For a file request that the format can carry, toByteArray succeeds, and fromByteArray of its
  -- bytes, whatever fewer than 2 ^ 30 - 1024 bytes follow, returns true with the fields of the
  -- request that was sent; getMessageLength is then the number of bytes sent.
  pub file_request_round_trip :
      (msg old : SendFileRequestMsg) (rest : List ℕ)
      → IsSendable qt msg
      → length rest < 2 ^ 30 - 1024
      → Ensures
          (λ bytes.
            (from_byte_array qt build (bytes ++ rest) old
              ≡ ok (true, delivered msg (68 + 2 * length msg.file_name)))
            × (get_message_length (delivered msg (68 + 2 * length msg.file_name)).header_info
                ≡ length bytes))
          (to_byte_array qt build msg)
  unfolding from_byte_array
  file_request_round_trip msg old rest v short = rw (← length-content msg v) (
      round_trip qt build _ _ msg.header_info.type msg.header_info.code (content qt msg v) rest
        old.header_info _ _ (file_request-frame msg v)
        (omega (arith, length-content msg v, v.file.name.short))
        (omega (arith, length-content msg v, v.file.name.short))
        λ c f. read_fields-eq msg old v (length (content qt msg v)) c f.holds)
