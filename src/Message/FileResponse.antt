-- ===== src/Message/FileResponse.antt =====
-- SendFileResponseMsg: the answer to a request to send a file, accepting or rejecting it.
use small_program.Base.{
  ℕ, ◌+◌, ◌*◌, ◌^◌, ◌<◌, ◌≡◌, ap₂, ◌-◌, List, [], ◌∷◌, ◌++◌, Bool, true, length, length-append,
  arith, Build, Result, ok, ◌>>=◌, Ensures, done, Ensures-bind, Ensures-eq_ok,
}
use small_program.Buffer.{Buffer, initial_size, make, append}
use small_program.Buffer.Regions.{Holds, Leaves}
use small_program.Buffer.Chain.{make-then, append-then}
use small_program.Message.Qt.{Qt, QByteArray}
use small_program.Message.Frame.{
  tag_name, MsgHeader, response, new_header, get_message_length, read_byte, begin_frame, end_frame,
}
use small_program.Message.Serialise.{frame, begin_frame-IsFresh, end_frame-frame}
use small_program.Message.Parse.{read_byte-then}
use small_program.Message.Content.{received}
use small_program.Message.Fields.{
  Endpoint, IsEndpoint, endpoint_bytes, length-endpoint_bytes, append_endpoint, read_endpoint,
  append_endpoint-IsFresh, read_endpoint-Leaves,
}
use small_program.Message.Body.{from_frame, round_trip}
use small_program.Message.File.{
  File, IsFile, file_bytes, length-file_bytes, append_file, read_file, append_file-IsFresh,
  read_file-eq,
}

pub record SendFileResponseMsg : Type 0 where
  pub header_info : MsgHeader
  pub status_code : ℕ
  pub endpoint : Endpoint
  pub open endpoint use *
  pub file : File
  pub open file use *

abbrev pub file_response_header : MsgHeader
file_response_header = new_header response 4

module _ (qt : Qt) (build : Build) where
  unfoldable pub to_byte_array : SendFileResponseMsg → Result QByteArray
  unfolding append_endpoint append_file
  to_byte_array msg = do
    b ← begin_frame build qt msg.header_info
    c₀ ← make build initial_size
    c₁ ← append build c₀ (msg.status_code ∷ [])
    c₂ ← append_endpoint qt build c₁ msg.endpoint
    c₃ ← append_file qt build c₂ msg.file
    end_frame build b c₃

  read_fields : SendFileResponseMsg → MsgHeader → Buffer → Result SendFileResponseMsg
  read_fields msg h c = do
    (status_code, c₁) ← read_byte build c
    (endpoint, c₂) ← read_endpoint qt build c₁
    file ← read_file qt build c₂
    ok (record { header_info = h; status_code = status_code; endpoint = endpoint; file = file })

  -- The result is what the function returns, and the message as it leaves it.
  unfoldable pub from_byte_array :
      QByteArray → SendFileResponseMsg → Result (Bool × SendFileResponseMsg)
  unfolding read_fields from_frame
  from_byte_array bytes msg =
      from_frame qt build (λ h. record msg { header_info = h }) (read_fields msg) bytes
        msg.header_info

-- The messages that the format can carry.
pub record IsSendable (qt : Qt) (msg : SendFileResponseMsg) : Type 0 where
  pub tagged : msg.header_info.header ≡ tag_name
  pub endpoint : IsEndpoint qt msg.endpoint
  pub file : IsFile qt msg.file

-- The content on the wire.
abbrev pub content : (qt : Qt) (msg : SendFileResponseMsg) → IsSendable qt msg → List ℕ
content qt msg v =
    msg.status_code ∷ (endpoint_bytes v.endpoint.address msg.endpoint ++ file_bytes msg.file)

-- The message as it arrives: its header has the length of the content.
abbrev pub delivered : SendFileResponseMsg → ℕ → SendFileResponseMsg
delivered msg n = record msg { header_info = received msg.header_info.type msg.header_info.code n }

module _ (qt : Qt) (build : Build) where
  pub length-content :
      (msg : SendFileResponseMsg) (v : IsSendable qt msg)
      → length (content qt msg v) ≡ 69 + 2 * length msg.file_name
  length-content msg v = omega (
    arith,
    length-append {0},
    length-endpoint_bytes v.endpoint.address msg.endpoint,
    v.endpoint.id_is,
    length-file_bytes msg.file,
  )

  -- `toByteArray` makes the frame of the content.
  pub file_response-frame :
      (msg : SendFileResponseMsg) (v : IsSendable qt msg)
      → to_byte_array qt build msg
        ≡ ok (frame msg.header_info.type msg.header_info.code (content qt msg v))
  unfolding to_byte_array
  file_response-frame msg v = Ensures-eq_ok (
      Ensures-bind _ _ _ _ (begin_frame-IsFresh qt build msg.header_info v.tagged) λ b hb.
        make-then build _ λ c₀ h₀.
          append-then build c₀ [] (msg.status_code ∷ []) _ h₀ (omega arith) (omega arith) λ c₁ h₁.
            Ensures-bind _ _ _ _
              (append_endpoint-IsFresh qt build c₁ (msg.status_code ∷ []) msg.endpoint v.endpoint h₁
                (omega arith))
              λ c₂ h₂.
                Ensures-bind _ _ _ _
                  (append_file-IsFresh qt build c₂ _ msg.file v.file h₂ (
                    omega (
                      arith,
                      length-endpoint_bytes v.endpoint.address msg.endpoint,
                      v.endpoint.id_is,
                    )))
                  λ c₃ h₃.
                    end_frame-frame qt build msg.header_info.type msg.header_info.code b c₃ _ hb h₃
                      (omega (arith, length-content msg v, v.file.name.short)))

  read_fields-eq :
      (msg old : SendFileResponseMsg) (v : IsSendable qt msg) (n : ℕ) (c : Buffer)
      → Holds c (content qt msg v)
      → Ensures
          (λ m. m ≡ delivered msg n)
          (read_fields qt build old (delivered msg n).header_info c)
  unfolding read_fields
  read_fields-eq msg old v n c h = read_byte-then build msg.status_code c _ _ h λ c₁ h₁.
      Ensures-bind (Leaves msg.endpoint (file_bytes msg.file)) _ _ _
        (read_endpoint-Leaves qt build c₁ msg.endpoint v.endpoint (file_bytes msg.file) h₁)
        λ r p.
          Ensures-bind (λ f. f ≡ msg.file) _ _ _ (read_file-eq qt build r.1 msg.file v.file p.1)
            λ f e. done _ (ap₂ (with_fields (delivered msg n).header_info) p.0 e)
    where
      with_fields : MsgHeader → Endpoint → File → SendFileResponseMsg
      with_fields hd e f = record {
        header_info = hd;
        status_code = msg.status_code;
        endpoint = e;
        file = f;
      }

  -- For a file response that the format can carry, toByteArray succeeds, and fromByteArray of
  -- its bytes, whatever fewer than 2 ^ 30 - 1024 bytes follow, returns true with the fields of
  -- the response that was sent; getMessageLength is then the number of bytes sent.
  pub file_response_round_trip :
      (msg old : SendFileResponseMsg) (rest : List ℕ)
      → IsSendable qt msg
      → length rest < 2 ^ 30 - 1024
      → Ensures
          (λ bytes.
            (from_byte_array qt build (bytes ++ rest) old
              ≡ ok (true, delivered msg (69 + 2 * length msg.file_name)))
            × (get_message_length (delivered msg (69 + 2 * length msg.file_name)).header_info
                ≡ length bytes))
          (to_byte_array qt build msg)
  unfolding from_byte_array
  file_response_round_trip msg old rest v short = rw (← length-content msg v) (
      round_trip qt build _ _ msg.header_info.type msg.header_info.code (content qt msg v) rest
        old.header_info _ _ (file_response-frame msg v)
        (omega (arith, length-content msg v, v.file.name.short))
        (omega (arith, length-content msg v, v.file.name.short))
        λ c f. read_fields-eq msg old v (length (content qt msg v)) c f.holds)
