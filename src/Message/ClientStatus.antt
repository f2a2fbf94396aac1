-- ===== src/Message/ClientStatus.antt =====
-- UpdateClientStatusMsg: the server tells that a client has connected or gone.
use small_program.Base.{
  ℕ, ◌+◌, ◌*◌, ◌^◌, ◌<◌, ◌≡◌, ap₂, ◌-◌, List, [], ◌∷◌, ◌++◌, Bool, true, length, length-append,
  arith, Build, Result, ok, ◌>>=◌, Ensures, done, Ensures-bind, Ensures-eq_ok,
}
use small_program.Buffer.{Buffer, initial_size, make, append}
use small_program.Buffer.Regions.{Holds, Leaves}
use small_program.Buffer.Chain.{make-then, append-then}
use small_program.Message.Qt.{Qt, QString, QByteArray, to_utf16_le, length-to_utf16_le}
use small_program.Message.Frame.{
  tag_name, MsgHeader, notify, new_header, get_message_length, read_byte, begin_frame, end_frame,
}
use small_program.Message.Serialise.{frame, begin_frame-IsFresh, end_frame-frame}
use small_program.Message.Parse.{read_byte-then}
use small_program.Message.Content.{received}
use small_program.Message.Fields.{
  Endpoint, IsEndpoint, IsCarried, endpoint_bytes, length-endpoint_bytes, append_endpoint,
  read_endpoint, read_text, append_endpoint-IsFresh, read_endpoint-Leaves, read_text-eq,
}
use small_program.Message.Body.{from_frame, round_trip}

pub record UpdateClientStatusMsg : Type 0 where
  pub header_info : MsgHeader
  pub status : ℕ
  pub endpoint : Endpoint
  pub open endpoint use *
  pub client_name : QString

abbrev pub client_status_header : MsgHeader
client_status_header = new_header notify 3

module _ (qt : Qt) (build : Build) where
  unfoldable pub to_byte_array : UpdateClientStatusMsg → Result QByteArray
  unfolding append_endpoint
  to_byte_array msg = do
    b ← begin_frame build qt msg.header_info
    c₀ ← make build initial_size
    c₁ ← append build c₀ (msg.status ∷ [])
    c₂ ← append_endpoint qt build c₁ msg.endpoint
    c₃ ← append build c₂ (to_utf16_le msg.client_name)
    end_frame build b c₃

  read_fields : UpdateClientStatusMsg → MsgHeader → Buffer → Result UpdateClientStatusMsg
  read_fields msg h c = do
    (status, c₁) ← read_byte build c
    (endpoint, c₂) ← read_endpoint qt build c₁
    client_name ← read_text qt build c₂
    ok (record { header_info = h; status = status; endpoint = endpoint; client_name = client_name })

  -- The result is what the function returns, and the message as it leaves it.
  unfoldable pub from_byte_array :
      QByteArray → UpdateClientStatusMsg → Result (Bool × UpdateClientStatusMsg)
  unfolding read_fields from_frame
  from_byte_array bytes msg =
      from_frame qt build (λ h. record msg { header_info = h }) (read_fields msg) bytes
        msg.header_info

-- The messages that the format can carry.
pub record IsSendable (qt : Qt) (msg : UpdateClientStatusMsg) : Type 0 where
  pub tagged : msg.header_info.header ≡ tag_name
  pub endpoint : IsEndpoint qt msg.endpoint
  pub name : IsCarried qt msg.client_name

-- The content on the wire.
abbrev pub content : (qt : Qt) (msg : UpdateClientStatusMsg) → IsSendable qt msg → List ℕ
content qt msg v =
    msg.status ∷ (endpoint_bytes v.endpoint.address msg.endpoint ++ to_utf16_le msg.client_name)

-- The message as it arrives: its header has the length of the content.
abbrev pub delivered : UpdateClientStatusMsg → ℕ → UpdateClientStatusMsg
delivered msg n = record msg { header_info = received msg.header_info.type msg.header_info.code n }

module _ (qt : Qt) (build : Build) where
  pub length-content :
      (msg : UpdateClientStatusMsg) (v : IsSendable qt msg)
      → length (content qt msg v) ≡ 53 + 2 * length msg.client_name
  length-content msg v = omega (
    arith,
    length-append {0},
    length-endpoint_bytes v.endpoint.address msg.endpoint,
    v.endpoint.id_is,
    length-to_utf16_le msg.client_name,
  )

  -- `toByteArray` makes the frame of the content.
  pub client_status-frame :
      (msg : UpdateClientStatusMsg) (v : IsSendable qt msg)
      → to_byte_array qt build msg
        ≡ ok (frame msg.header_info.type msg.header_info.code (content qt msg v))
  unfolding to_byte_array
  client_status-frame msg v = Ensures-eq_ok (
      Ensures-bind _ _ _ _ (begin_frame-IsFresh qt build msg.header_info v.tagged) λ b hb.
        make-then build _ λ c₀ h₀.
          append-then build c₀ [] (msg.status ∷ []) _ h₀ (omega arith) (omega arith) λ c₁ h₁.
            Ensures-bind _ _ _ _
              (append_endpoint-IsFresh qt build c₁ (msg.status ∷ []) msg.endpoint v.endpoint h₁
                (omega arith))
              λ c₂ h₂.
                append-then build c₂ _ (to_utf16_le msg.client_name) _ h₂
                  (omega (
                    arith,
                    length-endpoint_bytes v.endpoint.address msg.endpoint,
                    v.endpoint.id_is,
                  ))
                  (omega (arith, length-to_utf16_le msg.client_name, v.name.short))
                  λ c₃ h₃.
                    end_frame-frame qt build msg.header_info.type msg.header_info.code b c₃ _ hb h₃
                      (omega (arith, length-content msg v, v.name.short)))

  read_fields-eq :
      (msg old : UpdateClientStatusMsg) (v : IsSendable qt msg) (n : ℕ) (c : Buffer)
      → Holds c (content qt msg v)
      → Ensures
          (λ m. m ≡ delivered msg n)
          (read_fields qt build old (delivered msg n).header_info c)
  unfolding read_fields
  read_fields-eq msg old v n c h = read_byte-then build msg.status c _ _ h λ c₁ h₁.
      Ensures-bind (Leaves msg.endpoint (to_utf16_le msg.client_name)) _ _ _
        (read_endpoint-Leaves qt build c₁ msg.endpoint v.endpoint (to_utf16_le msg.client_name) h₁)
        λ r p.
          Ensures-bind (λ t. t ≡ msg.client_name) _ _ _
            (read_text-eq qt build r.1 msg.client_name v.name p.1)
            λ t e. done _ (ap₂ (with_fields (delivered msg n).header_info) p.0 e)
    where
      with_fields : MsgHeader → Endpoint → QString → UpdateClientStatusMsg
      with_fields hd e t = record {
        header_info = hd;
        status = msg.status;
        endpoint = e;
        client_name = t;
      }

  -- For a status message that the format can carry, toByteArray succeeds, and fromByteArray of
  -- its bytes, whatever fewer than 2 ^ 30 - 1024 bytes follow, returns true with the fields of
  -- the message that was sent; getMessageLength is then the number of bytes sent.
  pub client_status_round_trip :
      (msg old : UpdateClientStatusMsg) (rest : List ℕ)
      → IsSendable qt msg
      → length rest < 2 ^ 30 - 1024
      → Ensures
          (λ bytes.
            (from_byte_array qt build (bytes ++ rest) old
              ≡ ok (true, delivered msg (53 + 2 * length msg.client_name)))
            × (get_message_length (delivered msg (53 + 2 * length msg.client_name)).header_info
                ≡ length bytes))
          (to_byte_array qt build msg)
  unfolding from_byte_array
  client_status_round_trip msg old rest v short = rw (← length-content msg v) (
      round_trip qt build _ _ msg.header_info.type msg.header_info.code (content qt msg v) rest
        old.header_info _ _ (client_status-frame msg v)
        (omega (arith, length-content msg v, v.name.short))
        (omega (arith, length-content msg v, v.name.short))
        λ c f. read_fields-eq msg old v (length (content qt msg v)) c f.holds)
