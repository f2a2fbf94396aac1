-- ===== src/Message/Progress.antt =====
-- UpdateProgressMsg: how much of a file has been sent.
use small_program.Base.{
  ℕ, ◌+◌, ◌*◌, ◌^◌, ◌<◌, ◌≡◌, ap₂, subst, ◌-◌, List, [], ◌++◌, append_assoc, Bool, true, length,
  length-append, arith, Build, Result, ok, ◌>>=◌, Ensures, done, Ensures-bind, Ensures-eq_ok,
}
use small_program.Buffer.{Buffer, initial_size, make, append}
use small_program.Buffer.Regions.{Holds, Leaves}
use small_program.Buffer.Fresh.{IsFresh}
use small_program.Buffer.Chain.{make-then, append-then}
use small_program.Message.Qt.{Qt, QString, QByteArray, to_utf16_le, length-to_utf16_le}
use small_program.Message.Frame.{
  tag_name, MsgHeader, notify, new_header, get_message_length, begin_frame, end_frame,
}
use small_program.Message.Serialise.{frame, begin_frame-IsFresh, end_frame-frame}
use small_program.Message.Content.{received}
use small_program.Message.Fields.{
  Endpoint, IsEndpoint, IsCarried, read_text, read_text-eq, endpoint_bytes, length-endpoint_bytes,
  append_endpoint, read_endpoint, append_endpoint-IsFresh, read_endpoint-Leaves,
}
use small_program.Message.Body.{from_frame, round_trip}
use small_program.Base.Words.{to_big_endian, length-to_big_endian}
use small_program.Buffer.Numbers.{append_uint64, read_uint64}
use small_program.Buffer.Chain.{append_uint64-then, read_uint64-then}

pub record UpdateProgressMsg : Type 0 where
  pub header_info : MsgHeader
  pub endpoint : Endpoint
  pub open endpoint use *
  pub file_size : ℕ
  pub sent_size : ℕ
  pub time_stamp : ℕ
  pub file_name : QString

abbrev pub progress_header : MsgHeader
progress_header = new_header notify 5

module _ (qt : Qt) (build : Build) where
  unfoldable pub to_byte_array : UpdateProgressMsg → Result QByteArray
  unfolding append_endpoint
  to_byte_array msg = do
    b ← begin_frame build qt msg.header_info
    c₀ ← make build initial_size
    c₁ ← append_endpoint qt build c₀ msg.endpoint
    c₂ ← append_uint64 build c₁ msg.file_size
    c₃ ← append_uint64 build c₂ msg.sent_size
    c₄ ← append_uint64 build c₃ msg.time_stamp
    c₅ ← append build c₄ (to_utf16_le msg.file_name)
    end_frame build b c₅

  read_fields : UpdateProgressMsg → MsgHeader → Buffer → Result UpdateProgressMsg
  read_fields msg h c = do
    (endpoint, c₁) ← read_endpoint qt build c
    (file_size, c₂) ← read_uint64 build c₁
    (sent_size, c₃) ← read_uint64 build c₂
    (time_stamp, c₄) ← read_uint64 build c₃
    file_name ← read_text qt build c₄
    ok (record {
      header_info = h;
      endpoint = endpoint;
      file_size = file_size;
      sent_size = sent_size;
      time_stamp = time_stamp;
      file_name = file_name;
    })

  -- The result is what the function returns, and the message as it leaves it.
  unfoldable pub from_byte_array :
      QByteArray → UpdateProgressMsg → Result (Bool × UpdateProgressMsg)
  unfolding read_fields from_frame
  from_byte_array bytes msg =
      from_frame qt build (λ h. record msg { header_info = h }) (read_fields msg) bytes
        msg.header_info

-- The messages that the format can carry.
pub record IsSendable (qt : Qt) (msg : UpdateProgressMsg) : Type 0 where
  pub tagged : msg.header_info.header ≡ tag_name
  pub endpoint : IsEndpoint qt msg.endpoint
  pub size_bound : msg.file_size < 2 ^ 64
  pub sent_bound : msg.sent_size < 2 ^ 64
  pub time_bound : msg.time_stamp < 2 ^ 64
  pub name : IsCarried qt msg.file_name

abbrev progress_bytes : UpdateProgressMsg → List ℕ
progress_bytes msg =
    to_big_endian 8 msg.file_size
    ++ (to_big_endian 8 msg.sent_size
        ++ (to_big_endian 8 msg.time_stamp ++ to_utf16_le msg.file_name))

-- The content on the wire.
abbrev pub content : (qt : Qt) (msg : UpdateProgressMsg) → IsSendable qt msg → List ℕ
content qt msg v = endpoint_bytes v.endpoint.address msg.endpoint ++ progress_bytes msg

-- The message as it arrives: its header has the length of the content.
abbrev pub delivered : UpdateProgressMsg → ℕ → UpdateProgressMsg
delivered msg n = record msg { header_info = received msg.header_info.type msg.header_info.code n }

module _ (qt : Qt) (build : Build) where
  pub length-content :
      (msg : UpdateProgressMsg) (v : IsSendable qt msg)
      → length (content qt msg v) ≡ 76 + 2 * length msg.file_name
  length-content msg v = omega (
    arith,
    length-append {0},
    length-endpoint_bytes v.endpoint.address msg.endpoint,
    v.endpoint.id_is,
    length-to_big_endian 8 msg.file_size,
    length-to_big_endian 8 msg.sent_size,
    length-to_big_endian 8 msg.time_stamp,
    length-to_utf16_le msg.file_name,
  )

  -- `toByteArray` makes the frame of the content.
  pub progress-frame :
      (msg : UpdateProgressMsg) (v : IsSendable qt msg)
      → to_byte_array qt build msg
        ≡ ok (frame msg.header_info.type msg.header_info.code (content qt msg v))
  unfolding to_byte_array
  progress-frame msg v = Ensures-eq_ok (
      Ensures-bind _ _ _ _ (begin_frame-IsFresh qt build msg.header_info v.tagged) λ b hb.
        make-then build _ λ c₀ h₀.
          Ensures-bind _ _ _ _
            (append_endpoint-IsFresh qt build c₀ [] msg.endpoint v.endpoint h₀ (omega arith))
            λ c₁ h₁.
              append_uint64-then build msg.file_size c₁ _ _ h₁
                (omega (
                  arith,
                  length-append {0},
                  length-endpoint_bytes v.endpoint.address msg.endpoint,
                  length-to_big_endian 8 msg.file_size,
                  length-to_big_endian 8 msg.sent_size,
                  length-to_big_endian 8 msg.time_stamp,
                  v.endpoint.id_is,
                ))
                λ c₂ h₂.
                  append_uint64-then build msg.sent_size c₂ _ _ h₂
                    (omega (
                      arith,
                      length-append {0},
                      length-endpoint_bytes v.endpoint.address msg.endpoint,
                      length-to_big_endian 8 msg.file_size,
                      length-to_big_endian 8 msg.sent_size,
                      length-to_big_endian 8 msg.time_stamp,
                      v.endpoint.id_is,
                    ))
                    λ c₃ h₃.
                      append_uint64-then build msg.time_stamp c₃ _ _ h₃
                        (omega (
                          arith,
                          length-append {0},
                          length-endpoint_bytes v.endpoint.address msg.endpoint,
                          length-to_big_endian 8 msg.file_size,
                          length-to_big_endian 8 msg.sent_size,
                          length-to_big_endian 8 msg.time_stamp,
                          v.endpoint.id_is,
                        ))
                        λ c₄ h₄.
                          append-then build c₄ _ (to_utf16_le msg.file_name) _ h₄
                            (omega (
                              arith,
                              length-append {0},
                              length-endpoint_bytes v.endpoint.address msg.endpoint,
                              length-to_big_endian 8 msg.file_size,
                              length-to_big_endian 8 msg.sent_size,
                              length-to_big_endian 8 msg.time_stamp,
                              v.endpoint.id_is,
                            ))
                            (omega (arith, length-to_utf16_le msg.file_name, v.name.short))
                            λ c₅ h₅.
                              end_frame-frame qt build msg.header_info.type msg.header_info.code b
                                c₅ _ hb (subst (IsFresh c₅) regroup h₅)
                                (omega (arith, length-content msg v, v.name.short)))
    where
      regroup :
          (((endpoint_bytes v.endpoint.address msg.endpoint ++ to_big_endian 8 msg.file_size)
                ++ to_big_endian 8 msg.sent_size)
              ++ to_big_endian 8 msg.time_stamp)
            ++ to_utf16_le msg.file_name
          ≡ content qt msg v
      regroup = simp append_assoc

  read_fields-eq :
      (msg old : UpdateProgressMsg) (v : IsSendable qt msg) (n : ℕ) (c : Buffer)
      → Holds c (content qt msg v)
      → Ensures
          (λ m. m ≡ delivered msg n)
          (read_fields qt build old (delivered msg n).header_info c)
  unfolding read_fields
  read_fields-eq msg old v n c h =
      Ensures-bind (Leaves msg.endpoint (progress_bytes msg)) _ _ _
        (read_endpoint-Leaves qt build c msg.endpoint v.endpoint (progress_bytes msg) h)
        λ r p. read_uint64-then build msg.file_size r.1 _ _ v.size_bound p.1 λ c₂ h₂.
          read_uint64-then build msg.sent_size c₂ _ _ v.sent_bound h₂ λ c₃ h₃.
            read_uint64-then build msg.time_stamp c₃ _ _ v.time_bound h₃ λ c₄ h₄.
              Ensures-bind (λ t. t ≡ msg.file_name) _ _ _
                (read_text-eq qt build c₄ msg.file_name v.name h₄)
                λ t e. done _ (ap₂ (with_fields (delivered msg n).header_info) p.0 e)
    where
      with_fields : MsgHeader → Endpoint → QString → UpdateProgressMsg
      with_fields hd e t = record msg { header_info = hd; endpoint = e; file_name = t }

  -- For a progress message that the format can carry, toByteArray succeeds, and fromByteArray of
  -- its bytes, whatever fewer than 2 ^ 30 - 1024 bytes follow, returns true with the fields of
  -- the message that was sent; getMessageLength is then the number of bytes sent.
  pub progress_round_trip :
      (msg old : UpdateProgressMsg) (rest : List ℕ)
      → IsSendable qt msg
      → length rest < 2 ^ 30 - 1024
      → Ensures
          (λ bytes.
            (from_byte_array qt build (bytes ++ rest) old
              ≡ ok (true, delivered msg (76 + 2 * length msg.file_name)))
            × (get_message_length (delivered msg (76 + 2 * length msg.file_name)).header_info
                ≡ length bytes))
          (to_byte_array qt build msg)
  unfolding from_byte_array
  progress_round_trip msg old rest v short = rw (← length-content msg v) (
      round_trip qt build _ _ msg.header_info.type msg.header_info.code (content qt msg v) rest
        old.header_info _ _ (progress-frame msg v)
        (omega (arith, length-content msg v, v.name.short))
        (omega (arith, length-content msg v, v.name.short))
        λ c f. read_fields-eq msg old v (length (content qt msg v)) c f.holds)
