-- ===== src/Message/ConnResponse.antt =====
-- GetConnStatusResponseMsg: whether the client is connected.
use small_program.Base.{
  ℕ, ◌+◌, ◌^◌, ◌<◌, ◌≡◌, refl, List, [], ◌∷◌, ◌++◌, Bool, true, length, arith, Build, Result, ok,
  ◌>>=◌, Ensures, done, Ensures-bind, Ensures-eq_ok, Ensures-weaken,
}
use small_program.Buffer.{Buffer, initial_size, make, append}
use small_program.Buffer.Chain.{make-then, append-then}
use small_program.Message.Qt.{Qt, QByteArray}
use small_program.Message.Frame.{
  tag_name, message_length, MsgHeader, response, get_message_length, new_header, read_byte,
  begin_frame, end_frame,
}
use small_program.Message.Serialise.{frame, begin_frame-IsFresh, end_frame-frame}
use small_program.Message.Parse.{read_byte-then}
use small_program.Message.Content.{received}
use small_program.Message.Body.{from_frame, round_trip}

pub record GetConnStatusResponseMsg : Type 0 where
  pub header_info : MsgHeader
  pub status_code : ℕ

abbrev pub conn_response_header : MsgHeader
conn_response_header = new_header response 1

-- Its `getMessageLength` does not depend on the content length.
abbrev pub conn_response_length : ℕ
conn_response_length = message_length + 1

module _ (qt : Qt) (build : Build) where
  unfoldable pub to_byte_array : GetConnStatusResponseMsg → Result QByteArray
  to_byte_array msg = do
    b ← begin_frame build qt msg.header_info
    c₀ ← make build initial_size
    c₁ ← append build c₀ (msg.status_code ∷ [])
    end_frame build b c₁

  read_fields : MsgHeader → Buffer → Result GetConnStatusResponseMsg
  read_fields h c = do
    (status_code, _) ← read_byte build c
    ok (record { header_info = h; status_code = status_code })

  -- The result is what the function returns, and the message as it leaves it.
  unfoldable pub from_byte_array :
      QByteArray → GetConnStatusResponseMsg → Result (Bool × GetConnStatusResponseMsg)
  unfolding read_fields from_frame
  from_byte_array bytes msg =
      from_frame qt build (λ h. record msg { header_info = h }) read_fields bytes msg.header_info

  -- `toByteArray` makes the frame of the status code.
  pub conn_response-frame :
      (msg : GetConnStatusResponseMsg)
      → msg.header_info.header ≡ tag_name
      → to_byte_array msg
        ≡ ok (frame msg.header_info.type msg.header_info.code (msg.status_code ∷ []))
  unfolding to_byte_array
  conn_response-frame msg tagged = Ensures-eq_ok (
      Ensures-bind _ _ _ _ (begin_frame-IsFresh qt build msg.header_info tagged) λ b hb.
        make-then build _ λ c₀ h₀.
          append-then build c₀ [] (msg.status_code ∷ []) _ h₀ (omega arith) (omega arith) λ c₁ h₁.
            end_frame-frame qt build msg.header_info.type msg.header_info.code b c₁ _ hb h₁
              (omega arith))

  -- For a connection status response with the tag in its header, toByteArray succeeds, and
  -- fromByteArray of its bytes, whatever fewer than 2 ^ 30 bytes follow, returns true with the
  -- status that was sent; the fixed message length is the number of bytes sent.
  pub conn_response_round_trip :
      (msg old : GetConnStatusResponseMsg) (rest : List ℕ)
      → msg.header_info.header ≡ tag_name
      → length rest < 2 ^ 30
      → Ensures
          (λ bytes.
            (from_byte_array (bytes ++ rest) old
              ≡ ok (
                true,
                record {
                  header_info = received msg.header_info.type msg.header_info.code 1;
                  status_code = msg.status_code;
                },
              ))
            × (conn_response_length ≡ length bytes))
          (to_byte_array msg)
  unfolding from_byte_array get_message_length
  conn_response_round_trip msg old rest tagged short =
      Ensures-weaken
        (round_trip qt build _ _ msg.header_info.type msg.header_info.code (msg.status_code ∷ [])
          rest old.header_info
          (record {
            header_info = received msg.header_info.type msg.header_info.code 1;
            status_code = msg.status_code;
          })
          _ (conn_response-frame msg tagged) (omega arith) (omega arith)
          λ c h. read_byte-then build msg.status_code c [] _ h.holds λ c' h'. done _ refl)
        λ bytes p. (p.0, omega (arith, p.1))
