-- ===== src/Message/ConnRequest.antt =====
-- GetConnStatusRequestMsg: a request with no content.
use small_program.Base.{
  ℕ, ◌^◌, ◌<◌, ◌≡◌, ap, List, ◌++◌, none, some, Bool, true, false, length, length-append, arith,
  Build, Result, ok, ◌>>=◌, Ensures, done, Ensures-bind, Ensures-eq_ok,
}
use small_program.Base.Words.{to_big_endian, length-to_big_endian}
use small_program.Buffer.{retrieve_all_as_byte_array}
use small_program.Buffer.Numbers.{append_uint32}
use small_program.Buffer.Chain.{append_uint32-then, retrieve_all_as_byte_array-then}
use small_program.Message.Qt.{Qt, QByteArray}
use small_program.Message.Frame.{
  tag_name, MsgHeader, request, new_header, message_length, begin_frame, open_frame, started,
}
use small_program.Message.Serialise.{begin_frame-IsFresh}
use small_program.Message.Parse.{Opens, open_frame-Opens}
use small_program.Message.Content.{received, tag_text}

pub record GetConnStatusRequestMsg : Type 0 where
  pub header_info : MsgHeader

abbrev pub conn_request_header : MsgHeader
conn_request_header = new_header request 1

-- Its `getMessageLength` is that of the header alone.
abbrev pub conn_request_length : ℕ
conn_request_length = message_length

module _ (qt : Qt) (build : Build) where
  unfoldable pub to_byte_array : GetConnStatusRequestMsg → Result QByteArray
  to_byte_array msg = do
    b ← begin_frame build qt msg.header_info
    b₁ ← append_uint32 build b 0
    (bytes, _) ← retrieve_all_as_byte_array build b₁
    ok bytes

  -- The content length that was read is not looked at: 0 is stored.
  unfoldable pub from_byte_array :
      QByteArray → GetConnStatusRequestMsg → Result (Bool × GetConnStatusRequestMsg)
  unfolding open_frame
  from_byte_array bytes msg = do
    opened ← open_frame build bytes
    elim opened [
      | none ↦ ok (false, msg)
      | some o ↦ ok (
        true,
        record { header_info = record (started build qt msg.header_info o) { content_length = 0 } },
      )
    ]

  -- For a connection status request with the tag in its header, toByteArray succeeds, and
  -- fromByteArray of its bytes, whatever fewer than 2 ^ 30 bytes follow, returns true with the
  -- request's type and code; the fixed message length is the number of bytes sent.
  pub conn_request_round_trip :
      (msg old : GetConnStatusRequestMsg) (rest : List ℕ)
      → msg.header_info.header ≡ tag_name
      → length rest < 2 ^ 30
      → Ensures
          (λ bytes.
            (from_byte_array (bytes ++ rest) old
              ≡ ok (
                true,
                record { header_info = received msg.header_info.type msg.header_info.code 0 },
              ))
            × (conn_request_length ≡ length bytes))
          (to_byte_array msg)
  unfolding to_byte_array from_byte_array
  conn_request_round_trip msg old rest tagged short =
      Ensures-bind _ _ _ _ (begin_frame-IsFresh qt build msg.header_info tagged) λ b hb.
        append_uint32-then build 0 b _ _ hb (omega arith) λ b₁ h₁.
          retrieve_all_as_byte_array-then build b₁ _ _
            (omega (arith, length-append {0}, length-to_big_endian 4 0)) h₁.holds
            λ b' _. done _ (
              Ensures-eq_ok (
                  Ensures-bind
                    (Opens msg.header_info.type msg.header_info.code (to_big_endian 4 0 ++ rest)) _
                    _ _
                    (open_frame-Opens build msg.header_info.type msg.header_info.code
                      (to_big_endian 4 0 ++ rest)
                      (omega (arith, length-append {0}, length-to_big_endian 4 0))
                      (omega (arith, length-append {0}, length-to_big_endian 4 0)))
                    λ r o. rw o.1 (done _ (ap arrived (tag_text qt build)))),
              omega (arith, length-append {0}, length-to_big_endian 4 0),
            )
    where
      arrived : List ℕ → Bool × GetConnStatusRequestMsg
      arrived text = (
        true,
        record {
          header_info = record {
            header = text;
            type = msg.header_info.type;
            code = msg.header_info.code;
            content_length = 0;
          };
        },
      )
