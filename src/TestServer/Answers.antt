-- ===== src/TestServer/Answers.antt =====
-- What the server makes of a client's answer to a file.
use small_program.Base.{
  ap₂, ℕ, ◌+◌, ◌-◌, ◌*◌, ◌^◌, ◌<◌, ◌≡◌, refl, subst, List, [], ◌++◌, some, true, false, length,
  length-append, ◌==◌, arith, Build, ok, ◌>>=◌, Ensures, Ensures-bind, Ensures-ok, done,
}
use small_program.Base.Words.{to_big_endian, length-to_big_endian}
use small_program.Buffer.{Buffer}
use small_program.Buffer.Regions.{Holds}
use small_program.Buffer.Retrieve.{retrieve_moves}
use small_program.Message.Qt.{Qt, QByteArray}
use small_program.Message.Frame.{response, get_message_length, message_length}
use small_program.Message.Serialise.{frame}
use small_program.Message.FileResponse
use small_program.Message.FileResponse.{SendFileResponseMsg, IsSendable}
use small_program.Process.Turns.{stream_limit, received_bytes-Holds, get_code-frame}
use small_program.TestServer.{
  TestServer, Log, new_file_response, progress_for, cache, start_timer, Round, next,
  on_file_response, serve, round,
}

length-framed :
    (type code : ℕ) (xs rest : List ℕ)
    → length (frame type code xs ++ rest) ≡ message_length + length xs + length rest
length-framed type code xs rest = omega (
  arith,
  length-append (to_big_endian 4 (length xs) ++ xs) rest,
  length-append (to_big_endian 4 (length xs)) xs,
  length-to_big_endian 4 (length xs),
)

module _ (log : Log) (qt : Qt) (build : Build) where
  serve-response :
      (s : TestServer) (bytes : QByteArray) (type code : ℕ)
      → type ≡ response
      → code ≡ 4
      → serve log qt build s bytes (type, code) ≡ (
          FileResponse.from_byte_array qt build bytes new_file_response
          >>= on_file_response log qt build s)
  unfolding serve
  serve-response s bytes type code d e = ap₂ (λ t c. serve log qt build s bytes (t, c)) d e

  -- A round that takes a response, and keeps what it is to report.
  abbrev pub Accepts : TestServer → SendFileResponseMsg → List ℕ → Round → Type 0
  Accepts s msg rest r =
      (b : Buffer) × (r
        ≡ next
            (start_timer (
              cache (progress_for msg.endpoint msg.time_stamp msg.file_name)
                (record s { buffer = b })))
            [])
      × Holds b rest

  accepted :
      (s : TestServer) (msg : SendFileResponseMsg) (n : ℕ) (bytes rest text : List ℕ)
      → log.response_text (FileResponse.delivered msg n) ≡ some text
      → msg.status_code == 0 ≡ false
      → get_message_length (FileResponse.delivered msg n).header_info ≡ length bytes
      → Holds s.buffer (bytes ++ rest)
      → Ensures
          (Accepts s msg rest)
          (on_file_response log qt build s (true, FileResponse.delivered msg n))
  unfolding on_file_response
  accepted s msg n bytes rest text dumped agreed e h =
      rw (e, agreed, dumped)
        (Ensures-bind _ _ _ _ (retrieve_moves build s.buffer bytes rest (length bytes) refl h)
          λ b p. done _ (b, refl, p.0))

  pub round-Accepts :
      (s : TestServer) (msg : SendFileResponseMsg) (v : IsSendable qt msg) (rest text : List ℕ)
      → log.response_text (FileResponse.delivered msg (69 + 2 * length msg.file_name)) ≡ some text
      → msg.header_info.type ≡ response
      → msg.header_info.code ≡ 4
      → msg.status_code == 0 ≡ false
      → length rest < stream_limit
      → Holds s.buffer
          (frame msg.header_info.type msg.header_info.code (FileResponse.content qt msg v) ++ rest)
      → Ensures (Accepts s msg rest) (round log qt build s)
  unfolding round
  round-Accepts s msg v rest text dumped d e agreed short h =
      rw
        (
          received_bytes-Holds s.buffer (sent ++ rest) h (omega (arith, sizes)),
          get_code-frame build msg.header_info.type msg.header_info.code
              ((to_big_endian 4 (length content) ++ content) ++ rest)
              (omega (arith, length-append {0}, length-to_big_endian 4 (length content)))
              (omega (
                arith,
                length-framed msg.header_info.type msg.header_info.code content rest,
                sizes,
              )),
          serve-response s (sent ++ rest) msg.header_info.type msg.header_info.code d e,
          facts.0,
        )
        (accepted s msg (69 + 2 * length msg.file_name) sent rest text dumped agreed facts.1 h)
    where
      content : List ℕ
      content = FileResponse.content qt msg v

      sent : List ℕ
      sent = frame msg.header_info.type msg.header_info.code content

      sizes : length (sent ++ rest) < 2 ^ 31 - 64
      sizes = omega (
        arith,
        length-framed msg.header_info.type msg.header_info.code content rest,
        FileResponse.length-content qt build msg v,
        v.file.name.short,
        short,
      )

      facts :
          (FileResponse.from_byte_array qt build (sent ++ rest) new_file_response
            ≡ ok (true, FileResponse.delivered msg (69 + 2 * length msg.file_name)))
          × (get_message_length
                (FileResponse.delivered msg (69 + 2 * length msg.file_name)).header_info
              ≡ length sent)
      facts = Ensures-ok (
          subst (Ensures _) (FileResponse.file_response-frame qt build msg v) (
            FileResponse.file_response_round_trip qt build msg new_file_response rest v
              (omega (arith, short))))
