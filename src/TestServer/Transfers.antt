-- ===== src/TestServer/Transfers.antt =====
-- A file that a client accepts: the answer, and the reports that follow.
use small_program.Base.{
  ◌≡◌, refl, sym, subst, List, [], ◌++◌, append-nil, some, false, ◌==◌, arith, Build, ok, Ensures,
  Ensures-bind, done, Option, length, ◌+◌, ◌*◌, ℕ,
}
use small_program.Buffer.{Buffer}
use small_program.Buffer.Regions.{Holds}
use small_program.Message.Qt.{Qt, QByteArray}
use small_program.Message.Frame.{response, get_code_from_byte_array}
use small_program.Message.Serialise.{frame}
use small_program.Message.FileResponse
use small_program.Message.FileResponse.{SendFileResponseMsg, IsSendable}
use small_program.Message.Progress.{UpdateProgressMsg}
use small_program.Process.Turns.{received_bytes-Holds}
use small_program.TestServer.{
  TestServer, Log, progress_for, cache, start_timer, Pace, Timeout, finish, next, round, rounds,
  timeouts,
}
use small_program.TestServer.Answers.{Accepts, round-Accepts}
use small_program.TestServer.Progress.{Ends, Timely, timeouts-Ends}

module _ (pace : Pace) (log : Log) (qt : Qt) (build : Build) where
  round_empty : (s : TestServer) → Holds s.buffer [] → round log qt build s ≡ ok finish
  unfolding round get_code_from_byte_array
  round_empty s h = rw (received_bytes-Holds s.buffer [] h (omega arith)) refl

  -- The bytes of an answer that accepts a file wait in the server's buffer. The loop takes them
  -- in one round, sends nothing, and ends; then each timeout sends a report that reads with the
  -- answer's endpoint and file name and the size of the file, where the hundredth has the whole
  -- size as sent, and the others no more if the file has a hundred bytes. At the timeout behind
  -- the hundredth, the timer stops, and no report follows. The conditions: the answer can be
  -- carried by the format, the text of the log can be made of it, and sizes and times fit their
  -- words.
  pub rounds-Ends :
      (s : TestServer) (msg : SendFileResponseMsg) (v : IsSendable qt msg) (text : List ℕ)
      (ts : List Timeout)
      → log.response_text (FileResponse.delivered msg (69 + 2 * length msg.file_name)) ≡ some text
      → msg.header_info.type ≡ response
      → msg.header_info.code ≡ 4
      → msg.status_code == 0 ≡ false
      → Holds s.buffer
          (frame msg.header_info.type msg.header_info.code (FileResponse.content qt msg v))
      → Timely pace qt build (progress_for msg.endpoint msg.time_stamp msg.file_name) ts
      → Ensures
          (λ r.
            (s' : TestServer) × (r ≡ some (s', []))
            × Ensures
                (Ends pace qt build (progress_for msg.endpoint msg.time_stamp msg.file_name) 0 ts)
                (timeouts pace qt build s' ts))
          (rounds log qt build 2 s [])
  unfolding rounds
  rounds-Ends s msg v text ts dumped d e agreed h timely =
      Ensures-bind (Accepts log qt build s msg []) _ (round log qt build s) _
        (round-Accepts log qt build s msg v [] text dumped d e agreed (omega arith)
          (subst (Holds s.buffer) (sym (append-nil _)) h))
        λ r a.
          subst
            (λ x. Ensures Reported (elim x [
              | finish ↦ ok (some (s, []))
              | next s' more ↦ rounds log qt build 1 s' ([] ++ more)
            ]))
            (sym a.1)
            (rw (round_empty (waiting a.0) a.2) (
              done _ (
                waiting a.0,
                refl,
                timeouts-Ends pace qt build asked (record s { buffer = a.0 }) 0 ts v.endpoint
                    v.file.name (omega arith) timely,
              )))
    where
      asked : UpdateProgressMsg
      asked = progress_for msg.endpoint msg.time_stamp msg.file_name

      waiting : Buffer → TestServer
      waiting b = start_timer (cache asked (record s { buffer = b }))

      Reported : Option (TestServer × List QByteArray) → Type 0
      Reported r =
          (s' : TestServer) × (r ≡ some (s', []))
          × Ensures (Ends pace qt build asked 0 ts) (timeouts pace qt build s' ts)
