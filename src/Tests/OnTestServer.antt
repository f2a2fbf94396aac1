-- ===== src/Tests/OnTestServer.antt =====
-- The test server: a file that a client accepts.
use small_program.Base.{
  ℕ, zero, suc, ◌+◌, ◌-◌, ◌*◌, ◌/◌, ◌^◌, ◌<◌, ◌≤◌, ◌≡◌, refl, sym, ap, ◌∙◌, subst, List, [], ◌∷◌,
  ◌++◌, append-nil, replicate, none, some, true, false, ltb, Bool, ◌&&◌, length, if◌then◌else◌,
  le→ltb, lt→ltb, arith, debug, ok, Ensures,
}
use small_program.Message.Serialise.{frame}
use small_program.Message.FileResponse
use small_program.TestServer.{TestServer, Log, progress_for, Pace, Timeout, rounds, timeouts}
use small_program.TestServer.Progress.{Ends, Timely}
use small_program.TestServer.Transfers.{rounds-Ends}
use small_program.Tests.Data.{
  ascii_qt, sample_response, sample_response-IsSendable, buffer_of, buffer_of-Holds,
}

-- Whole hundredths of the size.
abbrev even_pace : Pace
even_pace = record {
  sent = λ k size. if ltb size 100 then k else size / 100 * k;
  sent_part = part;
  sent_small = λ k size h. rw (lt→ltb size 100 h) refl;
}
  where
    parts : (q k d : ℕ) → q * k ≤ q * (k + d)
    parts q k d = omega arith

    part : (k size : ℕ) → k < 100 → 100 ≤ size → (if ltb size 100 then k else size / 100 * k) ≤ size
    part k size h large =
        rw (le→ltb size 100 large)
          (omega (arith, parts (size / 100) k (100 - k), ap (λ n. size / 100 * n) (up k h)))
      where
        up : (k : ℕ) → k < 100 → k + (100 - k) ≡ 100
        up k h = omega (arith, h)

abbrev all_ascii : List ℕ → Bool
all_ascii [] = true
all_ascii (x ∷ xs) = ltb x 128 && all_ascii xs

-- The bytes of the names in the place of their text.
abbrev names_log : Log
names_log = record {
  response_text = λ msg. if all_ascii msg.file_name then some msg.file_name else none;
  request_text = λ msg. if all_ascii msg.file_name then some msg.file_name else none;
}

abbrev minute : Timeout
minute = record { size = 60727169; now = 1700000000000 }

minutes-Timely :
    (n : ℕ)
    → Timely even_pace ascii_qt debug
        (progress_for sample_response.endpoint sample_response.time_stamp sample_response.file_name)
        (replicate n minute)
minutes-Timely zero = tt
minutes-Timely (suc n) = (omega arith, omega arith, minutes-Timely n)

abbrev answer_bytes : List ℕ
answer_bytes = frame 1 4 (FileResponse.content ascii_qt sample_response sample_response-IsSendable)

abbrev asked_server : TestServer
asked_server = record {
  buffer = buffer_of answer_bytes 8;
  timer = false;
  cache_progress_val = 0;
  cache_progress_msg = none;
}

rounds-Ends_example :
    Ensures
      (λ r.
        (s' : TestServer) × (r ≡ some (s', []))
        × Ensures
            (Ends even_pace ascii_qt debug
              (progress_for sample_response.endpoint sample_response.time_stamp
                sample_response.file_name)
              0
              (replicate 102 minute))
            (timeouts even_pace ascii_qt debug s' (replicate 102 minute)))
      (rounds names_log ascii_qt debug 2 asked_server [])
unfolding small_program.Base.Words.to_big_endian small_program.Message.Qt.to_utf16_le
rounds-Ends_example =
    rounds-Ends even_pace names_log ascii_qt debug asked_server sample_response
      sample_response-IsSendable sample_response.file_name (replicate 102 minute) refl refl refl
      refl (buffer_of-Holds answer_bytes 8 (omega arith)) (minutes-Timely 102)
