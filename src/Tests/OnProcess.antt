-- ===== src/Tests/OnProcess.antt =====
-- The receiving end: runs of the loop.
use small_program.Base.{
  ℕ, ◌+◌, ◌<◌, ◌≤◌, ◌≡◌, ◌≢◌, refl, inl, inr, List, [], ◌∷◌, ◌++◌, none, some, take, drop, arith,
  release, ok, subst, Ensures,
}
use small_program.Base.Words.{to_big_endian}
use small_program.Buffer.{Buffer, writable_bytes}
use small_program.Buffer.Regions.{Holds}
use small_program.Message.Qt.{to_utf16_le}
use small_program.Message.Frame.{tag_name, response, notify}
use small_program.Message.Serialise.{frame, frame_head}
use small_program.Message.Content.{received}
use small_program.Message.ClientStatus
use small_program.Process.{
  turn, again, Dispatched, conn_response, client_status, loop, on_recv_server_data, receive_all,
}
use small_program.Process.Turns.{Carries, of_conn_response, of_client_status}
use small_program.Process.Stream.{Stream, empty, message, Waiting, on_recv_server_data-Ends}
use small_program.Process.Deliveries.{Deliveries, finished, arrival, receive_all-Deliveries}
use small_program.Process.Stuck.{loop_spins, foreign_blocks}
use small_program.Tests.Data.{
  ascii_qt, sample_conn_response, sample_status, sample_status-IsSendable, buffer_of,
  buffer_of-Holds,
}

abbrev response_bytes : List ℕ
response_bytes = frame response 1 (1 ∷ [])

abbrev status_bytes : List ℕ
status_bytes = frame notify 3 (ClientStatus.content ascii_qt sample_status sample_status-IsSendable)

abbrev response_event : Dispatched
response_event = conn_response (record { header_info = received response 1 1; status_code = 1 })

abbrev status_event : Dispatched
status_event = client_status (ClientStatus.delivered sample_status 59)

response-Carries : Carries ascii_qt response_event response_bytes
response-Carries = of_conn_response sample_conn_response refl refl

status-Carries : Carries ascii_qt status_event status_bytes
status-Carries = of_client_status sample_status sample_status-IsSendable refl

fresh-Waiting : Waiting (buffer_of [] 16) []
fresh-Waiting = record {
  holds = buffer_of-Holds [] 16 (omega arith);
  short = omega arith;
  settled = inl refl;
}

-- A response and the start of a status message, then the rest of it.
abbrev arrivals : List (List ℕ)
arrivals = (response_bytes ++ take 7 status_bytes) ∷ drop 7 status_bytes ∷ []

response-Stream : Stream ascii_qt (response_event ∷ []) (response_bytes ++ [])
response-Stream = message response-Carries empty

status-Stream : Stream ascii_qt (status_event ∷ []) (status_bytes ++ [])
status-Stream = message status-Carries empty

abbrev arrivals-Deliveries : Deliveries ascii_qt [] arrivals (response_event ∷ status_event ∷ []) []
unfolding to_big_endian to_utf16_le
arrivals-Deliveries =
    arrival {tail' = take 7 status_bytes} response-Stream refl (omega arith) (omega arith)
      (arrival {tail' = []} status-Stream refl (omega arith) (omega arith) (finished []))

receive_all-Deliveries_example :
    Ensures
      (λ r. (b' : Buffer) × (r ≡ some (b', response_event ∷ status_event ∷ [])) × Waiting b' [])
      (receive_all ascii_qt release 2 (buffer_of [] 16) arrivals)
unfolding arrivals-Deliveries
receive_all-Deliveries_example =
    receive_all-Deliveries ascii_qt release 2 [] arrivals (response_event ∷ status_event ∷ []) []
      (buffer_of [] 16) arrivals-Deliveries (omega arith, (omega arith, tt)) fresh-Waiting
      (omega arith)

on_recv_server_data-Ends_example :
    Ensures
      (λ r.
        (b' : Buffer) × (r ≡ some (b', response_event ∷ []))
        × Waiting b' (5 ∷ [])
        × (b'.writer_index ≤ 8 + 13))
      (on_recv_server_data ascii_qt release 2 (buffer_of [] 16) (response_bytes ++ 5 ∷ []))
unfolding to_big_endian
on_recv_server_data-Ends_example =
    on_recv_server_data-Ends ascii_qt release 2 (response_event ∷ []) (response_bytes ++ []) []
      (response_bytes ++ 5 ∷ []) (5 ∷ []) (buffer_of [] 16) fresh-Waiting response-Stream refl
      (omega arith) (omega arith) (omega arith) (omega arith)

-- The header of a status message of 59 bytes of content, and one of them.
abbrev begun : List ℕ
begun = frame_head notify 3 ++ (to_big_endian 4 59 ++ 1 ∷ [])

loop_spins_example :
    (turn ascii_qt release (buffer_of begun 3) ≡ ok (again (buffer_of begun 3) []))
    × (loop ascii_qt release 100 (buffer_of begun 3) [] ≡ ok none)
unfolding to_big_endian
loop_spins_example =
    loop_spins ascii_qt release 100 (buffer_of begun 3) [] notify 3 59 (1 ∷ [])
      (inr (inr (inl refl))) (omega arith) (omega arith) (omega arith)
      (buffer_of-Holds begun 3 (omega arith))

-- "HELLO" and six zeros.
abbrev foreign_start : List ℕ
foreign_start = 72 ∷ 69 ∷ 76 ∷ 76 ∷ 79 ∷ []

FirstIs : List ℕ → ℕ → Type 0
FirstIs [] n = n < 0
FirstIs (x ∷ xs) n = x ≡ n

foreign-tag : foreign_start ≢ tag_name
unfolding FirstIs
foreign-tag e = omega (arith, subst (λ xs. FirstIs xs 72) e refl)

foreign_blocks_example :
    Ensures
      (λ r.
        (b' : Buffer) × (r ≡ some (b', []))
        × Holds b' (foreign_start ++ ((0 ∷ 0 ∷ 0 ∷ 0 ∷ 0 ∷ 0 ∷ []) ++ response_bytes)))
      (on_recv_server_data ascii_qt release 1
        (buffer_of (foreign_start ++ 0 ∷ 0 ∷ 0 ∷ 0 ∷ 0 ∷ 0 ∷ []) 20)
        response_bytes)
unfolding to_big_endian writable_bytes
foreign_blocks_example =
    foreign_blocks ascii_qt release 0 (buffer_of (foreign_start ++ 0 ∷ 0 ∷ 0 ∷ 0 ∷ 0 ∷ 0 ∷ []) 20)
      foreign_start (0 ∷ 0 ∷ 0 ∷ 0 ∷ 0 ∷ 0 ∷ []) response_bytes refl (foreign-tag) (omega arith)
      (omega arith) (buffer_of-Holds (foreign_start ++ 0 ∷ 0 ∷ 0 ∷ 0 ∷ 0 ∷ 0 ∷ []) 20 (omega arith))
      (inl (omega arith)) (omega arith)
