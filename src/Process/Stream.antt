-- ===== src/Process/Stream.antt =====
-- The receiving loop on a stream of messages that arrives in pieces.
use small_program.Base.{
  ℕ, zero, suc, ◌+◌, ◌<◌, ◌≤◌, ◌≡◌, sym, ap, ◌∙◌, subst, ◌⊎◌, inl, inr, List, [], ◌∷◌, ◌++◌,
  append-nil, append_assoc, Option, some, length, length-append, arith, Build, ok, Ensures, dec_le,
  dec_lt, Ensures-bind, Ensures-weaken, Ensures-of_eq, Ensures-value,
}
use small_program.Memory.{max_size}
use small_program.Buffer.{Buffer, cheap_prepend, writable_bytes}
use small_program.Buffer.Regions.{Holds, readable_bytes-Holds}
use small_program.Buffer.Room.{MovesApart}
use small_program.Buffer.Append.{append-Holds, KeepsReader}
use small_program.Message.Qt.{Qt}
use small_program.Message.Frame.{message_length, get_code_from_byte_array}
use small_program.Message.Serialise.{length-frame}
use small_program.Message.Parse.{open_frame_short}
use small_program.Process.{Dispatched, stop, again, turn, loop, on_recv_server_data}
use small_program.Process.Turns.{
  stream_limit, Carries, of_conn_response, of_client_status, of_file_request, of_progress,
  received_bytes-Holds, turn-Takes,
}

-- The bytes of some messages, one after the other.
pub data Stream (qt : Qt) : List Dispatched → List ℕ → Type 0 where
  empty : Stream qt [] []
  message :
      {event : Dispatched} {events : List Dispatched} {bytes more : List ℕ}
      → Carries qt event bytes
      → Stream qt events more
      → Stream qt (event ∷ events) (bytes ++ more)

abbrev pub IsSettled : Buffer → Type 0
IsSettled b = (b.reader_index ≡ cheap_prepend) ⊎ (cheap_prepend + message_length ≤ b.reader_index)

-- Between two arrivals: what is left over is less than a header, and compaction cannot move bytes
-- over themselves.
pub record Waiting (b : Buffer) (tail : List ℕ) : Type 0 where
  pub holds : Holds b tail
  pub short : length tail < message_length
  pub settled : IsSettled b

Carries-length :
    (qt : Qt) (event : Dispatched) (bytes : List ℕ)
    → Carries qt event bytes
    → message_length ≤ length bytes
Carries-length qt _ _ (of_conn_response m tagged coded) =
    omega (arith, length-frame m.header_info.type m.header_info.code (m.status_code ∷ []))
Carries-length qt _ _ (of_client_status m v coded) =
    omega (arith, length-append {0}, length-frame m.header_info.type m.header_info.code)
Carries-length qt _ _ (of_file_request m v asked coded) =
    omega (arith, length-append {0}, length-frame m.header_info.type m.header_info.code)
Carries-length qt _ _ (of_progress m v coded) =
    omega (arith, length-append {0}, length-frame m.header_info.type m.header_info.code)

writer-le :
    (b b' : Buffer) (bytes rest : List ℕ)
    → Holds b (bytes ++ rest)
    → Holds b' rest
    → IsSettled b
    → (b'.reader_index ≡ cheap_prepend) ⊎ (b'.reader_index ≡ b.reader_index + length bytes)
    → b'.writer_index ≤ b.writer_index
writer-le b b' bytes rest h h' settled moved =
    omega (arith, h.writer_at, h.reader_at, h'.writer_at, h'.reader_at, length-append bytes rest)

Waiting-MovesApart : (b : Buffer) (tail : List ℕ) (len : ℕ) → Waiting b tail → MovesApart b len
Waiting-MovesApart b tail len w = elim (dec_le len (writable_bytes b)) [
  | yes room ↦ inl room
  | no small ↦ elim (dec_lt (writable_bytes b + b.reader_index) (len + cheap_prepend)) [
    | yes tight ↦ inr (inl tight)
    | no roomy ↦ inr (inr (omega (arith, w.settled, w.short, readable_bytes-Holds w.holds)))
  ]
]

module _ (qt : Qt) (build : Build) where
  -- With less than a header the loop ends.
  turn_stops :
      (b : Buffer) (tail : List ℕ)
      → Holds b tail
      → length tail < message_length
      → turn qt build b ≡ ok stop
  unfolding turn get_code_from_byte_array
  turn_stops b tail h short =
      rw (received_bytes-Holds b tail h (omega arith), open_frame_short build tail short)

  -- What the loop leaves.
  abbrev Ends : Buffer → List Dispatched → List ℕ → Option (Buffer × List Dispatched) → Type 0
  Ends b out tail r =
      (b' : Buffer) × (r ≡ some (b', out)) × Waiting b' tail × (b'.writer_index ≤ b.writer_index)

  loop_stops :
      (rounds : ℕ) (b : Buffer) (out : List Dispatched) (tail : List ℕ)
      → Waiting b tail
      → loop qt build (suc rounds) b out ≡ ok (some (b, out))
  unfolding loop
  loop_stops rounds b out tail w = rw (turn_stops b tail w.holds w.short)

  loop_again :
      (rounds : ℕ) (b b' : Buffer) (out more : List Dispatched)
      → turn qt build b ≡ ok (again b' more)
      → loop qt build (suc rounds) b out ≡ loop qt build rounds b' (out ++ more)
  unfolding loop
  loop_again rounds b b' out more e = rw e

  -- Enough rounds take all the messages at the front of the buffer, in order.
  pub loop_takes :
      (rounds : ℕ) (events : List Dispatched) (bytes tail : List ℕ) (b : Buffer)
      (out : List Dispatched)
      → Stream qt events bytes
      → length events < rounds
      → length bytes + length tail < stream_limit
      → length tail < message_length
      → Holds b (bytes ++ tail)
      → IsSettled b
      → Ensures (Ends b (out ++ events) tail) (loop qt build rounds b out)
  loop_takes zero events bytes tail b out st enough small short h settled = absurd (omega arith)
  loop_takes (suc rounds) _ _ tail b out empty enough small short h settled =
      Ensures-of_eq (some (b, out))
        (loop_stops rounds b out tail (record { holds = h; short = short; settled = settled }))
        (
          b,
          ap (λ o. some (b, o)) (sym (append-nil out)),
          record { holds = h; short = short; settled = settled },
          omega arith,
        )
  loop_takes (suc rounds) _ _ tail b out (message {event} {events} {bytes} {more} c st) enough small
        short h settled =
      let (t, e, (b', et, h', moved)) = Ensures-value (
        turn-Takes qt build event bytes (more ++ tail) b c (omega (arith, length-append {0}))
          (subst (Holds b) (append_assoc bytes more tail) h)) in
      rw (loop_again rounds b b' out (event ∷ []) (e ∙ ap ok et)) (
        Ensures-weaken
          (loop_takes rounds events more tail b' (out ++ event ∷ []) st (omega arith)
            (omega (arith, length-append {0})) short h'
            (omega (arith, moved, Carries-length qt event bytes c, settled)))
          λ r p. (
            p.0,
            p.1 ∙ ap (λ o. some (p.0, o)) (append_assoc out (event ∷ []) events),
            p.2,
            omega (
              arith,
              p.3,
              writer-le b b' bytes (more ++ tail) (subst (Holds b) (append_assoc bytes more tail) h)
                  h' settled moved,
            ),
          ))

  -- One run of the receiving slot: if the bytes left over and the arrival together are a stream
  -- of messages and less than a header behind it, the slot dispatches these messages in order
  -- and keeps the rest, with the buffer settled for the next arrival and its writer index no
  -- further than the arrival takes it. The conditions are those on rounds and sizes.
  pub on_recv_server_data-Ends :
      (rounds : ℕ) (events : List Dispatched) (bytes tail chunk tail' : List ℕ) (b : Buffer)
      → Waiting b tail
      → Stream qt events bytes
      → tail ++ chunk ≡ bytes ++ tail'
      → length tail' < message_length
      → length events < rounds
      → length tail + length chunk < stream_limit
      → b.writer_index + length chunk ≤ max_size
      → Ensures
          (λ r.
            (b' : Buffer) × (r ≡ some (b', events))
            × Waiting b' tail'
            × (b'.writer_index ≤ b.writer_index + length chunk))
          (on_recv_server_data qt build rounds b chunk)
  unfolding on_recv_server_data
  on_recv_server_data-Ends rounds events bytes tail chunk tail' b w st split short enough small
        fits =
      Ensures-bind (λ b'. Holds b' (tail ++ chunk) × KeepsReader b b') _ _ _
        (append-Holds build b tail chunk w.holds (Waiting-MovesApart b tail (length chunk) w) fits)
        λ b₁ p.
          Ensures-weaken
            (loop_takes rounds events bytes tail' b₁ [] st enough
              (omega (arith, ap length split, length-append tail chunk, length-append bytes tail'))
              short (subst (Holds b₁) split p.0) (omega (arith, p.1, w.settled)))
            λ r q. (
              q.0,
              q.1,
              q.2,
              omega (
                arith,
                q.3,
                p.0.writer_at,
                p.0.reader_at,
                p.1,
                w.settled,
                w.holds.writer_at,
                w.holds.reader_at,
                length-append tail chunk,
              ),
            )
