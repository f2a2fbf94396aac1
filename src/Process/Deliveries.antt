-- ===== src/Process/Deliveries.antt =====
-- A stream of messages cut into arrivals at any places where less than a header is left over.
use small_program.Base.{
  ℕ, ◌+◌, ◌<◌, ◌≤◌, ◌≡◌, refl, ap, ◌∙◌, List, [], ◌∷◌, ◌++◌, some, length, arith, Build, ok, ◌>>=◌,
  Ensures, done, Ensures-bind, Ensures-value,
}
use small_program.Memory.{max_size}
use small_program.Buffer.{Buffer}
use small_program.Message.Qt.{Qt}
use small_program.Message.Frame.{message_length}
use small_program.Process.{Dispatched, behind, on_recv_server_data, receive_all}
use small_program.Process.Turns.{stream_limit}
use small_program.Process.Stream.{Stream, Waiting, on_recv_server_data-Ends}

abbrev pub total_length : List (List ℕ) → ℕ
total_length [] = 0
total_length (chunk ∷ chunks) = length chunk + total_length chunks

-- `Deliveries qt tail chunks events last`: with `tail` left over, the arrivals `chunks` complete
-- the messages `events` and leave `last` over.
pub data Deliveries (qt : Qt) : List ℕ → List (List ℕ) → List Dispatched → List ℕ → Type 0 where
  finished : (tail : List ℕ) → Deliveries qt tail [] [] tail
  arrival :
      {tail chunk bytes tail' last : List ℕ} {chunks : List (List ℕ)}
      {events later : List Dispatched}
      → Stream qt events bytes
      → tail ++ chunk ≡ bytes ++ tail'
      → length tail' < message_length
      → length tail + length chunk < stream_limit
      → Deliveries qt tail' chunks later last
      → Deliveries qt tail (chunk ∷ chunks) (events ++ later) last

-- Each arrival completes fewer messages than there are rounds.
abbrev pub EnoughRounds :
    {qt : Qt} {tail : List ℕ} {chunks : List (List ℕ)} {events : List Dispatched} {last : List ℕ}
    → ℕ
    → Deliveries qt tail chunks events last
    → Type 0
EnoughRounds rounds (finished tail) = Unit {0}
EnoughRounds rounds (arrival {events = events} st split short small d) =
    (length events < rounds) × EnoughRounds rounds d

module _ (qt : Qt) (build : Build) where
  receive_all_step :
      (rounds : ℕ) (b b' : Buffer) (chunk : List ℕ) (chunks : List (List ℕ)) (out : List Dispatched)
      → on_recv_server_data qt build rounds b chunk ≡ ok (some (b', out))
      → receive_all qt build rounds b (chunk ∷ chunks)
        ≡ (do r ← receive_all qt build rounds b' chunks; ok (behind qt build out r))
  unfolding receive_all
  receive_all_step rounds b b' chunk chunks out e = rw e

  -- If messages of the four kinds that the client dispatches arrive as one stream, cut into
  -- arrivals so that less than a header is left over after each, then every message is
  -- dispatched once, in order, and nothing else is. No call of the buffer, the parsers or the
  -- loop has undefined behaviour or fails an assertion, and the loop ends each time. The
  -- conditions: each arrival completes fewer messages than the rounds given to the loop, an
  -- arrival with what was left over stays under the stream limit, and the writer index with all
  -- that arrives stays within the vector's maximal size.
  pub receive_all-Deliveries :
      (rounds : ℕ) (tail : List ℕ) (chunks : List (List ℕ)) (events : List Dispatched)
      (last : List ℕ) (b : Buffer) (d : Deliveries qt tail chunks events last)
      → EnoughRounds rounds d
      → Waiting b tail
      → b.writer_index + total_length chunks ≤ max_size
      → Ensures
          (λ r. (b' : Buffer) × (r ≡ some (b', events)) × Waiting b' last)
          (receive_all qt build rounds b chunks)
  unfolding receive_all
  receive_all-Deliveries rounds _ _ _ _ b (finished tail) enough w fits = done _ (b, refl, w)
  receive_all-Deliveries rounds tail _ _ last b
        (arrival {chunk = chunk} {bytes = bytes} {tail' = tail'} {chunks = chunks} {events = events}
          {later = later} st split short small d)
        enough w fits =
      let (r, e, (b', er, w', le)) = Ensures-value (
        on_recv_server_data-Ends qt build rounds events bytes tail chunk tail' b w st split short
          enough.0 small (omega arith)) in
      rw (receive_all_step rounds b b' chunk chunks events (e ∙ ap ok er)) (
        Ensures-bind (λ r. (b' : Buffer) × (r ≡ some (b', later)) × Waiting b' last) _ _ _
          (receive_all-Deliveries rounds tail' chunks later last b' d enough.1 w' (omega arith))
          λ r p. done _ (p.0, ap (behind qt build events) p.1, p.2))
