-- ===== src/Process/Stuck.antt =====
-- Where the receiving loop makes no progress: a header whose content has not all arrived, and a
-- start that is not the tag.
use small_program.Base.{
  ℕ, zero, suc, ◌+◌, ◌^◌, ◌<◌, ◌≤◌, ◌≡◌, ◌≢◌, refl, ap, ◌∙◌, subst, ◌⊎◌, inl, inr, List, [], ◌++◌,
  append-nil, append_assoc, none, some, length, length-append, arith, Build, ok, Ensures, done,
  Ensures-bind,
}
use small_program.Base.Words.{to_big_endian, length-to_big_endian}
use small_program.Memory.{max_size}
use small_program.Buffer.{Buffer}
use small_program.Buffer.Regions.{Holds}
use small_program.Buffer.Room.{MovesApart}
use small_program.Buffer.Append.{append-Holds, KeepsReader}
use small_program.Message.Qt.{Qt}
use small_program.Message.Frame.{
  tag_name, tag_name_length, message_length, request, get_code_from_byte_array,
}
use small_program.Message.Serialise.{frame_head, content_limit}
use small_program.Message.Parse.{open_frame_foreign}
use small_program.Message.Body.{from_frame_partial}
use small_program.Message.ClientStatus
use small_program.Message.FileRequest
use small_program.Message.Progress
use small_program.Message.ConnResponse
use small_program.Process.{Dispatched, stop, again, handle, turn, loop, on_recv_server_data}
use small_program.Process.Turns.{
  received_bytes-Holds, turn-handle, handle-client_status, handle-conn_response,
  handle-file_request, handle-progress,
}

-- The headers after which the loop looks for content, and code 2, which it does not handle.
abbrev pub WaitsForContent : ℕ → ℕ → Type 0
WaitsForContent type code =
    (code ≡ 1) ⊎ (code ≡ 2) ⊎ (code ≡ 3) ⊎ ((type ≡ request) × (code ≡ 4)) ⊎ (code ≡ 5)

module _ (qt : Qt) (build : Build) where
  handle_partial :
      (b : Buffer) (type code n : ℕ) (part : List ℕ)
      → WaitsForContent type code
      → n < 2 ^ 32
      → length part < n
      → length part < content_limit
      → handle qt build b (frame_head type code ++ (to_big_endian 4 n ++ part)) (type, code)
        ≡ ok (again b [])
  unfolding handle ConnResponse.from_byte_array ClientStatus.from_byte_array
      FileRequest.from_byte_array Progress.from_byte_array
  handle_partial b type code n part (inl e) small short fits =
      handle-conn_response qt build b _ type code e
      ∙ rw (from_frame_partial qt build _ _ type code n part _ small short fits)
  handle_partial b type code n part (inr (inl e)) small short fits =
      ap (λ c. handle qt build b (frame_head type code ++ (to_big_endian 4 n ++ part)) (type, c)) e
  handle_partial b type code n part (inr (inr (inl e))) small short fits =
      handle-client_status qt build b _ type code e
      ∙ rw (from_frame_partial qt build _ _ type code n part _ small short fits)
  handle_partial b type code n part (inr (inr (inr (inl (d, e))))) small short fits =
      handle-file_request qt build b _ type code d e
      ∙ rw (from_frame_partial qt build _ _ type code n part _ small short fits)
  handle_partial b type code n part (inr (inr (inr (inr e)))) small short fits =
      handle-progress qt build b _ type code e
      ∙ rw (from_frame_partial qt build _ _ type code n part _ small short fits)

  looping :
      (rounds : ℕ) (b : Buffer) (out : List Dispatched)
      → turn qt build b ≡ ok (again b [])
      → loop qt build rounds b out ≡ ok none
  unfolding loop
  looping zero b out spins = refl
  looping (suc rounds) b out spins = rw (spins, append-nil out) (looping rounds b out spins)

  -- If the buffer holds the tag, a type, a code, a content length and less content than that,
  -- the loop never ends, in any build: a round leaves the buffer as it was and dispatches
  -- nothing, and after any number of rounds the loop is still running. This is for the codes 1,
  -- 3 and 5, for code 4 with the type of a request, and for code 2, and for content shorter than
  -- the content limit.
  pub loop_spins :
      (rounds : ℕ) (b : Buffer) (out : List Dispatched) (type code n : ℕ) (part : List ℕ)
      → WaitsForContent type code
      → n < 2 ^ 32
      → length part < n
      → length part < content_limit
      → Holds b (frame_head type code ++ (to_big_endian 4 n ++ part))
      → (turn qt build b ≡ ok (again b [])) × (loop qt build rounds b out ≡ ok none)
  loop_spins rounds b out type code n part waits small short fits h =
      (spins, looping rounds b out spins)
    where
      spins : turn qt build b ≡ ok (again b [])
      spins =
          turn-handle qt build type code (to_big_endian 4 n ++ part) b h
            (omega (arith, length-append {0}, length-to_big_endian 4 n))
            (omega (arith, length-append {0}, length-to_big_endian 4 n))
          ∙ handle_partial b type code n part waits small short fits

  turn_foreign :
      (b : Buffer) (start rest : List ℕ)
      → length start ≡ tag_name_length
      → start ≢ tag_name
      → message_length ≤ length start + length rest
      → length start + length rest < 2 ^ 31
      → Holds b (start ++ rest)
      → turn qt build b ≡ ok stop
  unfolding turn get_code_from_byte_array
  turn_foreign b start rest five other enough small h = rw (
    received_bytes-Holds b (start ++ rest) h (omega (arith, length-append start rest)),
    open_frame_foreign build start rest five other enough small,
  )

  -- Once the buffer begins with five bytes that are not the tag and holds at least a header's
  -- length, an arrival is never dispatched: the slot ends, and keeps all the bytes with the
  -- arrival behind them. The conditions are that append may be called and that all fits in a
  -- QByteArray.
  pub foreign_blocks :
      (rounds : ℕ) (b : Buffer) (start rest chunk : List ℕ)
      → length start ≡ tag_name_length
      → start ≢ tag_name
      → message_length ≤ length start + length rest
      → length start + length rest + length chunk < 2 ^ 31
      → Holds b (start ++ rest)
      → MovesApart b (length chunk)
      → b.writer_index + length chunk ≤ max_size
      → Ensures
          (λ r. (b' : Buffer) × (r ≡ some (b', [])) × Holds b' (start ++ (rest ++ chunk)))
          (on_recv_server_data qt build (suc rounds) b chunk)
  unfolding on_recv_server_data loop
  foreign_blocks rounds b start rest chunk five other enough small h apart fits =
      Ensures-bind (λ b'. Holds b' ((start ++ rest) ++ chunk) × KeepsReader b b') _ _ _
        (append-Holds build b (start ++ rest) chunk h apart fits)
        λ b₁ p.
          let h' = subst (Holds b₁) (append_assoc start rest chunk) p.0 in
          rw
            (turn_foreign b₁ start (rest ++ chunk) five other
              (omega (arith, length-append rest chunk)) (omega (arith, length-append rest chunk))
              h')
            (done _ (b₁, refl, h'))
