-- ===== src/Message/Content.antt =====
-- `fromByteArray` up to the content: the header that it stores, and whether the content is there.
use small_program.Base.{
  ℕ, ◌+◌, ◌^◌, ◌≤◌, ◌<◌, ◌≡◌, refl, sym, ap, ◌∙◌, List, [], ◌++◌, append_assoc, length,
  length-append, arith, Build, ok, Ensures, done, Ensures-bind, Ensures-weaken, Ensures-eq_ok,
  Option, none, some, le→ltb, lt→ltb, ◌≢◌,
}
use small_program.Base.Words.{to_big_endian, length-to_big_endian}
use small_program.Buffer.{Buffer, readable_bytes}
use small_program.Buffer.Regions.{Holds, readable_bytes-Holds}
use small_program.Buffer.Fresh.{IsFresh}
use small_program.Buffer.Chain.{
  make-then, append-then, retrieve-then, mem_read-then, read_uint32-then,
}
use small_program.Message.Qt.{Qt, c_string, c_string-eq}
use small_program.Message.Frame.{
  tag_name, tag_name_length, message_length, MsgHeader, read_content, read_frame,
}
use small_program.Message.Serialise.{frame_head, frame, content_limit}
use small_program.Message.Parse.{Opens, open_frame-Opens, open_frame_short, open_frame_foreign}

-- The header that is stored for a frame.
abbrev pub received : ℕ → ℕ → ℕ → MsgHeader
received type code n = record { header = tag_name; type = type; code = code; content_length = n }

abbrev pub Framed : ℕ → ℕ → List ℕ → MsgHeader × Option Buffer → Type 0
Framed type code content r =
    (c : Buffer) × (r ≡ (received type code (length content), some c)) × IsFresh c content

module _ (qt : Qt) (build : Build) where
  pub tag_text : qt.from_utf8 (c_string tag_name) ≡ tag_name
  tag_text =
      ap (λ s. qt.from_utf8 s)
        (c_string-eq tag_name (omega arith) ∙ sym (qt.to_utf8_ascii tag_name (omega arith)))
      ∙ qt.from_utf8-to_utf8 tag_name (qt.IsAscii-IsText tag_name (omega arith))

  abbrev Whole : MsgHeader → List ℕ → MsgHeader × Option Buffer → Type 0
  Whole h content r =
      (c : Buffer) × (r ≡ (record h { content_length = length content }, some c))
      × IsFresh c content

  read_content-Whole :
      (h : MsgHeader) (b : Buffer) (content rest : List ℕ)
      → length content < content_limit
      → Holds b (to_big_endian 4 (length content) ++ (content ++ rest))
      → Ensures (Whole h content) (read_content build qt h b)
  unfolding read_content
  read_content-Whole h b content rest small holds =
      read_uint32-then build (length content) b (content ++ rest) _ (omega arith) holds λ b₁ h₁.
        rw
          (le→ltb (readable_bytes b₁) (length content)
            (omega (arith, readable_bytes-Holds h₁, length-append content rest)))
          (make-then build _ λ c₀ f₀.
            mem_read-then build b₁ content rest (length content) _ refl h₁ (
              append-then build c₀ [] content _ f₀ (omega arith) (omega arith) λ c₁ f₁.
                retrieve-then build b₁ content rest (length content) _ refl h₁
                  λ b₂ h₂. done _ (c₁, refl, f₁)))

  read_content_partial :
      (h : MsgHeader) (b : Buffer) (n : ℕ) (part : List ℕ)
      → n < 2 ^ 32
      → length part < n
      → Holds b (to_big_endian 4 n ++ part)
      → Ensures (λ r. r ≡ (h, none)) (read_content build qt h b)
  unfolding read_content
  read_content_partial h b n part small short holds =
      read_uint32-then build n b part _ small holds λ b₁ h₁.
        rw (lt→ltb (readable_bytes b₁) n (omega (arith, readable_bytes-Holds h₁))) (done _ refl)

  -- A whole frame, whatever follows it.
  pub read_frame-Framed :
      (type code : ℕ) (content rest : List ℕ) (h : MsgHeader)
      → length content < content_limit
      → message_length + length content + length rest < 2 ^ 31
      → Ensures (Framed type code content) (read_frame build qt (frame type code content ++ rest) h)
  unfolding read_frame
  read_frame-Framed type code content rest h small fits =
      rw (append_assoc (to_big_endian 4 (length content)) content rest) (
        Ensures-bind (Opens type code (to_big_endian 4 (length content) ++ (content ++ rest))) _ _ _
          (open_frame-Opens build type code (to_big_endian 4 (length content) ++ (content ++ rest))
            (omega (arith, length-to_big_endian 4 (length content), length-append {0}))
            (omega (arith, length-to_big_endian 4 (length content), length-append {0})))
          λ r o. rw o.1 (
            Ensures-weaken (read_content-Whole _ o.0 content rest small o.2)
              λ r w. (w.0, w.1 ∙ ap (with_text (length content) w.0) tag_text, w.2)))
    where
      with_text : ℕ → Buffer → List ℕ → MsgHeader × Option Buffer
      with_text n c text =
          (record { header = text; type = type; code = code; content_length = n }, some c)

  -- A frame of which the end is missing: false, and the header has no content length yet.
  pub read_frame_partial :
      (type code n : ℕ) (part : List ℕ) (h : MsgHeader)
      → n < 2 ^ 32
      → length part < n
      → length part < content_limit
      → read_frame build qt (frame_head type code ++ (to_big_endian 4 n ++ part)) h
        ≡ ok (received type code h.content_length, none)
  unfolding read_frame
  read_frame_partial type code n part h small short fits = Ensures-eq_ok (
      Ensures-bind (Opens type code (to_big_endian 4 n ++ part)) _ _ _
        (open_frame-Opens build type code (to_big_endian 4 n ++ part)
          (omega (arith, length-to_big_endian 4 n, length-append {0}))
          (omega (arith, length-to_big_endian 4 n, length-append {0})))
        λ r o. rw o.1 (
          Ensures-weaken (read_content_partial _ o.0 n part small short o.2)
            λ r e. e ∙ ap with_text tag_text))
    where
      with_text : List ℕ → MsgHeader × Option Buffer
      with_text text = (
        record { header = text; type = type; code = code; content_length = h.content_length },
        none,
      )

  pub read_frame_short :
      (bytes : List ℕ) (h : MsgHeader)
      → length bytes < message_length
      → read_frame build qt bytes h ≡ ok (h, none)
  unfolding read_frame
  read_frame_short bytes h short = rw (open_frame_short build bytes short)

  pub read_frame_foreign :
      (start rest : List ℕ) (h : MsgHeader)
      → length start ≡ tag_name_length
      → start ≢ tag_name
      → message_length ≤ length start + length rest
      → length start + length rest < 2 ^ 31
      → read_frame build qt (start ++ rest) h ≡ ok (h, none)
  unfolding read_frame
  read_frame_foreign start rest h five other enough small =
      rw (open_frame_foreign build start rest five other enough small)
