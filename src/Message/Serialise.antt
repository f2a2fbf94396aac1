-- ===== src/Message/Serialise.antt =====
-- The bytes of a frame, and that `toByteArray` makes them.
use small_program.Base.{
  ℕ, ◌+◌, ◌-◌, ◌%◌, ◌^◌, ◌<◌, ◌≡◌, ap, ◌∙◌, subst, List, [], ◌∷◌, ◌++◌, append_assoc, length,
  length-append, arith, Build, Ensures, done, Ensures-weaken,
}
use small_program.Base.Words.{to_big_endian, length-to_big_endian}
use small_program.Buffer.{Buffer, readable_bytes}
use small_program.Buffer.Regions.{readable_bytes-Holds}
use small_program.Buffer.Fresh.{IsFresh, append-IsFresh}
use small_program.Buffer.Chain.{
  make-then, append-then, append_uint32-then, retrieve_all_as_byte_array-then,
}
use small_program.Message.Qt.{Qt}
use small_program.Message.Frame.{tag_name, message_length, MsgHeader, begin_frame, end_frame}

-- The wire format: tag, type, code, big-endian length, content.
abbrev pub frame_head : ℕ → ℕ → List ℕ
frame_head type code = tag_name ++ (type ∷ code ∷ [])

abbrev pub frame : ℕ → ℕ → List ℕ → List ℕ
frame type code content = frame_head type code ++ (to_big_endian 4 (length content) ++ content)

-- The length that is left for the content: a QByteArray has less than 2 ^ 31 bytes.
abbrev pub content_limit : ℕ
content_limit = 2 ^ 31 - 16

pub length-frame :
    (type code : ℕ) (content : List ℕ)
    → length (frame type code content) ≡ message_length + length content
length-frame type code content = omega (
  arith,
  length-append (to_big_endian 4 (length content)) content,
  length-to_big_endian 4 (length content),
)

module _ (qt : Qt) (build : Build) where
  pub begin_frame-IsFresh :
      (h : MsgHeader)
      → h.header ≡ tag_name
      → Ensures (λ b. IsFresh b (frame_head h.type h.code)) (begin_frame build qt h)
  unfolding begin_frame
  begin_frame-IsFresh h named = make-then build _ λ b₀ h₀.
      append-then build b₀ [] (qt.to_utf8 h.header) _ h₀ (omega arith)
        (omega (arith, ap length tag))
        λ b₁ h₁.
          append-then build b₁ (qt.to_utf8 h.header) (h.type ∷ []) _ h₁
            (omega (arith, ap length tag)) (omega arith)
            λ b₂ h₂.
              Ensures-weaken
                (append-IsFresh build b₂ (qt.to_utf8 h.header ++ (h.type ∷ [])) (h.code ∷ []) h₂
                  (omega (arith, ap length tag, length-append {0})) (omega arith))
                λ b p. subst (λ t. IsFresh b ((t ++ (h.type ∷ [])) ++ (h.code ∷ []))) tag p
    where
      tag : qt.to_utf8 h.header ≡ tag_name
      tag = ap (λ s. qt.to_utf8 s) named ∙ qt.to_utf8_ascii tag_name (omega arith)

  length-head-then-size :
      (type code n : ℕ) → length (frame_head type code ++ to_big_endian 4 n) ≡ message_length
  length-head-then-size type code n =
      omega
        (arith, length-append (frame_head type code) (to_big_endian 4 n), length-to_big_endian 4 n)

  pub end_frame-frame :
      (type code : ℕ) (b c : Buffer) (content : List ℕ)
      → IsFresh b (frame_head type code)
      → IsFresh c content
      → length content < content_limit
      → Ensures (λ bytes. bytes ≡ frame type code content) (end_frame build b c)
  unfolding end_frame
  end_frame-frame type code b c content hb hc small =
      append_uint32-then build (readable_bytes c % 2 ^ 32) b (frame_head type code) _ hb
        (omega arith)
        λ b₁ h₁. retrieve_all_as_byte_array-then build c content _ (omega arith) hc.holds λ c' _.
          append-then build b₁ (frame_head type code ++ to_big_endian 4 (length content)) content _
            (subst (λ n. IsFresh b₁ (frame_head type code ++ to_big_endian 4 n)) sized h₁)
            (omega (arith, length-head-then-size type code (length content))) (omega arith)
            λ b₂ h₂.
              retrieve_all_as_byte_array-then build b₂ _ _
                (omega (
                  arith,
                  length-head-then-size type code (length content),
                  length-append (frame_head type code ++ to_big_endian 4 (length content)) content,
                ))
                h₂.holds
                λ b' _.
                  done _
                    (append_assoc (frame_head type code) (to_big_endian 4 (length content)) content)
    where
      sized : readable_bytes c % 2 ^ 32 ≡ length content
      sized = omega (arith, readable_bytes-Holds hc.holds)
