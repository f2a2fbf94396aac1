-- ===== src/Message/Body.antt =====
-- What the `fromByteArray` functions of the messages with content have in common: the frame is
-- read, and with all of the content at hand its fields are.
use small_program.Base.{
  ℕ, ◌+◌, ◌^◌, ◌<◌, ◌≤◌, ◌≡◌, List, ◌++◌, Option, none, some, Bool, true, false, length, arith,
  Build, Result, ok, ◌>>=◌, Ensures, done, Ensures-bind, Ensures-eq_ok, Ensures-of_eq, ap, ◌≢◌,
  subst, sym,
}
use small_program.Base.Words.{to_big_endian}
use small_program.Buffer.{Buffer}
use small_program.Buffer.Fresh.{IsFresh}
use small_program.Message.Qt.{Qt, QByteArray}
use small_program.Message.Frame.{
  tag_name, tag_name_length, message_length, MsgHeader, read_frame, get_message_length,
}
use small_program.Message.Serialise.{frame_head, frame, length-frame, content_limit}
use small_program.Message.Content.{
  received, Framed, read_frame-Framed, read_frame_partial, read_frame_short, read_frame_foreign,
}

-- `store` puts the header into the message that the caller passed in; `read_fields` reads the
-- other fields from the content.
abbrev pub after_frame {ℓ} :
    {M : Type ℓ}
    → (MsgHeader → M)
    → (MsgHeader → Buffer → Result M)
    → MsgHeader × Option Buffer
    → Result (Bool × M)
after_frame store read_fields (h, none) = ok (false, store h)
after_frame store read_fields (h, some c) = do m ← read_fields h c; ok (true, m)

unfoldable pub from_frame {ℓ} :
    {M : Type ℓ} (qt : Qt) (build : Build)
    → (MsgHeader → M)
    → (MsgHeader → Buffer → Result M)
    → QByteArray
    → MsgHeader
    → Result (Bool × M)
from_frame qt build store read_fields bytes h =
    read_frame build qt bytes h >>= after_frame store read_fields

module _ {ℓ} (qt : Qt) (build : Build) {M : Type ℓ} (store : MsgHeader → M)
    (read_fields : MsgHeader → Buffer → Result M) where
  pub from_frame_whole :
      (type code : ℕ) (content rest : List ℕ) (h : MsgHeader) (m : M)
      → length content < content_limit
      → message_length + length content + length rest < 2 ^ 31
      → ((c : Buffer)
          → IsFresh c content
          → Ensures (λ m'. m' ≡ m) (read_fields (received type code (length content)) c))
      → from_frame qt build store read_fields (frame type code content ++ rest) h ≡ ok (true, m)
  unfolding from_frame
  from_frame_whole type code content rest h m small fits fields = Ensures-eq_ok (
      Ensures-bind (Framed type code content) _ _ _
        (read_frame-Framed qt build type code content rest h small fits)
        λ r w.
          subst (λ x. Ensures (λ p. p ≡ (true, m)) (after_frame store read_fields x)) (sym w.1)
            (Ensures-bind (λ m'. m' ≡ m) _ _ _ (fields w.0 w.2)
              λ m' e. done _ (ap (paired true) e)))
    where
      paired : Bool → M → Bool × M
      paired b m' = (b, m')

  -- The bytes of a frame, whatever follows them, are read as the message `m`, whose
  -- `getMessageLength` is their number.
  pub round_trip :
      (type code : ℕ) (content rest : List ℕ) (h : MsgHeader) (m : M) (sent : Result QByteArray)
      → sent ≡ ok (frame type code content)
      → length content < content_limit
      → message_length + length content + length rest < 2 ^ 31
      → ((c : Buffer)
          → IsFresh c content
          → Ensures (λ m'. m' ≡ m) (read_fields (received type code (length content)) c))
      → Ensures
          (λ bytes.
            (from_frame qt build store read_fields (bytes ++ rest) h ≡ ok (true, m))
            × (get_message_length (received type code (length content)) ≡ length bytes))
          sent
  unfolding get_message_length
  round_trip type code content rest h m sent e small fits fields = Ensures-of_eq _ e (
    from_frame_whole type code content rest h m small fits fields,
    omega (arith, length-frame type code content),
  )

  -- A frame whose end is missing: false.
  pub from_frame_partial :
      (type code n : ℕ) (part : List ℕ) (h : MsgHeader)
      → n < 2 ^ 32
      → length part < n
      → length part < content_limit
      → from_frame qt build store read_fields
          (frame_head type code ++ (to_big_endian 4 n ++ part))
          h
        ≡ ok (false, store (received type code h.content_length))
  unfolding from_frame
  from_frame_partial type code n part h small short fits =
      rw (read_frame_partial qt build type code n part h small short fits)

  pub from_frame_short :
      (bytes : List ℕ) (h : MsgHeader)
      → length bytes < message_length
      → from_frame qt build store read_fields bytes h ≡ ok (false, store h)
  unfolding from_frame
  from_frame_short bytes h short = rw (read_frame_short qt build bytes h short)

  pub from_frame_foreign :
      (start rest : List ℕ) (h : MsgHeader)
      → length start ≡ tag_name_length
      → start ≢ tag_name
      → message_length ≤ length start + length rest
      → length start + length rest < 2 ^ 31
      → from_frame qt build store read_fields (start ++ rest) h ≡ ok (false, store h)
  unfolding from_frame
  from_frame_foreign start rest h five other enough small =
      rw (read_frame_foreign qt build start rest h five other enough small)
