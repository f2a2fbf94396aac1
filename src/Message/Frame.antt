-- ===== src/Message/Frame.antt =====
-- The frame of a message: the tag, the type, the code, the length of the content and the content.
use small_program.Base.{
  ℕ, ◌+◌, ◌%◌, ◌^◌, List, [], ◌∷◌, Option, none, some, length, ltb, bytes_eq, if◌then◌else◌, Build,
  Result, ok, ◌>>=◌,
}
use small_program.Memory.{mem_read}
use small_program.Buffer.{
  Buffer, initial_size, readable_bytes, peek, make, append, retrieve, retrieve_all_as_byte_array,
}
use small_program.Buffer.Numbers.{append_uint32, read_uint32}
use small_program.Message.Qt.{Qt, QString, QByteArray, c_string}

-- "RTKCS"
abbrev pub tag_name : QByteArray
tag_name = 82 ∷ 84 ∷ 75 ∷ 67 ∷ 83 ∷ []

abbrev pub tag_name_length : ℕ
tag_name_length = 5

-- MsgHeader. `type` is 0 for a request, 1 for a response, 2 for a notification.
pub record MsgHeader : Type 0 where
  pub header : QString
  pub type : ℕ
  pub code : ℕ
  pub content_length : ℕ

abbrev pub request : ℕ
request = 0

abbrev pub response : ℕ
response = 1

abbrev pub notify : ℕ
notify = 2

abbrev pub new_header : ℕ → ℕ → MsgHeader
new_header type code = record { header = tag_name; type = type; code = code; content_length = 0 }

abbrev pub message_length : ℕ
message_length = tag_name_length + 1 + 1 + 4

-- `getMessageLength` of a message with content, a uint32_t.
unfoldable pub get_message_length : MsgHeader → ℕ
get_message_length h = (message_length + h.content_length) % 2 ^ 32

-- The head of a frame as it was read, and the buffer behind it.
pub record Opened : Type 0 where
  pub header : QByteArray
  pub type : ℕ
  pub code : ℕ
  pub rest : Buffer

first : List ℕ → ℕ
first [] = 0
first (x ∷ xs) = x

module _ (build : Build) where
  -- memcpy of one byte from the reader index, and `retrieve(1)`.
  unfoldable pub read_byte : Buffer → Result (ℕ × Buffer)
  unfolding first peek
  read_byte b = do xs ← mem_read b.bytes (peek b) 1; b' ← retrieve build b 1; ok (first xs, b')

  -- QByteArray(buffer.peek(), n), and `retrieve(n)`.
  unfoldable pub read_bytes : ℕ → Buffer → Result (QByteArray × Buffer)
  unfolding peek
  read_bytes n b = do xs ← mem_read b.bytes (peek b) n; b' ← retrieve build b n; ok (xs, b')

  unfoldable pub read_type_and_code : QByteArray → Buffer → Result (Option Opened)
  unfolding read_byte
  read_type_and_code header b = do
    (type, b₁) ← read_byte b
    (code, b₂) ← read_byte b₁
    ok (some (record { header = header; type = type; code = code; rest = b₂ }))

  -- What `g_getCodeFromByteArray` and each `fromByteArray` begin with; `none` is `return false`.
  unfoldable pub open_frame : QByteArray → Result (Option Opened)
  unfolding read_bytes read_type_and_code
  open_frame bytes = if ltb (length bytes) message_length then ok none else (do
    b₀ ← make build initial_size
    b₁ ← append build b₀ bytes
    (header, b₂) ← read_bytes tag_name_length b₁
    if bytes_eq header tag_name then read_type_and_code header b₂ else ok none)

  -- g_getCodeFromByteArray: the type and the code, if there is a whole header.
  unfoldable pub get_code_from_byte_array : QByteArray → Result (Option (ℕ × ℕ))
  unfolding open_frame
  get_code_from_byte_array bytes = do
    opened ← open_frame bytes
    ok (elim opened [ none ↦ none | some o ↦ some (o.type, o.code) ])

  module _ (qt : Qt) where
    abbrev pub started : MsgHeader → Opened → MsgHeader
    started h o = record h {
      header = qt.from_utf8 (c_string o.header);
      type = o.type;
      code = o.code;
    }

    -- The content length and, if they are all there, the bytes of the content in a buffer.
    unfoldable pub read_content : MsgHeader → Buffer → Result (MsgHeader × Option Buffer)
    unfolding readable_bytes peek
    read_content h b = do
      (content_length, b₁) ← read_uint32 build b
      if ltb (readable_bytes b₁) content_length then ok (h, none) else (do
        c₀ ← make build initial_size
        bytes ← mem_read b₁.bytes (peek b₁) content_length
        c₁ ← append build c₀ bytes
        b₂ ← retrieve build b₁ content_length
        ok (record h { content_length = content_length }, some c₁))

    -- The part of `fromByteArray` before the content is read; with no content it returns false.
    unfoldable pub read_frame : QByteArray → MsgHeader → Result (MsgHeader × Option Buffer)
    unfolding open_frame read_content
    read_frame bytes h = do
      opened ← open_frame bytes
      elim opened [ none ↦ ok (h, none) | some o ↦ read_content (started h o) o.rest ]

    -- The first lines of `toByteArray`: the tag, the type and the code.
    unfoldable pub begin_frame : MsgHeader → Result Buffer
    begin_frame h = do
      b₀ ← make build initial_size
      b₁ ← append build b₀ (qt.to_utf8 h.header)
      b₂ ← append build b₁ (h.type ∷ [])
      append build b₂ (h.code ∷ [])

  -- The last lines of `toByteArray`: the length of the content, and the content.
  unfoldable pub end_frame : Buffer → Buffer → Result QByteArray
  unfolding readable_bytes
  end_frame b content = do
    b₁ ← append_uint32 build b (readable_bytes content % 2 ^ 32)
    (bytes, _) ← retrieve_all_as_byte_array build content
    b₂ ← append build b₁ bytes
    (frame, _) ← retrieve_all_as_byte_array build b₂
    ok frame
