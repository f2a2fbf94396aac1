-- ===== src/Message/Fields.antt =====
-- Stretches of content that several messages have: the endpoint (IP address, port and client id),
-- and the text at the end.
use small_program.Base.{
  ℕ, ◌+◌, ◌%◌, ◌^◌, ◌≤◌, ◌<◌, ◌≡◌, sym, ap, ◌∙◌, subst, List, ◌++◌, append_assoc, length,
  length-append, arith, Build, Result, ok, ◌>>=◌, ◌>>◌, q_assert, q_assert-true, ◌==◌, Ensures,
  done, Ensures-weaken, ==_iff,
}
use small_program.Base.Words.{to_big_endian, length-to_big_endian}
use small_program.Buffer.{Buffer, append, retrieve_all_as_byte_array}
use small_program.Buffer.Regions.{Holds, Leaves}
use small_program.Buffer.Fresh.{IsFresh, append-IsFresh}
use small_program.Buffer.Chain.{
  append_uint32-then, append_uint16-then, read_uint32-then, read_uint16-then,
  retrieve_all_as_byte_array-then,
}
use small_program.Buffer.Numbers.{append_uint32, append_uint16, read_uint32, read_uint16}
use small_program.Message.Qt.{
  Qt, QString, QByteArray, HasNoNul, c_string, c_string-eq, to_utf16_le, utf16_to_utf8,
  utf16_units-to_utf16_le, length-to_utf16_le,
}
use small_program.Message.Frame.{read_bytes}
use small_program.Message.Parse.{read_bytes-then}

-- The length of a client id.
abbrev pub id_length : ℕ
id_length = 46

pub record Endpoint : Type 0 where
  pub ip : QString
  pub port : ℕ
  pub client_id : QByteArray

module _ (qt : Qt) (build : Build) where
  unfoldable pub append_endpoint : Buffer → Endpoint → Result Buffer
  append_endpoint b e = do
    b₁ ← append_uint32 build b (qt.to_ipv4 e.ip)
    b₂ ← append_uint16 build b₁ e.port
    q_assert build (length e.client_id == id_length)
    append build b₂ e.client_id

  unfoldable pub read_endpoint : Buffer → Result (Endpoint × Buffer)
  read_endpoint b = do
    (ip, b₁) ← read_uint32 build b
    (port, b₂) ← read_uint16 build b₁
    (client_id, b₃) ← read_bytes build id_length b₂
    ok (record { ip = qt.ip_text ip; port = port; client_id = client_id }, b₃)

  -- CommonUtils::toUtf8(buffer.retrieveAllAsByteArray()).constData(), as a QString.
  unfoldable pub read_text : Buffer → Result QString
  read_text b = do
    (bytes, _) ← retrieve_all_as_byte_array build b
    utf8 ← utf16_to_utf8 build qt bytes
    ok (qt.from_utf8 (c_string utf8))

-- The endpoints that a message can carry: an IPv4 address in Qt's notation, a 16-bit port and an
-- id of 46 bytes.
pub record IsEndpoint (qt : Qt) (e : Endpoint) : Type 0 where
  pub address : ℕ
  pub address_bound : address < 2 ^ 32
  pub ip_is : e.ip ≡ qt.ip_text address
  pub port_bound : e.port < 2 ^ 16
  pub id_is : length e.client_id ≡ id_length

-- The texts that a message can carry.
pub record IsCarried (qt : Qt) (s : QString) : Type 0 where
  pub text : qt.IsText s
  pub no_nul : HasNoNul s
  pub short : length s < 2 ^ 29

abbrev pub endpoint_bytes : ℕ → Endpoint → List ℕ
endpoint_bytes address e = to_big_endian 4 address ++ (to_big_endian 2 e.port ++ e.client_id)

pub length-endpoint_bytes :
    (address : ℕ) (e : Endpoint) → length (endpoint_bytes address e) ≡ 6 + length e.client_id
length-endpoint_bytes address e =
    omega (arith, length-append {0}, length-to_big_endian 4 address, length-to_big_endian 2 e.port)

module _ (qt : Qt) (build : Build) where
  pub append_endpoint-IsFresh :
      (b : Buffer) (xs : List ℕ) (e : Endpoint) (v : IsEndpoint qt e)
      → IsFresh b xs
      → length xs ≤ 1024
      → Ensures (λ b'. IsFresh b' (xs ++ endpoint_bytes v.address e)) (append_endpoint qt build b e)
  unfolding append_endpoint
  append_endpoint-IsFresh b xs e v h small = rw known (
      append_uint32-then build v.address b xs _ h (omega arith) λ b₁ h₁.
        append_uint16-then build e.port b₁ (xs ++ to_big_endian 4 v.address) _ h₁
          (omega (arith, length-append {0}, length-to_big_endian 4 v.address))
          λ b₂ h₂.
            rw (q_assert-true build (length e.client_id == id_length) ((==_iff _ _).1 v.id_is)) (
              Ensures-weaken
                (append-IsFresh build b₂
                  ((xs ++ to_big_endian 4 v.address) ++ to_big_endian 2 e.port) e.client_id h₂
                  (omega (
                    arith,
                    length-append {0},
                    length-to_big_endian 4 v.address,
                    length-to_big_endian 2 e.port,
                  ))
                  (omega (arith, v.id_is)))
                λ b₃ h₃. subst (IsFresh b₃) regroup h₃))
    where
      known : qt.to_ipv4 e.ip ≡ v.address
      known = ap (λ s. qt.to_ipv4 s) v.ip_is ∙ qt.to_ipv4-ip_text v.address v.address_bound

      regroup :
          ((xs ++ to_big_endian 4 v.address) ++ to_big_endian 2 e.port) ++ e.client_id
          ≡ xs ++ endpoint_bytes v.address e
      regroup = simp append_assoc

  pub read_endpoint-Leaves :
      (b : Buffer) (e : Endpoint) (v : IsEndpoint qt e) (ys : List ℕ)
      → Holds b (endpoint_bytes v.address e ++ ys)
      → Ensures (Leaves e ys) (read_endpoint qt build b)
  unfolding read_endpoint
  read_endpoint-Leaves b e v ys h =
      read_uint32-then build v.address b (to_big_endian 2 e.port ++ (e.client_id ++ ys)) _
        v.address_bound (subst (Holds b) regroup h)
        λ b₁ h₁. read_uint16-then build e.port b₁ (e.client_id ++ ys) _ v.port_bound h₁ λ b₂ h₂.
          read_bytes-then build id_length b₂ e.client_id ys _ (sym v.id_is) h₂
            λ b₃ h₃. done _ (ap (with_ip e) (sym v.ip_is), h₃)
    where
      with_ip : Endpoint → QString → Endpoint
      with_ip e' ip = record e' { ip = ip }

      regroup :
          endpoint_bytes v.address e ++ ys
          ≡ to_big_endian 4 v.address ++ (to_big_endian 2 e.port ++ (e.client_id ++ ys))
      regroup = simp append_assoc

  utf16_to_utf8-eq : (s : QString) → utf16_to_utf8 build qt (to_utf16_le s) ≡ ok (qt.to_utf8 s)
  unfolding utf16_to_utf8
  utf16_to_utf8-eq s = rw (
    q_assert-true build (length (to_utf16_le s) % 2 == 0)
        ((==_iff _ _).1 (omega (arith, length-to_utf16_le s))),
    utf16_units-to_utf16_le s,
  )

  -- The text that was written is the text that is read.
  pub read_text-eq :
      (b : Buffer) (s : QString)
      → IsCarried qt s
      → Holds b (to_utf16_le s)
      → Ensures (λ t. t ≡ s) (read_text qt build b)
  unfolding read_text
  read_text-eq b s v h =
      retrieve_all_as_byte_array-then build b (to_utf16_le s) _
        (omega (arith, length-to_utf16_le s, v.short)) h
        λ b' _. rw (utf16_to_utf8-eq s) (
          done _ (
            ap (λ u. qt.from_utf8 u) (c_string-eq (qt.to_utf8 s) (qt.to_utf8-HasNoNul s v.no_nul))
            ∙ qt.from_utf8-to_utf8 s v.text))
