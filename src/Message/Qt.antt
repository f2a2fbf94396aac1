-- ===== src/Message/Qt.antt =====
-- What the message code calls of Qt: UTF-8 and IPv4 addresses. A QString is the list of its UTF-16
-- code units, a QByteArray the list of its bytes.
use small_program.Base.{
  ℕ, ◌+◌, ◌*◌, ◌/◌, ◌%◌, ◌^◌, ◌<◌, ◌≡◌, refl, List, [], ◌∷◌, ◌==◌, if◌then◌else◌, arith, length,
}
use small_program.Base.{Build, Result, ok, ◌>>◌, q_assert}

abbrev pub QString : Type 0
QString = List ℕ

abbrev pub QByteArray : Type 0
QByteArray = List ℕ

abbrev pub HasNoNul : List ℕ → Type 0
HasNoNul [] = Unit {0}
HasNoNul (x ∷ xs) = (0 < x) × HasNoNul xs

abbrev pub IsAscii : List ℕ → Type 0
IsAscii [] = Unit {0}
IsAscii (x ∷ xs) = (0 < x) × (x < 128) × IsAscii xs

-- Qt's documented behaviour. `IsText` are the strings with no unpaired surrogate: those that have
-- a UTF-8 form.
pub record Qt : Type 1 where
  pub IsText : QString → Type 0
  pub to_utf8 : QString → QByteArray
  -- QString(const char *), of the bytes before the terminating NUL.
  pub from_utf8 : QByteArray → QString
  -- QHostAddress(text).toIPv4Address() and QHostAddress(value).toString().
  pub to_ipv4 : QString → ℕ
  pub ip_text : ℕ → QString
  pub from_utf8-to_utf8 : (s : QString) → IsText s → from_utf8 (to_utf8 s) ≡ s
  pub to_utf8-HasNoNul : (s : QString) → HasNoNul s → HasNoNul (to_utf8 s)
  pub to_utf8_ascii : (s : QString) → IsAscii s → to_utf8 s ≡ s
  pub IsAscii-IsText : (s : QString) → IsAscii s → IsText s
  pub to_ipv4-ip_text : (address : ℕ) → address < 2 ^ 32 → to_ipv4 (ip_text address) ≡ address

-- The C string at the start of an array: the bytes before the first NUL.
unfoldable pub c_string : QByteArray → QByteArray
c_string [] = []
c_string (x ∷ xs) = if x == 0 then [] else x ∷ c_string xs

-- CommonUtils::toUtf16LE: the code units as they lie in the memory of a little-endian machine.
unfoldable pub to_utf16_le : QString → QByteArray
to_utf16_le [] = []
to_utf16_le (u ∷ us) = u % 256 ∷ u / 256 ∷ to_utf16_le us

-- The code units that such bytes are; an odd byte at the end is no unit.
unfoldable pub utf16_units : QByteArray → QString
utf16_units [] = []
utf16_units (lo ∷ []) = []
utf16_units (lo ∷ hi ∷ rest) = (lo + 256 * hi) ∷ utf16_units rest

-- CommonUtils::toUtf8
unfoldable pub utf16_to_utf8 : Build → Qt → QByteArray → Result QByteArray
unfolding utf16_units
utf16_to_utf8 build qt bytes = do
  q_assert build (length bytes % 2 == 0)
  ok (qt.to_utf8 (utf16_units bytes))

pub c_string-eq : (xs : List ℕ) → HasNoNul xs → c_string xs ≡ xs
unfolding c_string
c_string-eq [] h = refl
c_string-eq (x ∷ xs) h = ground (arith, c_string-eq xs h.1)

pub IsAscii-HasNoNul : (xs : List ℕ) → IsAscii xs → HasNoNul xs
IsAscii-HasNoNul [] h = tt
IsAscii-HasNoNul (x ∷ xs) h = (h.0, IsAscii-HasNoNul xs h.2)

pub utf16_units-to_utf16_le : (s : QString) → utf16_units (to_utf16_le s) ≡ s
unfolding utf16_units to_utf16_le
utf16_units-to_utf16_le [] = refl
utf16_units-to_utf16_le (u ∷ us) = ground (arith, utf16_units-to_utf16_le us)

pub length-to_utf16_le : (s : QString) → length (to_utf16_le s) ≡ 2 * length s
unfolding to_utf16_le
length-to_utf16_le [] = refl
length-to_utf16_le (u ∷ us) = omega (arith, length-to_utf16_le us)
