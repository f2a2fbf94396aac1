-- ===== src/Base/Words.antt =====
-- Machine words: size_t of 64 bits, and the big-endian bytes of a word.
use Prim.Native.Nat.{ℕ, zero, suc, ◌+◌, ◌-◌, ◌*◌, ◌/◌, ◌%◌, ◌^◌, ◌<◌}
use mathlib.Core.Path.{◌≡◌, refl, ap, ◌∙◌}
use mathlib.Core.List.{List, [], ◌∷◌, ◌++◌}
use native.Mathlib.Omega.{arith}
use native.Mathlib.Nat.{pow-suc}
use small_program.Base.Lists.{length, length-append}

-- size_t arithmetic wraps.
abbrev pub add_size : ℕ → ℕ → ℕ
add_size a b = (a + b) % 2 ^ 64

abbrev pub sub_size : ℕ → ℕ → ℕ
sub_size a b = (a + 2 ^ 64 - b) % 2 ^ 64

-- The bytes of a word of n bytes as qToBigEndian leaves them in memory, most significant first.
unfoldable pub to_big_endian : ℕ → ℕ → List ℕ
to_big_endian zero x = []
to_big_endian (suc n) x = to_big_endian n (x / 256) ++ (x % 256) ∷ []

-- qFromBigEndian: the word that such bytes stand for.
pub from_big_endian_acc : ℕ → List ℕ → ℕ
from_big_endian_acc acc [] = acc
from_big_endian_acc acc (b ∷ bs) = from_big_endian_acc (acc * 256 + b) bs

pub from_big_endian : List ℕ → ℕ
unfolding from_big_endian_acc
from_big_endian bs = from_big_endian_acc 0 bs

pub length-to_big_endian : (n x : ℕ) → length (to_big_endian n x) ≡ n
unfolding to_big_endian
length-to_big_endian zero x = refl
length-to_big_endian (suc n) x = omega (
  arith,
  length-append (to_big_endian n (x / 256)) ((x % 256) ∷ []),
  length-to_big_endian n (x / 256),
)

from_big_endian_acc-append :
    (acc : ℕ) (bs : List ℕ) (b : ℕ)
    → from_big_endian_acc acc (bs ++ b ∷ []) ≡ from_big_endian_acc acc bs * 256 + b
unfolding from_big_endian_acc
from_big_endian_acc-append acc [] b = refl
from_big_endian_acc-append acc (x ∷ bs) b = from_big_endian_acc-append (acc * 256 + x) bs b

-- Reading back the bytes of a word gives the word.
pub from_big_endian-to_big_endian :
    (n x : ℕ) → x < 256 ^ n → from_big_endian (to_big_endian n x) ≡ x
unfolding from_big_endian to_big_endian
from_big_endian-to_big_endian zero x h = omega arith
from_big_endian-to_big_endian (suc n) x h =
    from_big_endian_acc-append 0 (to_big_endian n (x / 256)) (x % 256)
    ∙ omega (arith, from_big_endian-to_big_endian n (x / 256) (omega (arith, pow-suc 256 n)))

-- The bytes of a word of n bytes as they lie in the memory of a little-endian machine.
unfoldable pub to_little_endian : ℕ → ℕ → List ℕ
to_little_endian zero x = []
to_little_endian (suc n) x = (x % 256) ∷ to_little_endian n (x / 256)

pub length-to_little_endian : (n x : ℕ) → length (to_little_endian n x) ≡ n
unfolding to_little_endian
length-to_little_endian zero x = refl
length-to_little_endian (suc n) x = ap suc (length-to_little_endian n (x / 256))
