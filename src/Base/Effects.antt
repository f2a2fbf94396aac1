-- ===== src/Base/Effects.antt =====
-- Computations of the C++ code that can stop: a failed Q_ASSERT, undefined behaviour, an
-- exception. `Ensures` says that a computation ends in a value with a property.
use mathlib.Core.Path.{◌≡◌, refl, sym, ap, subst}
use mathlib.Core.Bool.{Bool, true, false}

-- Q_ASSERT is checked in a debug build, and is nothing in a release build.
pub data Build : Type 0 where
  debug release : Build

-- `assertion`: Q_ASSERT stopped the program. `undefined`: an access outside an object, or memcpy
-- on overlapping ranges. `length_error`: std::vector or QByteArray cannot be that long.
-- `uncaught`: an exception that nothing catches.
pub data Fault : Type 0 where
  assertion undefined length_error uncaught : Fault

pub data Result {ℓ} (A : Type ℓ) : Type ℓ where
  err : Fault → Result A
  ok : A → Result A

-- The exception that a test guards against.
abbrev pub guard : Bool → Fault → Result (Unit {0})
guard false fault = err fault
guard true fault = ok tt

abbrev pub q_assert : Build → Bool → Result (Unit {0})
q_assert debug test = guard test assertion
q_assert release test = ok tt

-- A statement after another is not reached when that one stops.
infixl 5 ◌>>=◌
abbrev pub ◌>>=◌ {μ ν} : {V : Type μ} {R : Type ν} → Result V → (V → Result R) → Result R
err fault >>= next = err fault
ok value >>= next = next value

infixl 5 ◌>>◌
abbrev pub ◌>>◌ {ν} : {R : Type ν} → Result (Unit {0}) → Result R → Result R
call >> next = call >>= λ _. next

-- The computation returns a value that has the property.
pub data Ensures {ℓ κ} {A : Type ℓ} (P : A → Type κ) : Result A → Type (ℓ ⊔ κ) where
  done : (a : A) → P a → Ensures P (ok a)

pub Ensures-bind {ℓ κ μ ν} :
    {A : Type ℓ} {B : Type κ} (P : A → Type μ) (Q : B → Type ν) (m : Result A) (f : A → Result B)
    → Ensures P m
    → ((a : A) → P a → Ensures Q (f a))
    → Ensures Q (m >>= f)
Ensures-bind P Q m f (done a p) k = k a p

pub Ensures-weaken {ℓ κ μ} :
    {A : Type ℓ} {P : A → Type κ} {Q : A → Type μ} {m : Result A}
    → Ensures P m
    → ((a : A) → P a → Q a)
    → Ensures Q m
Ensures-weaken (done a p) k = done a (k a p)

pub Ensures-eq_ok {ℓ} : {A : Type ℓ} {v : A} {m : Result A} → Ensures (λ a. a ≡ v) m → m ≡ ok v
Ensures-eq_ok (done a p) = ap ok p

pub q_assert-true : (build : Build) (test : Bool) → test ≡ true → q_assert build test ≡ ok tt
q_assert-true debug test h = ap (λ b. guard b assertion) h
q_assert-true release test h = refl

pub Ensures-value {ℓ κ} :
    {A : Type ℓ} {P : A → Type κ} {m : Result A} → Ensures P m → (a : A) × (m ≡ ok a) × P a
Ensures-value (done a p) = (a, refl, p)

pub Ensures-of_eq {ℓ κ} :
    {A : Type ℓ} {P : A → Type κ} {m : Result A} (a : A) → m ≡ ok a → P a → Ensures P m
Ensures-of_eq {P = P} a e p = subst (Ensures P) (sym e) (done a p)

pub Ensures-ok {ℓ κ} : {A : Type ℓ} {P : A → Type κ} {a : A} → Ensures P (ok a) → P a
Ensures-ok (done a p) = p
