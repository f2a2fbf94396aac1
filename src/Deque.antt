-- ===== src/Deque.antt =====
-- http_multi_download/common/kdeque.hpp: the queue of the thread pool. A method's lock makes it one
-- step.
pub mod Order
use small_program.Base.{
  ℕ, suc, ◌+◌, List, [], ◌∷◌, ◌++◌, Option, none, some, Bool, true, false, ltb, leb, ◌&&◌, length,
  if◌then◌else◌, Result, ok, err, undefined,
}

-- An int: a number that is not negative, or `negsuc n` for -(n + 1).
pub data ℤ : Type 0 where
  pos negsuc : ℕ → ℤ

pub record KDeque {ℓ} (A : Type ℓ) : Type ℓ where
  pub items : List A
  pub max_capacity : ℤ
  pub running : Bool

unfoldable pub create {ℓ} : {A : Type ℓ} → ℤ → Bool → KDeque A
create max_capacity running = record { items = []; max_capacity = max_capacity; running = running }

unfoldable pub size {ℓ} : {A : Type ℓ} → KDeque A → ℕ
size d = length d.items

-- hasCapacity, with the test of push_back's loop: whether a push waits.
unfoldable pub waits {ℓ} : {A : Type ℓ} → ℤ → List A → Bool
waits (pos n) items = ltb 0 n && leb n (length items)
waits (negsuc n) items = false

-- `none` waits for room.
unfoldable pub push_back {ℓ} : {A : Type ℓ} → KDeque A → A → Option (KDeque A)
unfolding waits
push_back d item =
    if waits d.max_capacity d.items
    then none
    else some (record d { items = d.items ++ (item ∷ []) })

unfoldable pub take_front {ℓ} : {A : Type ℓ} → KDeque A → Bool → List A → Option A × KDeque A
take_front d false items = (none, d)
take_front d true [] = (none, d)
take_front d true (x ∷ xs) = (some x, record d { items = xs })

-- `none` is NULL.
unfoldable pub pop_front {ℓ} : {A : Type ℓ} → KDeque A → Option A × KDeque A
unfolding take_front
pop_front d = take_front d d.running d.items

-- pop_back reads the place behind the last item.
unfoldable pub take_back {ℓ} :
    {A : Type ℓ} → KDeque A → Bool → List A → Result (Option A × KDeque A)
take_back d false items = ok (none, d)
take_back d true [] = ok (none, d)
take_back d true (x ∷ xs) = err undefined

unfoldable pub pop_back {ℓ} : {A : Type ℓ} → KDeque A → Result (Option A × KDeque A)
unfolding take_back
pop_back d = take_back d d.running d.items

abbrev pub is_nil {ℓ} : {A : Type ℓ} → List A → Bool
is_nil [] = true
is_nil (x ∷ xs) = false

unfoldable pub empty {ℓ} : {A : Type ℓ} → KDeque A → Bool
empty d = is_nil d.items

-- set_stop and set_start, with their default arguments.
unfoldable pub set_stop {ℓ} : {A : Type ℓ} → KDeque A → KDeque A
set_stop d = record d { running = false }

unfoldable pub set_start {ℓ} : {A : Type ℓ} → KDeque A → KDeque A
set_start d = record d { running = true }
