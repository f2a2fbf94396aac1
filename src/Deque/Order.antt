-- ===== src/Deque/Order.antt =====
-- The queue is first in, first out, and bounded.
use small_program.Base.{
  ◌≤◌, ◌<◌, ◌≡◌, refl, sym, ap, ◌∙◌, List, [], ◌∷◌, ◌++◌, Option, none, some, Bool, true, false,
  length, length-append, append_assoc, arith, Bool-cases, inl, inr, if◌then◌else◌, subst,
}
use small_program.Deque.{ℤ, pos, negsuc, KDeque, waits, push_back, take_front, pop_front}

-- What the threads call: a push, which is tried again later where it waits, or a pop.
pub data Call {ℓ} (A : Type ℓ) : Type ℓ where
  pushes : A → Call A
  pops : Call A

-- The items that were handed in, the ones that were handed out, and the queue.
pub record Traffic {ℓ} (A : Type ℓ) : Type ℓ where
  pub handed_in : List A
  pub handed_out : List A
  pub queue : KDeque A

abbrev pub put {ℓ} : {A : Type ℓ} → Traffic A → A → Option (KDeque A) → Traffic A
put t x none = t
put t x (some d) = record t { handed_in = t.handed_in ++ (x ∷ []); queue = d }

abbrev pub got {ℓ} : {A : Type ℓ} → Traffic A → Option A → KDeque A → Traffic A
got t none d = record t { queue = d }
got t (some x) d = record t { handed_out = t.handed_out ++ (x ∷ []); queue = d }

-- The calls, one after the other.
abbrev pub calls {ℓ} : {A : Type ℓ} → Traffic A → List (Call A) → Traffic A
calls t [] = t
calls t (pushes x ∷ cs) = calls (put t x (push_back t.queue x)) cs
calls t (pops ∷ cs) = calls (got t (pop_front t.queue).0 (pop_front t.queue).1) cs

-- A bound that is positive holds.
abbrev pub Bounded {ℓ} : {A : Type ℓ} → ℤ → List A → Type 0
Bounded (pos n) items = 0 < n → length items ≤ n
Bounded (negsuc n) items = Unit {0}

-- What was handed out, and then what is queued, is what was handed in.
abbrev pub InOrder {ℓ} : {A : Type ℓ} → Traffic A → Type ℓ
InOrder t =
    (t.handed_out ++ t.queue.items ≡ t.handed_in) × Bounded t.queue.max_capacity t.queue.items

module _ {ℓ} {A : Type ℓ} where
  pushed-Bounded :
      (capacity : ℤ) (items : List A) (x : A)
      → waits capacity items ≡ false
      → Bounded capacity (items ++ (x ∷ []))
  unfolding waits
  pushed-Bounded (pos n) items x room = λ h. ground (arith, room, h, length-append items (x ∷ []))
  pushed-Bounded (negsuc n) items x room = tt

  put-InOrder : (t : Traffic A) (x : A) → InOrder t → InOrder (put t x (push_back t.queue x))
  unfolding push_back
  put-InOrder t x h = elim (Bool-cases (waits t.queue.max_capacity t.queue.items)) [
    | inl full ↦ rw full h
    | inr room ↦
        subst
          (λ b. InOrder (
            put t x
              (if b then none else some (record t.queue { items = t.queue.items ++ (x ∷ []) }))))
          (sym room)
          (
            sym (append_assoc t.handed_out t.queue.items (x ∷ []))
                ∙ ap (λ front. front ++ (x ∷ [])) h.0,
            pushed-Bounded t.queue.max_capacity t.queue.items x room,
          )
  ]

  popped-Bounded :
      (capacity : ℤ) (x : A) (xs : List A) → Bounded capacity (x ∷ xs) → Bounded capacity xs
  popped-Bounded (pos n) x xs h = λ some_room. omega (arith, h some_room)
  popped-Bounded (negsuc n) x xs h = tt

  taken-InOrder :
      (t : Traffic A) (running : Bool) (items : List A)
      → t.queue.items ≡ items
      → InOrder t
      → InOrder (got t (take_front t.queue running items).0 (take_front t.queue running items).1)
  unfolding take_front
  taken-InOrder t false items e h = h
  taken-InOrder t true [] e h = h
  taken-InOrder t true (x ∷ xs) e h = (
    append_assoc t.handed_out (x ∷ []) xs ∙ ap (◌++◌ t.handed_out) (sym e) ∙ h.0,
    popped-Bounded t.queue.max_capacity x xs (subst (Bounded t.queue.max_capacity) e h.1),
  )

  got-InOrder :
      (t : Traffic A) → InOrder t → InOrder (got t (pop_front t.queue).0 (pop_front t.queue).1)
  unfolding pop_front
  got-InOrder t h = taken-InOrder t t.queue.running t.queue.items refl h

  -- After any calls of push_back and pop_front, where a push that waits for room changes nothing
  -- and a pop may find the queue stopped or empty, the items that were handed out followed by
  -- the ones in the queue are the items that were handed in, in order, and a queue with a
  -- positive capacity has at most so many items; the condition is that this holds at the start.
  pub calls-InOrder : (t : Traffic A) (cs : List (Call A)) → InOrder t → InOrder (calls t cs)
  calls-InOrder t [] h = h
  calls-InOrder t (pushes x ∷ cs) h =
      calls-InOrder (put t x (push_back t.queue x)) cs (put-InOrder t x h)
  calls-InOrder t (pops ∷ cs) h =
      calls-InOrder (got t (pop_front t.queue).0 (pop_front t.queue).1) cs (got-InOrder t h)
