-- ===== src/Paste/DataObject/Counts.antt =====
-- The counted streams of the heap: what a call finds after a Release.
use small_program.Base.{
  ℕ, zero, suc, ◌+◌, ◌-◌, ◌%◌, ◌^◌, ◌<◌, ◌≡◌, refl, ap, ◌∙◌, [], ◌∷◌, ◌++◌, Option, none, some,
  false, ◌==◌, length, if◌then◌else◌, arith, ok, err, undefined,
}
use small_program.Paste.DataObject.{Counted, Heap, at, put, release}

pub at-put : (h : Heap) (p : ℕ) (c x : Counted) → at h p ≡ ok c → at (put h p (some x)) p ≡ ok x
unfolding at put
at-put [] p c x e = absurd (cc e)
at-put (none ∷ h) zero c x e = refl
at-put (some old ∷ h) zero c x e = refl
at-put (none ∷ h) (suc p) c x e = at-put h p c x e
at-put (some old ∷ h) (suc p) c x e = at-put h p c x e

pub at-deleted :
    (h : Heap) (p : ℕ) (c : Counted) → at h p ≡ ok c → at (put h p none) p ≡ err undefined
unfolding at put
at-deleted [] p c e = absurd (cc e)
at-deleted (none ∷ h) zero c e = refl
at-deleted (some old ∷ h) zero c e = refl
at-deleted (none ∷ h) (suc p) c e = at-deleted h p c e
at-deleted (some old ∷ h) (suc p) c e = at-deleted h p c e

pub at-append : (h : Heap) (c : Counted) → at (h ++ (some c ∷ [])) (length h) ≡ ok c
unfolding at
at-append [] c = refl
at-append (none ∷ h) c = at-append h c
at-append (some old ∷ h) c = at-append h c

-- A Release that leaves no reference, and one that leaves some.
pub release_last :
    (h : Heap) (p : ℕ) (c : Counted) → at h p ≡ ok c → c.count ≡ 1 → release h p ≡ ok (put h p none)
unfolding release
release_last h p c e one = rw (e) (ground (arith, one))

pub release_one :
    (h : Heap) (p : ℕ) (c : Counted)
    → at h p ≡ ok c
    → 1 < c.count
    → c.count < 2 ^ 32
    → release h p ≡ ok (put h p (some (record c { count = c.count - 1 })))
unfolding release
release_one h p c e more small = rw e (
    ap (λ n. ok (put h p (if n == 0 then none else some (record c { count = n })))) lowered
    ∙ rw more_left refl)
  where
    lowered : (c.count + 2 ^ 32 - 1) % 2 ^ 32 ≡ c.count - 1
    lowered = omega (arith, more, small)

    more_left : (c.count - 1 == 0) ≡ false
    more_left = ground (arith, more)

pub put-put : (h : Heap) (p : ℕ) (x y : Option Counted) → put (put h p x) p y ≡ put h p y
unfolding put
put-put [] p x y = refl
put-put (old ∷ h) zero x y = refl
put-put (old ∷ h) (suc p) x y = ap (◌∷◌ old) (put-put h p x y)
