-- ===== src/Billing/Books/Holds.antt =====
-- How the writes of apps/billing/src/repo.ts move the sums over v2_holds.
use combo.Prelude.{
  ◌==◌, if◌then◌else◌, ==_refl, Bool-cases, All, ℕ, ◌+◌, ◌≡◌, inl, inr, true, false, Option, none,
  some, List, [], ◌∷◌, arith,
}
use combo.Billing.Types.{Status, Hold, ok}
use combo.Billing.Rows.{to_hold, is_held, find_hold, set_hold}
use combo.Billing.Books.{held_sum, IsFresh, IsKeyed}

-- A held row that changes its status leaves the sum of its user.
pub held_sum-set_hold :
    (u i : ℕ) (st : Status) (actual : Option ℕ) (hs : List Hold) (h : Hold)
    → find_hold i hs ≡ some h
    → is_held h.status ≡ true
    → is_held st ≡ false
    → held_sum u (set_hold i st actual hs) + (if h.user_id == u then h.estimated_amount else 0)
      ≡ held_sum u hs
unfolding held_sum set_hold find_hold
held_sum-set_hold u i st actual [] h f k n = cc
held_sum-set_hold u i st actual (g ∷ gs) h f k n = elim (Bool-cases (g.id == i)) [
  | inl e ↦ ground arith
  | inr e ↦ ground (arith, held_sum-set_hold u i st actual gs h)
]

pub find_hold-IsFresh : (i : ℕ) (hs : List Hold) → find_hold i hs ≡ none → IsFresh i hs
unfolding find_hold
find_hold-IsFresh i [] f = tt
find_hold-IsFresh i (h ∷ hs) f = (ground arith, find_hold-IsFresh i hs (ground arith))

IsFresh-set_hold :
    (j i : ℕ) (st : Status) (actual : Option ℕ) (hs : List Hold)
    → IsFresh j hs
    → IsFresh j (set_hold i st actual hs)
unfolding set_hold
IsFresh-set_hold j i st actual [] f = tt
IsFresh-set_hold j i st actual (h ∷ hs) f = elim (Bool-cases (h.id == i)) [
  | inl e ↦ rw e (f.0, f.1)
  | inr e ↦ rw e (f.0, IsFresh-set_hold j i st actual hs f.1)
]

pub IsKeyed-set_hold :
    (i : ℕ) (st : Status) (actual : Option ℕ) (hs : List Hold)
    → IsKeyed hs
    → IsKeyed (set_hold i st actual hs)
unfolding set_hold
IsKeyed-set_hold i st actual [] k = tt
IsKeyed-set_hold i st actual (h ∷ hs) k = elim (Bool-cases (h.id == i)) [
  | inl e ↦ rw e (k.0, k.1)
  | inr e ↦ rw e (IsFresh-set_hold h.id i st actual hs k.0, IsKeyed-set_hold i st actual hs k.1)
]

pub find_hold-id : (i : ℕ) (hs : List Hold) (h : Hold) → find_hold i hs ≡ some h → h.id ≡ i
unfolding find_hold
find_hold-id i [] h f = cc
find_hold-id i (g ∷ gs) h f = elim (Bool-cases (g.id == i)) [
  | inl e ↦ ground arith
  | inr e ↦ find_hold-id i gs h (ground arith)
]

pub to_hold_same : (h g : Hold) → to_hold h ≡ ok g → g ≡ h
unfolding to_hold
to_hold_same h g e = ground arith

-- Every row is found under its own id.
pub find_hold-IsKeyed : (hs : List Hold) → IsKeyed hs → All (λ h. find_hold h.id hs ≡ some h) hs
unfolding find_hold
find_hold-IsKeyed [] k = tt
find_hold-IsKeyed (h ∷ hs) k =
    (ground (arith, ==_refl h.id), later hs k.0 (find_hold-IsKeyed hs k.1))
  where
    later :
        (gs : List Hold)
        → IsFresh h.id gs
        → All (λ g. find_hold g.id hs ≡ some g) gs
        → All (λ g. find_hold g.id (h ∷ hs) ≡ some g) gs
    later [] f a = tt
    later (g ∷ gs) f a = (ground (arith, f.0, a.0), later gs f.1 a.1)
