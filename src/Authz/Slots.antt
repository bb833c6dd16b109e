-- ===== src/Authz/Slots.antt =====
-- What v2_auth_challenges of apps/authz/src/repo.ts keeps for one target: a code that is pending, or
-- nothing.
use combo.Prelude.{
  ltb, leb, ◌==◌, if◌then◌else◌, All, ℕ, ◌+◌, ◌≡◌, Bool, true, false, not, Option, none, some, List,
  [], ◌∷◌,
}
use combo.Authz.Challenge.{Challenge, max_attempts, challenge_ttl_seconds, is_open}

pub record Pending : Type 0 where
  pub code : ℕ
  pub expires_at : ℕ
  pub tries : ℕ

abbrev pub Slot : Type 0
Slot = Option Pending

-- A new code takes the place of the one before.
unfoldable pub issue : (now code : ℕ) → Slot → Slot
issue now code s =
    some (record { code = code; expires_at = now + challenge_ttl_seconds; tries = 0 })

-- A guess at the pending code: the right one uses it up, the fifth wrong one too, and none counts when
-- the code has expired.
unfoldable pub guess : (now candidate : ℕ) → Slot → Bool × Slot
guess now candidate none = (false, none)
guess now candidate (some p) =
    if not (ltb now p.expires_at)
    then (false, some p)
    else if p.code == candidate
    then (true, none)
    else (
      false,
      if leb max_attempts (p.tries + 1) then none else some (record p { tries = p.tries + 1 }),
    )

abbrev pub pending_of : Challenge → Pending
pending_of c = record { code = c.code_digest; expires_at = c.expires_at; tries = c.attempt_count }

unfoldable pub slot : (target : ℕ) → List Challenge → Slot
slot target [] = none
slot target (c ∷ cs) = if is_open target c then some (pending_of c) else slot target cs

abbrev pub NoneOpen : ℕ → List Challenge → Type 0
NoneOpen target cs = All (λ c. is_open target c ≡ false) cs

abbrev pub IsFresh : ℕ → List Challenge → Type 0
IsFresh i cs = All (λ c. (c.id == i) ≡ false) cs

-- Ids are distinct, and no target has two open rows.
abbrev pub IsValid : List Challenge → Type 0
IsValid [] = Unit
IsValid (c ∷ cs) =
    IsFresh c.id cs × (is_open c.target_digest c ≡ true → NoneOpen c.target_digest cs) × IsValid cs
