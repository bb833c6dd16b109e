-- ===== src/Prelude/Outcomes.antt =====
-- A computation that answers or throws, for the code's exceptions.
use mathlib.Core.Path.{◌≡◌, refl}
use mathlib.Core.Bool.{Bool, true, false}
use mathlib.Core.Logic.{◌⊎◌, inl, inr}

-- The answer type may be any; what is thrown is one of the component's faults.
pub data Outcome {ℓ} (E : Type 0) (A : Type ℓ) : Type ℓ where
  err : E → Outcome E A
  ok : A → Outcome E A

module _ {E : Type 0} where
  infixl 5 ◌>>=◌ ◌>>◌
  -- `abbrev`, for a chain that answers to compute wherever it stands.
  abbrev pub ◌>>=◌ {ℓ κ} : {A : Type ℓ} {B : Type κ} → Outcome E A → (A → Outcome E B) → Outcome E B
  err fault >>= next = err fault
  ok answer >>= next = next answer

  abbrev pub ◌>>◌ {ℓ} : {B : Type ℓ} → Outcome E (Unit {0}) → Outcome E B → Outcome E B
  first >> second = first >>= λ _. second

  -- An assertion: `if (!test) throw fault`.
  abbrev pub require : Bool → E → Outcome E (Unit {0})
  require holds fault = elim holds [ true ↦ ok tt | false ↦ err fault ]

  -- A chain that answers did so in each of its two parts.
  pub >>=-eq-ok {ℓ κ} :
      {A : Type ℓ} {B : Type κ} (first : Outcome E A) (next : A → Outcome E B) {answer : B}
      → (first >>= next) ≡ ok answer
      → (middle : A) × (first ≡ ok middle) × (next middle ≡ ok answer)
  >>=-eq-ok (err fault) next e = absurd cc
  >>=-eq-ok (ok middle) next e = (middle, refl, e)

  pub Outcome-cases {ℓ} :
      {A : Type ℓ} (x : Outcome E A) → ((fault : E) × (x ≡ err fault)) ⊎ ((a : A) × (x ≡ ok a))
  Outcome-cases (err fault) = inl (fault, refl)
  Outcome-cases (ok a) = inr (a, refl)
