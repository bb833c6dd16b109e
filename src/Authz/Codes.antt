-- ===== src/Authz/Codes.antt =====
-- `replaceChallenge` and `consumeChallenge` of apps/authz/src/repo.ts keep one slot for each target.
use combo.Prelude.{
  ◌==◌, ==_refl, Bool-cases, ℕ, ◌≡◌, refl, ◌≢◌, inl, inr, true, false, List, [], ◌∷◌, arith,
}
use combo.Prelude.Outcomes.{ok}
use combo.Authz.Challenge.{
  Challenge, is_open, invalidate, has_id, has_open, insert_challenge, new_challenge,
  replace_challenge,
}
use combo.Authz.Slots.{issue, slot, NoneOpen, IsFresh, IsValid}

pub is_open_target : (t : ℕ) (c : Challenge) → is_open t c ≡ true → c.target_digest ≡ t
unfolding is_open
is_open_target t c h = ground arith

is_open_own : (t : ℕ) (c : Challenge) → is_open t c ≡ true → is_open c.target_digest c ≡ true
unfolding is_open
is_open_own t c h = ground (arith, ==_refl c.target_digest)

invalidate-NoneOpen : (now t : ℕ) (cs : List Challenge) → NoneOpen t (invalidate now t cs)
unfolding invalidate is_open
invalidate-NoneOpen now t [] = tt
invalidate-NoneOpen now t (c ∷ cs) = elim (Bool-cases (is_open t c)) [
  | inl h ↦ rw h (ground arith, invalidate-NoneOpen now t cs)
  | inr h ↦ rw h (h, invalidate-NoneOpen now t cs)
]

invalidate-NoneOpen_other :
    (now t u : ℕ) (cs : List Challenge) → NoneOpen u cs → NoneOpen u (invalidate now t cs)
unfolding invalidate is_open
invalidate-NoneOpen_other now t u [] n = tt
invalidate-NoneOpen_other now t u (c ∷ cs) (n, ns) = elim (Bool-cases (is_open t c)) [
  | inl h ↦ rw h (ground arith, invalidate-NoneOpen_other now t u cs ns)
  | inr h ↦ rw h (n, invalidate-NoneOpen_other now t u cs ns)
]

invalidate-IsFresh :
    (now t i : ℕ) (cs : List Challenge) → IsFresh i cs → IsFresh i (invalidate now t cs)
unfolding invalidate
invalidate-IsFresh now t i [] f = tt
invalidate-IsFresh now t i (c ∷ cs) (f, fs) = elim (Bool-cases (is_open t c)) [
  | inl h ↦ rw h (f, invalidate-IsFresh now t i cs fs)
  | inr h ↦ rw h (f, invalidate-IsFresh now t i cs fs)
]

invalidate-IsValid : (now t : ℕ) (cs : List Challenge) → IsValid cs → IsValid (invalidate now t cs)
unfolding invalidate is_open
invalidate-IsValid now t [] v = tt
invalidate-IsValid now t (c ∷ cs) (f, o, v) = elim (Bool-cases (is_open t c)) [
  | inl h ↦ rw h (
    invalidate-IsFresh now t c.id cs f,
    λ pending. absurd (ground (arith, pending)),
    invalidate-IsValid now t cs v,
  )
  | inr h ↦ rw h (
    invalidate-IsFresh now t c.id cs f,
    λ pending. invalidate-NoneOpen_other now t c.target_digest cs (o pending),
    invalidate-IsValid now t cs v,
  )
]

slot-invalidate_other :
    (now t u : ℕ) (cs : List Challenge) → t ≢ u → slot u (invalidate now t cs) ≡ slot u cs
unfolding invalidate slot is_open
slot-invalidate_other now t u [] n = refl
slot-invalidate_other now t u (c ∷ cs) n = elim (Bool-cases (is_open t c)) [
  | inl h ↦ ground (arith, slot-invalidate_other now t u cs n)
  | inr h ↦ rw (h, slot-invalidate_other now t u cs n) refl
]

NoneOpen-has_open : (t : ℕ) (cs : List Challenge) → NoneOpen t cs → has_open t cs ≡ false
unfolding has_open
NoneOpen-has_open t [] n = refl
NoneOpen-has_open t (c ∷ cs) (n, ns) = rw (n, NoneOpen-has_open t cs ns) refl

IsFresh-has_id : (i : ℕ) (cs : List Challenge) → IsFresh i cs → has_id i cs ≡ false
unfolding has_id
IsFresh-has_id i [] f = refl
IsFresh-has_id i (c ∷ cs) (f, fs) = rw (f, IsFresh-has_id i cs fs) refl

new_challenge-is_open : (i now t code : ℕ) → is_open t (new_challenge i now t code) ≡ true
unfolding is_open
new_challenge-is_open i now t code = rw (==_refl t) refl

new_challenge-is_open_other :
    (i now t code u : ℕ) → t ≢ u → is_open u (new_challenge i now t code) ≡ false
unfolding is_open
new_challenge-is_open_other i now t code u n = ground arith

-- Replacing a code with a row of a new id never violates a unique index, keeps the table valid, and
-- is `issue` for its target and nothing for any other; no other id
-- is taken.
pub replace_challenge-slot :
    (i now t code : ℕ) (cs : List Challenge)
    → IsValid cs
    → IsFresh i cs
    → (after : List Challenge) × (replace_challenge i now t code cs ≡ ok after)
      × IsValid after
      × (slot t after ≡ issue now code (slot t cs))
      × ((u : ℕ) → t ≢ u → slot u after ≡ slot u cs)
      × ((j : ℕ) → (i == j) ≡ false → IsFresh j cs → IsFresh j after)
unfolding replace_challenge insert_challenge issue slot
replace_challenge-slot i now t code cs v f =
    let old = invalidate now t cs in
    let fresh = invalidate-IsFresh now t i cs f in
    let closed = invalidate-NoneOpen now t cs in
    let pending = new_challenge-is_open i now t code in
    (
      new_challenge i now t code ∷ old,
      rw (IsFresh-has_id i old fresh, NoneOpen-has_open t old closed, pending) refl,
      (fresh, λ _. closed, invalidate-IsValid now t cs v),
      rw pending refl,
      λ u n.
          rw (new_challenge-is_open_other i now t code u n, slot-invalidate_other now t u cs n)
            refl,
      λ j n g. (n, invalidate-IsFresh now t j cs g),
    )
