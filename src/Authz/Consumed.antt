-- ===== src/Authz/Consumed.antt =====
-- How many one-time codes of apps/authz/src/repo.ts have been used up.
use combo.Prelude.{
  ltb, ◌==◌, if◌then◌else◌, ==_refl, Bool-cases, Option-cases, ℕ, suc, ◌+◌, ◌≤◌, ◌≡◌, refl, sym, ap,
  ◌∙◌, subst, inl, inr, true, ◌&&◌, ◌||◌, some, List, [], ◌∷◌, arith,
}
use combo.Prelude.Outcomes.{ok}
use combo.Authz.Challenge.{
  Challenge, is_null, is_open, invalidate, has_id, has_open, insert_challenge, new_challenge,
  replace_challenge, find_open, update_challenge, mark_consumed, missed, consume_found,
  consume_challenge,
}

-- The rows with a `consumed_at`.
unfoldable pub consumed_count : List Challenge → ℕ
consumed_count [] = 0
consumed_count (c ∷ cs) = (if is_null c.consumed_at then 0 else 1) + consumed_count cs

invalidate-consumed_count :
    (now t : ℕ) (cs : List Challenge) → consumed_count (invalidate now t cs) ≡ consumed_count cs
unfolding consumed_count invalidate
invalidate-consumed_count now t [] = refl
invalidate-consumed_count now t (c ∷ cs) = elim (Bool-cases (is_open t c)) [
  | inl h ↦ rw (h, invalidate-consumed_count now t cs) refl
  | inr h ↦ rw (h, invalidate-consumed_count now t cs) refl
]

pub replace_challenge-consumed_count :
    (i now t code : ℕ) (cs after : List Challenge)
    → replace_challenge i now t code cs ≡ ok after
    → consumed_count after ≡ consumed_count cs
unfolding replace_challenge insert_challenge consumed_count
replace_challenge-consumed_count i now t code cs after e =
    let row = new_challenge i now t code in
    let old = invalidate now t cs in
    elim (Bool-cases
      (has_id row.id old || (is_open row.target_digest row && has_open row.target_digest old))) [
        | inl h ↦ absurd (ground (arith, e, h))
        | inr h ↦
            let same : row ∷ old ≡ after = ground (arith, e, h) in
            let count : consumed_count (row ∷ old) ≡ consumed_count cs =
              ground (arith, invalidate-consumed_count now t cs) in
            ap consumed_count (sym same) ∙ count
      ]

missed-consumed_count :
    (i now : ℕ) (cs : List Challenge)
    → consumed_count (update_challenge i (missed now) cs) ≡ consumed_count cs
unfolding consumed_count update_challenge missed
missed-consumed_count i now [] = refl
missed-consumed_count i now (c ∷ cs) = elim (Bool-cases (c.id == i)) [
  | inl h ↦ rw (h, missed-consumed_count i now cs) refl
  | inr h ↦ rw (h, missed-consumed_count i now cs) refl
]

mark_consumed-consumed_count :
    (i now : ℕ) (cs : List Challenge)
    → consumed_count cs ≤ consumed_count (update_challenge i (mark_consumed now) cs)
unfolding consumed_count update_challenge mark_consumed
mark_consumed-consumed_count i now [] = omega arith
mark_consumed-consumed_count i now (c ∷ cs) = ground (arith, mark_consumed-consumed_count i now cs)

-- The row that is found is open.
found-consumed_count :
    (now t : ℕ) (c : Challenge) (cs : List Challenge)
    → find_open now t cs ≡ some c
    → suc (consumed_count cs) ≤ consumed_count (update_challenge c.id (mark_consumed now) cs)
unfolding consumed_count update_challenge mark_consumed find_open is_open
found-consumed_count now t c [] e = absurd (ground (arith, e))
found-consumed_count now t c (d ∷ cs) e = elim (Bool-cases (is_open t d && ltb now d.expires_at)) [
  | inl h ↦
      let same : d ≡ c = ground (arith, e) in
      let here : (d.id == c.id) ≡ true = subst (λ x. (d.id == x.id) ≡ true) same (==_refl d.id) in
      let null : is_null d.consumed_at ≡ true = ground arith in
      rw (here, null) (ground (arith, mark_consumed-consumed_count c.id now cs))
  | inr h ↦
      let later : find_open now t cs ≡ some c = ground (arith, e, h) in
      ground (arith, found-consumed_count now t c cs later)
]

-- A guess that is accepted uses one more code up, and no guess takes one back.
pub consume_challenge-consumed_count :
    (now t candidate : ℕ) (cs : List Challenge)
    → (consumed_count cs ≤ consumed_count (consume_challenge now t candidate cs).1)
      × (((consume_challenge now t candidate cs).0 ≡ true)
          → suc (consumed_count cs) ≤ consumed_count (consume_challenge now t candidate cs).1)
unfolding consume_challenge consume_found
consume_challenge-consumed_count now t candidate cs = elim (Option-cases (find_open now t cs)) [
  | inl e ↦ rw e (omega arith, λ q. absurd (ground arith))
  | inr (c, e) ↦
      let more = found-consumed_count now t c cs e in
      elim (Bool-cases (c.code_digest == candidate)) [
        | inl m ↦ rw (e, m) (omega arith, λ _. more)
        | inr m ↦
            rw (e, m)
              (ground (arith, missed-consumed_count c.id now cs), λ q. absurd (ground (arith, q)))
      ]
]
