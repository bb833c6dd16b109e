-- ===== src/Billing/Payments/Books/Claims.antt =====
-- `createHold` of apps/billing/src/payment-repo.ts: what a call's hold takes from the wallet or from the
-- funds of its payment.
use combo.Prelude.{
  ◌==◌, if◌then◌else◌, ==_refl, Bool-cases, All, ℕ, ◌+◌, ◌≡◌, refl, sym, ap, subst, inl, inr, true,
  false, ◌&&◌, none, some, List, [], ◌∷◌, arith,
}
use combo.Billing.Types.{ok, Wallet, Digests}
use combo.Billing.Rows.{insert_hold, insert_entry}
use combo.Billing.Books.{held_sum, ledger_sum}
use combo.Billing.Payments.{Call, Funds, PaymentDb}
use combo.Billing.Payments.Attempt.{insert_attempt}
use combo.Billing.Payments.Release.{is_available}
use combo.Billing.Payments.Admit.{claim_funds, freeze, fund_hold, create_call_hold, find_funds}
use combo.Billing.Payments.Books.{funds_sum, IsFreshFunds, IsKeyedFunds, IsFunded}

claim_funds-IsFreshFunds_same :
    (i : ℕ) (fs : List Funds) → IsFreshFunds i fs → claim_funds i fs ≡ fs
unfolding claim_funds
claim_funds-IsFreshFunds_same i [] h = refl
claim_funds-IsFreshFunds_same i (f ∷ fs) (h, hs) =
    rw (h, claim_funds-IsFreshFunds_same i fs hs) refl

claim_funds-IsFreshFunds :
    (i j : ℕ) (fs : List Funds) → IsFreshFunds i fs → IsFreshFunds i (claim_funds j fs)
unfolding claim_funds
claim_funds-IsFreshFunds i j [] h = tt
claim_funds-IsFreshFunds i j (f ∷ fs) (h, hs) =
    elim (Bool-cases (f.payment_id == j && is_available f.state)) [
      | inl e ↦ rw e (h, claim_funds-IsFreshFunds i j fs hs)
      | inr e ↦ rw e (h, claim_funds-IsFreshFunds i j fs hs)
    ]

claim_funds-IsKeyedFunds :
    (j : ℕ) (fs : List Funds) → IsKeyedFunds fs → IsKeyedFunds (claim_funds j fs)
unfolding claim_funds
claim_funds-IsKeyedFunds j [] k = tt
claim_funds-IsKeyedFunds j (f ∷ fs) (h, k) =
    elim (Bool-cases (f.payment_id == j && is_available f.state)) [
      | inl e ↦ rw e (claim_funds-IsFreshFunds f.payment_id j fs h, claim_funds-IsKeyedFunds j fs k)
      | inr e ↦ rw e (claim_funds-IsFreshFunds f.payment_id j fs h, claim_funds-IsKeyedFunds j fs k)
    ]

pub find_funds-All :
    (P : Funds → Type 0) (call : ℕ) (fs : List Funds) (f : Funds)
    → All P fs
    → find_funds call fs ≡ some f
    → P f × (f.call_ref ≡ call)
unfolding find_funds
find_funds-All P call [] f all e = absurd (ground (arith, e))
find_funds-All P call (g ∷ gs) f (p, all) e = elim (Bool-cases (g.call_ref == call)) [
  | inl h ↦
      let same : g ≡ f = ground (arith, e, h) in
      (subst P same p, subst (λ x. x.call_ref ≡ call) same (ground arith))
  | inr h ↦ find_funds-All P call gs f all (ground (arith, e, h))
]

-- Claiming the funds of a call takes their amount off the sum of their user.
funds_sum-claim_funds :
    (u call : ℕ) (fs : List Funds) (f : Funds)
    → IsKeyedFunds fs
    → find_funds call fs ≡ some f
    → is_available f.state ≡ true
    → funds_sum u (claim_funds f.payment_id fs) + (if f.user_id == u then f.amount else 0)
      ≡ funds_sum u fs
unfolding funds_sum claim_funds find_funds
funds_sum-claim_funds u call [] f k e here = absurd (ground (arith, e))
funds_sum-claim_funds u call (g ∷ gs) f (fresh, k) e here = elim (Bool-cases (g.call_ref == call)) [
  | inl h ↦
      let same : g ≡ f = ground (arith, e, h) in
      let state = subst (λ x. is_available x.state ≡ true) (sym same) here in
      subst
        (λ x.
          funds_sum u (claim_funds x.payment_id (g ∷ gs)) + (if x.user_id == u then x.amount else 0)
          ≡ funds_sum u (g ∷ gs))
        same
        (ground (
          arith,
          ==_refl g.payment_id,
          state,
          ap (funds_sum u) (claim_funds-IsFreshFunds_same g.payment_id gs fresh),
        ))
  | inr h ↦
      let later : find_funds call gs ≡ some f = ground (arith, e, h) in
      let other : (g.payment_id == f.payment_id) ≡ false = ground (
        arith,
        (find_funds-All (λ x. (x.payment_id == g.payment_id) ≡ false) call gs f fresh later).0,
      ) in
      ground (arith, other, funds_sum-claim_funds u call gs f k later here)
]

-- A hold from the wallet.
pub create_call_hold-IsFunded :
    (digests : Digests) (hold : ℕ) (c : Call) (n execution : ℕ) (w : Wallet) (db after : PaymentDb)
    → IsFunded db
    → db.billing.wallets c.user_id ≡ some w
    → create_call_hold digests hold c none n execution db ≡ ok after
    → IsFunded after
unfolding create_call_hold insert_hold fund_hold freeze insert_entry insert_attempt held_sum
    ledger_sum
create_call_hold-IsFunded digests hold c n execution w db after b here h = record {
  backs_held = λ v. ground (arith, b.backs_held v);
  backs_principal = λ v. ground (arith, b.backs_principal v);
  backs_bonus = λ v. ground (arith, b.backs_bonus v);
  is_keyed = ground (arith, b.is_keyed);
}

-- A hold from the funds of the call's payment.
pub create_call_hold-IsFunded_claimed :
    (digests : Digests) (hold : ℕ) (c : Call) (n execution : ℕ) (f : Funds) (db after : PaymentDb)
    → IsFunded db
    → find_funds c.id db.funds ≡ some f
    → is_available f.state ≡ true
    → c.user_id ≡ f.user_id
    → c.estimated_amount ≡ f.amount
    → create_call_hold digests hold c (some f.payment_id) n execution db ≡ ok after
    → IsFunded after
unfolding create_call_hold insert_hold fund_hold insert_entry insert_attempt held_sum ledger_sum
create_call_hold-IsFunded_claimed digests hold c n execution f db after b e here user amount h =
    record {
      backs_held = λ v.
          ground (arith, b.backs_held v, funds_sum-claim_funds v c.id db.funds f b.is_keyed e here);
      backs_principal = λ v. ground (arith, b.backs_principal v);
      backs_bonus = λ v. ground (arith, b.backs_bonus v);
      is_keyed = ground (arith, claim_funds-IsKeyedFunds f.payment_id db.funds b.is_keyed);
    }
