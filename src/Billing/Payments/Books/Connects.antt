-- ===== src/Billing/Payments/Books/Connects.antt =====
-- The writes of apps/billing/src/payment-repo.ts keep the foreign keys between calls, payments and
-- funds.
use combo.Prelude.{
  ◌==◌, ==_refl, Bool-cases, Option-cases, All-map, ℕ, ◌≡◌, refl, sym, ap, subst, ◌⊎◌, inl, inr,
  ◌&&◌, Option, none, some, List, [], ◌∷◌, arith,
}
use combo.Prelude.Texts.{Text}
use combo.Billing.Types.{ok, Digests}
use combo.Billing.Rows.{insert_hold, insert_entry}
use combo.Billing.Payments.{Call, Payment, Funds, PaymentDb, find_call, complete}
use combo.Billing.Payments.Attempt.{insert_attempt}
use combo.Billing.Payments.Release.{is_available, give_back}
use combo.Billing.Payments.Admit.{
  set_call_hold, claim_funds, fund_hold, create_call_hold, with_billable, insert_call,
}
use combo.Billing.Payments.Books.Links.{
  AllPayments, AllFunds, IsFreshCall, IsKeyedCalls, IsConnected, find_call-IsFreshCall, IsLinked-∷,
  IsLinked-set_call_hold,
}

set_call_hold-IsFreshCall :
    (i j hold : ℕ) (cs : List Call) → IsFreshCall i cs → IsFreshCall i (set_call_hold j hold cs)
unfolding set_call_hold
set_call_hold-IsFreshCall i j hold [] h = tt
set_call_hold-IsFreshCall i j hold (c ∷ cs) (h, hs) = elim (Bool-cases (c.id == j)) [
  | inl e ↦ rw e (h, set_call_hold-IsFreshCall i j hold cs hs)
  | inr e ↦ rw e (h, set_call_hold-IsFreshCall i j hold cs hs)
]

set_call_hold-IsKeyedCalls :
    (j hold : ℕ) (cs : List Call) → IsKeyedCalls cs → IsKeyedCalls (set_call_hold j hold cs)
unfolding set_call_hold
set_call_hold-IsKeyedCalls j hold [] k = tt
set_call_hold-IsKeyedCalls j hold (c ∷ cs) (h, k) = elim (Bool-cases (c.id == j)) [
  | inl e ↦
      rw e (set_call_hold-IsFreshCall c.id j hold cs h, set_call_hold-IsKeyedCalls j hold cs k)
  | inr e ↦
      rw e (set_call_hold-IsFreshCall c.id j hold cs h, set_call_hold-IsKeyedCalls j hold cs k)
]

-- Writes that keep every row's call, user and amount.
claim_funds-AllFunds :
    (cs : List Call) (j : ℕ) (fs : List Funds) → AllFunds cs fs → AllFunds cs (claim_funds j fs)
unfolding claim_funds
claim_funds-AllFunds cs j [] all = tt
claim_funds-AllFunds cs j (f ∷ fs) (l, all) =
    elim (Bool-cases (f.payment_id == j && is_available f.state)) [
      | inl e ↦ rw e (l, claim_funds-AllFunds cs j fs all)
      | inr e ↦ rw e (l, claim_funds-AllFunds cs j fs all)
    ]

pub give_back-AllFunds :
    (cs : List Call) (j : ℕ) (fs : List Funds) → AllFunds cs fs → AllFunds cs (give_back j fs)
unfolding give_back
give_back-AllFunds cs j [] all = tt
give_back-AllFunds cs j (f ∷ fs) (l, all) = elim (Bool-cases (f.payment_id == j)) [
  | inl e ↦ rw e (l, all)
  | inr e ↦ rw e (l, give_back-AllFunds cs j fs all)
]

pub complete-AllPayments :
    (cs : List Call) (j : ℕ) (channel : Text) (ps : List Payment)
    → AllPayments cs ps
    → AllPayments cs (complete j channel ps)
unfolding complete
complete-AllPayments cs j channel [] all = tt
complete-AllPayments cs j channel (p ∷ ps) (l, all) = elim (Bool-cases (p.id == j)) [
  | inl e ↦ rw e (l, complete-AllPayments cs j channel ps all)
  | inr e ↦ rw e (l, complete-AllPayments cs j channel ps all)
]

-- Setting a call's hold.
pub linked-IsConnected :
    (j hold : ℕ) (db after : PaymentDb)
    → IsConnected db
    → after.calls ≡ set_call_hold j hold db.calls
    → after.payments ≡ db.payments
    → AllFunds db.calls after.funds
    → IsConnected after
linked-IsConnected j hold db after k calls payments funds = record {
  keyed = subst IsKeyedCalls (sym calls) (set_call_hold-IsKeyedCalls j hold db.calls k.keyed);
  payments_linked =
      subst (λ cs. AllPayments cs after.payments) (sym calls)
        (subst (AllPayments (set_call_hold j hold db.calls)) (sym payments) (
          All-map db.payments
            (λ p. IsLinked-set_call_hold j hold db.calls p.call_ref p.user_id p.amount)
            k.payments_linked));
  funds_linked =
      subst (λ cs. AllFunds cs after.funds) (sym calls)
        (All-map after.funds
          (λ f. IsLinked-set_call_hold j hold db.calls f.call_ref f.user_id f.amount) funds);
}

pub same_calls-IsConnected :
    (db after : PaymentDb)
    → IsConnected db
    → after.calls ≡ db.calls
    → AllPayments db.calls after.payments
    → AllFunds db.calls after.funds
    → IsConnected after
same_calls-IsConnected db after k calls payments funds = record {
  keyed = subst IsKeyedCalls (sym calls) k.keyed;
  payments_linked = subst (λ cs. AllPayments cs after.payments) (sym calls) payments;
  funds_linked = subst (λ cs. AllFunds cs after.funds) (sym calls) funds;
}

pub insert_call-IsConnected :
    (c d : Call) (db after : PaymentDb)
    → IsConnected db
    → insert_call c db ≡ ok (d, after)
    → IsConnected after
      × (d ≡ c)
      × (find_call c.id after.calls ≡ some c)
      × (after.funds ≡ db.funds)
      × (after.payments ≡ db.payments)
      × (after.billing ≡ with_billable c db.billing)
unfolding insert_call find_call
insert_call-IsConnected c d db after k h = elim (Option-cases (find_call c.id db.calls)) [
  | inr (old, taken) ↦ absurd (ground (arith, h, taken))
  | inl free ↦
      let is_call : d ≡ c = ground (arith, h, free) in
      let is_after : after
          ≡ record db { calls = c ∷ db.calls; billing = with_billable c db.billing } =
        ground (arith, h, free) in
      (
        subst IsConnected (sym is_after) (record {
          keyed = (find_call-IsFreshCall c.id db.calls free, k.keyed);
          payments_linked =
              All-map db.payments (λ p. IsLinked-∷ c db.calls p.call_ref p.user_id p.amount free)
                k.payments_linked;
          funds_linked =
              All-map db.funds (λ f. IsLinked-∷ c db.calls f.call_ref f.user_id f.amount free)
                k.funds_linked;
        }),
        is_call,
        subst (λ x. find_call c.id x.calls ≡ some c) (sym is_after) (rw (==_refl c.id) refl),
        ap (λ x. x.funds) is_after,
        ap (λ x. x.payments) is_after,
        ap (λ x. x.billing) is_after,
      )
]

create_call_hold_rows :
    (digests : Digests) (hold : ℕ) (c : Call) (reserved : Option ℕ) (n execution : ℕ)
    (db after : PaymentDb)
    → create_call_hold digests hold c reserved n execution db ≡ ok after
    → ((after.calls ≡ db.calls) ⊎ (after.calls ≡ set_call_hold c.id hold db.calls))
      × (after.payments ≡ db.payments)
      × ((after.funds ≡ db.funds) ⊎ ((p : ℕ) × (after.funds ≡ claim_funds p db.funds)))
unfolding create_call_hold fund_hold insert_hold insert_entry insert_attempt
create_call_hold_rows digests hold c none n execution db after h = elim (Option-cases c.hold_id) [
  | inl new ↦ (inr (ground (arith, h, new)), ground (arith, h), inl (ground (arith, h)))
  | inr (old, same) ↦ (inl (ground (arith, h, same)), ground (arith, h), inl (ground (arith, h)))
]
create_call_hold_rows digests hold c (some p) n execution db after h =
    elim (Option-cases c.hold_id) [
      | inl new ↦ (inr (ground (arith, h, new)), ground (arith, h), inr (p, ground (arith, h)))
      | inr (old, same) ↦
          (inl (ground (arith, h, same)), ground (arith, h), inr (p, ground (arith, h)))
    ]

pub create_call_hold-IsConnected :
    (digests : Digests) (hold : ℕ) (c : Call) (reserved : Option ℕ) (n execution : ℕ)
    (db after : PaymentDb)
    → IsConnected db
    → create_call_hold digests hold c reserved n execution db ≡ ok after
    → IsConnected after
create_call_hold-IsConnected digests hold c reserved n execution db after k h =
    let (calls, payments, funds) =
      create_call_hold_rows digests hold c reserved n execution db after h in
    let linked : AllFunds db.calls after.funds = elim funds [
      | inl same ↦ subst (AllFunds db.calls) (sym same) k.funds_linked
      | inr (p, e) ↦
          subst (AllFunds db.calls) (sym e)
            (claim_funds-AllFunds db.calls p db.funds k.funds_linked)
    ] in
    elim calls [
      | inl same ↦
          same_calls-IsConnected db after k same
            (subst (AllPayments db.calls) (sym payments) k.payments_linked) linked
      | inr set ↦ linked-IsConnected c.id hold db after k set payments linked
    ]
