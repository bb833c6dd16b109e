-- ===== src/Billing/Payments/Found.antt =====
-- `createPayment` and `findPayment` of apps/billing/src/payment-repo.ts.
use combo.Billing.Types.{Digests}
use combo.Prelude.{
  leb, ◌==◌, ==_refl, Bool-cases, Option-cases, ℕ, ◌≡◌, refl, sym, ap, ◌∙◌, subst, inl, inr, Bool,
  true, false, not, ◌&&◌, Option, none, some, List, [], ◌∷◌, arith,
}
use combo.Billing.Payments.{waiting, Payment, RequestKey, PaymentDb}
use combo.Billing.Payments.Create.{
  CreateInput, payment_created, find_token, find_key, is_required, await_payment, is_other_payment,
  start_payment, create_found, create_by_token, create_payment, find_shown, find_request,
}

-- A row that the token does not name.
find_token-later :
    (u t : ℕ) (x : Payment) (ps : List Payment) (p : Payment)
    → find_token u t (x ∷ ps) ≡ some p
    → (x ≡ p → (x.user_id == u) ≡ true → false ≡ true)
    → find_token u t ps ≡ some p
unfolding find_token
find_token-later u t x ps p e other = elim (Bool-cases (x.user_id == u && x.token_digest == t)) [
  | inl h ↦ absurd (ground (arith, other (ground (arith, e, h)) (ground (arith, h))))
  | inr h ↦ ground (arith, e, h)
]

find_shown-await_payment :
    (u t i : ℕ) (ps : List Payment) (p : Payment)
    → find_token u t ps ≡ some p
    → p.id ≡ i
    → (q : Payment) × (find_shown u i (await_payment i ps) ≡ some q) × (q.id ≡ i)
unfolding find_token find_shown await_payment
find_shown-await_payment u t i [] p e same = absurd (ground (arith, e))
find_shown-await_payment u t i (x ∷ ps) p e same = elim (Bool-cases (x.user_id == u && x.id == i)) [
  | inl h ↦ (record x { state = waiting }, ground (arith, h), ground (arith, h))
  | inr h ↦
      let later =
        find_token-later u t x ps p e
          (λ is_p user. ground (arith, h, same, ap (λ y. y.id) is_p, user)) in
      let (q, found, id) = find_shown-await_payment u t i ps p later same in
      (q, ground (arith, h, found), id)
]

find_shown-find_token :
    (u t i : ℕ) (ps : List Payment) (p : Payment)
    → find_token u t ps ≡ some p
    → p.id ≡ i
    → is_required p.state ≡ false
    → (q : Payment) × (find_shown u i ps ≡ some q) × (q.id ≡ i)
unfolding find_token find_shown
find_shown-find_token u t i [] p e same old = absurd (ground (arith, e))
find_shown-find_token u t i (x ∷ ps) p e same old =
    elim (Bool-cases (x.user_id == u && x.id == i && not (is_required x.state))) [
      | inl h ↦ (x, ground (arith, h), ground (arith, h))
      | inr h ↦
          let later = find_token-later u t x ps p e (λ is_p user.
            ground (
              arith,
              h,
              same,
              old,
              ap (λ y. y.id) is_p,
              ap (λ y. is_required y.state) is_p,
              user,
            )) in
          let (q, found, id) = find_shown-find_token u t i ps p later same old in
          (q, ground (arith, h, found), id)
    ]

-- The key is kept, and the payment of the key is no longer `required`.
start_payment-find_request :
    (input : CreateInput) (t : ℕ) (p : Payment) (old : Option RequestKey) (db : PaymentDb)
    → find_token input.user_id t db.payments ≡ some p
    → find_key input.user_id input.request_key db.request_keys ≡ old
    → is_other_payment p old ≡ false
    → (q : Payment) × (find_request input.user_id input.request_key (start_payment input p old db).1
        ≡ some q)
      × (q.id ≡ p.id)
unfolding start_payment find_request find_key
start_payment-find_request input t p none db e key same = elim (Bool-cases (is_required p.state)) [
  | inl new ↦
      let (q, found, id) = find_shown-await_payment input.user_id t p.id db.payments p e refl in
      (q, ground (arith, new, found, ==_refl input.user_id, ==_refl input.request_key), id)
  | inr again ↦
      let (q, found, id) = find_shown-find_token input.user_id t p.id db.payments p e refl again in
      (q, ground (arith, again, found, ==_refl input.user_id, ==_refl input.request_key), id)
]
start_payment-find_request input t p (some k) db e key same =
    let id : k.payment_id ≡ p.id = ground (arith, same) in
    elim (Bool-cases (is_required p.state)) [
      | inl new ↦
          let (q, found, is_id) =
            find_shown-await_payment input.user_id t p.id db.payments p e refl in
          let found1 =
            subst (λ i. find_shown input.user_id i (await_payment p.id db.payments) ≡ some q)
              (sym id) found in
          (q, ground (arith, new, key, found1), is_id)
      | inr again ↦
          let (q, found, is_id) =
            find_shown-find_token input.user_id t p.id db.payments p e refl again in
          let found1 =
            subst (λ i. find_shown input.user_id i db.payments ≡ some q) (sym id) found in
          (q, ground (arith, again, key, found1), is_id)
    ]

started_id :
    (input : CreateInput) (x : Payment) (old : Option RequestKey) (db : PaymentDb) (p : Payment)
    (replayed : Bool) (after : PaymentDb)
    → start_payment input x old db ≡ (payment_created p replayed, after)
    → x.id ≡ p.id
unfolding start_payment
started_id input x old db p replayed after h = elim (Bool-cases (is_required x.state)) [
  | inl new ↦ ground (arith, h, new)
  | inr again ↦ ground (arith, h, again)
]

-- A payment that `createPayment` has answered is the one that `findPayment` reads under the same
-- request key.
pub create_payment-find_request :
    (digests : Digests) (clock : ℕ) (input : CreateInput) (db after : PaymentDb) (p : Payment)
    (replayed : Bool)
    → create_payment digests clock input db ≡ (payment_created p replayed, after)
    → (q : Payment) × (find_request input.user_id input.request_key after ≡ some q) × (q.id ≡ p.id)
unfolding create_payment create_by_token create_found
create_payment-find_request digests clock input db after p replayed h =
    let t = digests.of_token input.payment_token in
    let old = find_key input.user_id input.request_key db.request_keys in
    elim (Option-cases (find_token input.user_id t db.payments)) [
      | inl none_found ↦ absurd (ground (arith, h, none_found))
      | inr (x, e) ↦ elim (Bool-cases (is_other_payment x old)) [
        | inl other ↦ absurd (ground (arith, h, e, other))
        | inr same ↦ elim (Bool-cases (is_required x.state && leb x.expires_at clock)) [
          | inl late ↦ absurd (ground (arith, h, e, same, late))
          | inr early ↦
              let started : start_payment input x old db ≡ (payment_created p replayed, after) =
                ground (arith, h, e, same, early) in
              let (q, found, id) = start_payment-find_request input t x old db e refl same in
              let is_after : (start_payment input x old db).1 ≡ after = ap (λ r. r.1) started in
              (
                q,
                subst (λ d. find_request input.user_id input.request_key d ≡ some q) is_after found,
                id ∙ started_id input x old db p replayed after started,
              )
        ]
      ]
    ]
