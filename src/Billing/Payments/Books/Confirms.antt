-- ===== src/Billing/Payments/Books/Confirms.antt =====
-- `confirmPayment` of apps/billing/src/payment-repo.ts keeps the foreign keys.
use combo.Prelude.{
  ◌==◌, Bool-cases, Option-cases, All, ℕ, ◌≡◌, refl, sym, subst, inl, inr, some, List, [], ◌∷◌,
  arith,
}
use combo.Prelude.Outcomes.{ok, ◌>>=◌, >>=-eq-ok}
use combo.Prelude.Texts.{Text}
use combo.Billing.Types.{ok, ◌>>=◌, >>=-eq-ok, Wallet, Db, Digests}
use combo.Billing.Rows.{wallet_is_safe, lock_wallet, insert_entry}
use combo.Billing.Payments.{
  PaymentState, required, waiting, completed, Payment, PaymentDb, payment_for_call, has_channel,
  complete, insert_funds,
}
use combo.Billing.Payments.Confirm.{
  ConfirmOutcome, ConfirmInput, is_valid_input, new_funds, credited_wallet, credit_payment,
  settle_payment, confirm_locked, confirm_state, confirm_found, scope_of, confirm_payment,
}
use combo.Billing.Payments.Books.Keep.{confirm_payment-IsFunded}
use combo.Billing.Payments.Books.Links.{IsLinked, AllPayments, AllFunds, IsConnected}
use combo.Billing.Payments.Books.Connects.{complete-AllPayments, same_calls-IsConnected}
use combo.Billing.Payments.Books.Places.{IsSound}

payment_for_call-All :
    (P : Payment → Type 0) (call : ℕ) (ps : List Payment) (p : Payment)
    → All P ps
    → payment_for_call call ps ≡ some p
    → P p
unfolding payment_for_call
payment_for_call-All P call [] p all e = absurd (ground (arith, e))
payment_for_call-All P call (q ∷ qs) p (h, all) e = elim (Bool-cases (q.call_ref == call)) [
  | inl this ↦ let same : q ≡ p = ground (arith, e, this) in subst P same h
  | inr other ↦ payment_for_call-All P call qs p all (ground (arith, e, other))
]

-- The rows that a confirmation writes.
pub settle_payment_rows :
    (digests : Digests) (channel : Text) (p : Payment) (w : Wallet) (db : PaymentDb)
    (r : ConfirmOutcome × PaymentDb)
    → settle_payment digests channel p w db ≡ ok r
    → (r.1.calls ≡ db.calls)
      × (r.1.payments ≡ complete p.id channel db.payments)
      × (r.1.funds ≡ new_funds p db.billing ∷ db.funds)
unfolding settle_payment credit_payment insert_entry insert_funds
settle_payment_rows digests channel p w db r h =
    (ground (arith, h), ground (arith, h), ground (arith, h))

settle_payment-IsConnected :
    (digests : Digests) (channel : Text) (p : Payment) (w : Wallet) (db : PaymentDb)
    (r : ConfirmOutcome × PaymentDb)
    → IsConnected db
    → IsLinked db.calls p.call_ref p.user_id p.amount
    → settle_payment digests channel p w db ≡ ok r
    → IsConnected r.1
settle_payment-IsConnected digests channel p w db r k linked h =
    let (calls, payments, funds) = settle_payment_rows digests channel p w db r h in
    same_calls-IsConnected db r.1 k calls
      (subst (AllPayments db.calls) (sym payments)
        (complete-AllPayments db.calls p.id channel db.payments k.payments_linked))
      (subst (AllFunds db.calls) (sym funds) (linked, k.funds_linked))

confirm_state-IsConnected :
    (digests : Digests) (channel : Text) (p : Payment) (state : PaymentState) (db : PaymentDb)
    (r : ConfirmOutcome × PaymentDb)
    → IsConnected db
    → IsLinked db.calls p.call_ref p.user_id p.amount
    → confirm_state digests channel p state db ≡ ok r
    → IsConnected r.1
unfolding confirm_state confirm_locked
confirm_state-IsConnected digests channel p required db r k linked h =
    subst IsConnected {x = db} (ground (arith, h)) k
confirm_state-IsConnected digests channel p completed db r k linked h =
    subst IsConnected {x = db} (ground (arith, h)) k
confirm_state-IsConnected digests channel p waiting db r k linked h =
    elim (Bool-cases (has_channel channel db.payments)) [
      | inl taken ↦ subst IsConnected {x = db} (ground (arith, h, taken)) k
      | inr free ↦
          let locking : (lock_wallet p.user_id db.billing >>= λ l.
          confirm_locked digests channel p l.0 (record db { billing = l.1 }))
              ≡ ok r =
            ground (arith, h, free) in
          let (l, locked, rest) =
            >>=-eq-ok (lock_wallet p.user_id db.billing)
              (λ (l : Wallet × Db).
                confirm_locked digests channel p l.0 (record db { billing = l.1 }))
              locking in
          let db1 : PaymentDb = record db { billing = l.1 } in
          let k1 = same_calls-IsConnected db db1 k refl k.payments_linked k.funds_linked in
          elim (Bool-cases (wallet_is_safe (credited_wallet l.0 p.amount))) [
            | inr unsafe ↦ subst IsConnected {x = db1} (ground (arith, rest, unsafe)) k1
            | inl safe ↦
                settle_payment-IsConnected digests channel p l.0 db1 r k1 linked
                  (ground (arith, rest, safe))
          ]
    ]

confirm_payment-IsConnected :
    (digests : Digests) (input : ConfirmInput) (db : PaymentDb) (r : ConfirmOutcome × PaymentDb)
    → IsConnected db
    → confirm_payment digests input db ≡ ok r
    → IsConnected r.1
unfolding confirm_payment confirm_found
confirm_payment-IsConnected digests input db r k h = elim (Bool-cases (is_valid_input input)) [
  | inr bad ↦ subst IsConnected {x = db} (ground (arith, h, bad)) k
  | inl good ↦ elim (Option-cases (scope_of input.payment_request_id db)) [
    | inl none_found ↦ subst IsConnected {x = db} (ground (arith, h, good, none_found)) k
    | inr (scope, s) ↦ elim (Option-cases (payment_for_call scope.id db.payments)) [
      | inl gone ↦ absurd (ground (arith, h, good, s, gone))
      | inr (p, there) ↦ elim (Bool-cases (p.amount == input.amount_cents)) [
        | inr other ↦ subst IsConnected {x = db} (ground (arith, h, good, s, there, other)) k
        | inl same ↦
            confirm_state-IsConnected digests input.channel_transaction_id p p.state db r k
              (payment_for_call-All (λ q. IsLinked db.calls q.call_ref q.user_id q.amount) scope.id
                db.payments p k.payments_linked there)
              (ground (arith, h, good, s, there, same))
      ]
    ]
  ]
]

pub confirm_payment-IsSound :
    (digests : Digests) (input : ConfirmInput) (db : PaymentDb) (r : ConfirmOutcome × PaymentDb)
    → IsSound db
    → confirm_payment digests input db ≡ ok r
    → IsSound r.1
confirm_payment-IsSound digests input db r (b, k) h = (
  confirm_payment-IsFunded digests input db r b h,
  confirm_payment-IsConnected digests input db r k h,
)
