-- ===== src/Billing/Payments/Once.antt =====
-- A confirmation of `confirmPayment`, apps/billing/src/payment-repo.ts, that arrives again.
use combo.Prelude.{
  ◌==◌, ==_refl, Bool-cases, Option-cases, ℕ, ◌≡◌, refl, sym, ap, subst, inl, inr, true, false,
  some, List, [], ◌∷◌, arith,
}
use combo.Prelude.Texts.{Text, same_text_refl}
use combo.Billing.Types.{ok, ◌>>=◌, >>=-eq-ok, Wallet, Db, Digests}
use combo.Billing.Rows.{wallet_is_safe, lock_wallet}
use combo.Billing.Payments.{
  Call, PaymentState, required, waiting, completed, Payment, PaymentDb, find_call, find_payment,
  payment_for_call, has_channel, complete,
}
use combo.Billing.Payments.Books.Confirms.{settle_payment_rows}
use combo.Billing.Payments.Confirm.{
  payment_completed, ConfirmInput, is_valid_input, credited_wallet, confirm_locked, confirm_state,
  confirm_found, scope_of, confirm_payment,
}

-- Completing a payment keeps the call of every payment.
find_payment-complete :
    (i j : ℕ) (channel : Text) (ps : List Payment) (p : Payment)
    → find_payment i ps ≡ some p
    → (q : Payment) × (find_payment i (complete j channel ps) ≡ some q) × (q.call_ref ≡ p.call_ref)
unfolding find_payment complete
find_payment-complete i j channel [] p e = absurd (ground (arith, e))
find_payment-complete i j channel (p1 ∷ ps) p e = elim (Bool-cases (p1.id == i)) [
  | inl h ↦
      let same : p1 ≡ p = ground (arith, e, h) in
      elim (Bool-cases (p1.id == j)) [
        | inl g ↦ (
          record p1 { state = completed; channel_transaction_id = some channel },
          rw (g, h) refl,
          ap (λ x. x.call_ref) same,
        )
        | inr g ↦ (p1, rw (g, h) refl, ap (λ x. x.call_ref) same)
      ]
  | inr h ↦
      let (q, found, call) = find_payment-complete i j channel ps p (ground (arith, e, h)) in
      elim (Bool-cases (p1.id == j)) [
        | inl g ↦ (q, rw (g, h) found, call)
        | inr g ↦ (q, rw (g, h) found, call)
      ]
]

payment_for_call-complete :
    (call : ℕ) (channel : Text) (ps : List Payment) (p : Payment)
    → payment_for_call call ps ≡ some p
    → payment_for_call call (complete p.id channel ps)
      ≡ some (record p { state = completed; channel_transaction_id = some channel })
unfolding payment_for_call complete
payment_for_call-complete call channel [] p e = absurd (ground (arith, e))
payment_for_call-complete call channel (q ∷ ps) p e = elim (Bool-cases (q.call_ref == call)) [
  | inl h ↦
      let same : q ≡ p = ground (arith, e, h) in
      subst
        (λ x.
          payment_for_call call (complete x.id channel (q ∷ ps))
          ≡ some (record x { state = completed; channel_transaction_id = some channel }))
        same (rw (==_refl q.id, h) refl)
  | inr h ↦
      let rest = payment_for_call-complete call channel ps p (ground (arith, e, h)) in
      elim (Bool-cases (q.id == p.id)) [ inl g ↦ rw (g, h) rest | inr g ↦ rw (g, h) rest ]
]

-- What the first confirmation has written.
confirm_state_rows :
    (digests : Digests) (channel : Text) (p : Payment) (state : PaymentState) (db after : PaymentDb)
    → confirm_state digests channel p state db ≡ ok (payment_completed false, after)
    → (after.calls ≡ db.calls) × (after.payments ≡ complete p.id channel db.payments)
unfolding confirm_state confirm_locked
confirm_state_rows digests channel p required db after h = absurd (ground (arith, h))
confirm_state_rows digests channel p completed db after h = absurd (ground (arith, h))
confirm_state_rows digests channel p waiting db after h =
    elim (Bool-cases (has_channel channel db.payments)) [
      | inl taken ↦ absurd (ground (arith, h, taken))
      | inr free ↦
          let locking : (lock_wallet p.user_id db.billing >>= λ l.
          confirm_locked digests channel p l.0 (record db { billing = l.1 }))
              ≡ ok (payment_completed false, after) =
            ground (arith, h, free) in
          let (l, locked, rest) =
            >>=-eq-ok (lock_wallet p.user_id db.billing)
              (λ (l : Wallet × Db).
                confirm_locked digests channel p l.0 (record db { billing = l.1 }))
              locking in
          elim (Bool-cases (wallet_is_safe (credited_wallet l.0 p.amount))) [
            | inr unsafe ↦ absurd (ground (arith, rest, unsafe))
            | inl safe ↦
                let (calls, payments, _) =
                  settle_payment_rows digests channel p l.0 (record db { billing = l.1 })
                    (payment_completed false, after) (ground (arith, rest, safe)) in
                (calls, payments)
          ]
    ]

scope_of-complete :
    (i : ℕ) (p : Payment) (channel : Text) (db after : PaymentDb) (scope : Call)
    → scope_of i db ≡ some scope
    → after.calls ≡ db.calls
    → after.payments ≡ complete p.id channel db.payments
    → scope_of i after ≡ some scope
scope_of-complete i p channel db after scope s calls payments =
    elim (Option-cases (find_payment i db.payments)) [
      | inl gone ↦ absurd (ground (arith, s, gone))
      | inr (q, e) ↦
          let (q1, found, call) = find_payment-complete i p.id channel db.payments q e in
          let here : find_payment i after.payments ≡ some q1 =
            subst (λ ps. find_payment i ps ≡ some q1) (sym payments) found in
          let row : find_call q.call_ref db.calls ≡ some scope = ground (arith, s, e) in
          let row1 : find_call q1.call_ref after.calls ≡ some scope =
            subst (λ cs. find_call q1.call_ref cs ≡ some scope) (sym calls)
              (subst (λ c. find_call c db.calls ≡ some scope) (sym call) row) in
          ground (arith, here, row1)
    ]

-- A confirmation that has credited the payment answers as a repeat, and changes nothing, when it
-- arrives again.
pub confirm_payment_replay :
    (digests : Digests) (input : ConfirmInput) (db after : PaymentDb)
    → confirm_payment digests input db ≡ ok (payment_completed false, after)
    → confirm_payment digests input after ≡ ok (payment_completed true, after)
unfolding confirm_payment confirm_found confirm_state
confirm_payment_replay digests input db after h = elim (Bool-cases (is_valid_input input)) [
  | inr bad ↦ absurd (ground (arith, h, bad))
  | inl good ↦ elim (Option-cases (scope_of input.payment_request_id db)) [
    | inl none_found ↦ absurd (ground (arith, h, good, none_found))
    | inr (scope, s) ↦ elim (Option-cases (payment_for_call scope.id db.payments)) [
      | inl gone ↦ absurd (ground (arith, h, good, s, gone))
      | inr (p, there) ↦ elim (Bool-cases (p.amount == input.amount_cents)) [
        | inr other ↦ absurd (ground (arith, h, good, s, there, other))
        | inl same ↦
            let channel = input.channel_transaction_id in
            let (calls, payments) =
              confirm_state_rows digests channel p p.state db after
                (ground (arith, h, good, s, there, same)) in
            let scope1 =
              scope_of-complete input.payment_request_id p channel db after scope s calls
                payments in
            let there1 : payment_for_call scope.id after.payments
                ≡ some (record p { state = completed; channel_transaction_id = some channel }) =
              subst
                (λ ps.
                  payment_for_call scope.id ps
                  ≡ some (record p { state = completed; channel_transaction_id = some channel }))
                (sym payments) (payment_for_call-complete scope.id channel db.payments p there) in
            ground (arith, good, scope1, there1, same, same_text_refl channel)
      ]
    ]
  ]
]
