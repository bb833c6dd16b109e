-- ===== src/Billing/Payments/Books/Settles.antt =====
-- `createPayment`, `releaseExpiredFunds` and `finishAttempt` of apps/billing/src/payment-repo.ts and
-- payment-attempts.ts keep the books and the foreign keys.
use combo.Billing.Payments.Attempt.{
  find_attempt, same_attempt_state, insert_attempt, call_of_hold, AttemptResult, FinishOutcome,
  update_attempt, ensure_attempt, finish_running, finish_found, finish_attempt,
}
use combo.Prelude.{
  ltb, leb, ◌==◌, Bool-cases, Option-cases, ℕ, ◌+◌, ◌≡◌, refl, sym, subst, ◌⊎◌, inl, inr, ◌&&◌,
  ◌||◌, Option, none, some, List, [], ◌∷◌, arith,
}
use combo.Prelude.Outcomes.{ok, >>=-eq-ok, Outcome-cases}
use combo.Billing.Sweep.{unfreeze}
use combo.Billing.Types.{ok, >>=-eq-ok, Wallet, Db, Digests}
use combo.Billing.Rows.{lock_wallet, insert_entry}
use combo.Billing.Payments.{Call, Payment, Funds, running, CallAttempt, RequestKey, PaymentDb}
use combo.Billing.Payments.Release.{
  find_due, give_back, release_locked, release_funds, release_call, release_calls,
  release_expired_funds,
}
use combo.Billing.Payments.Create.{
  CreateInput, find_token, find_key, is_required, await_payment, is_other_payment, start_payment,
  create_found, create_by_token, create_payment,
}
use combo.Billing.Payments.Books.{IsKeyedFunds}
use combo.Billing.Payments.Books.Keep.{release_expired_funds-IsFunded}
use combo.Billing.Payments.Books.Links.{AllPayments, AllFunds, IsConnected}
use combo.Billing.Payments.Books.Connects.{give_back-AllFunds, same_calls-IsConnected}
use combo.Billing.Payments.Books.Places.{IsSound}

-- The rows that a release writes.
release_locked_rows :
    (f : Funds) (db : PaymentDb) (r : ℕ × PaymentDb)
    → release_locked f db ≡ ok r
    → (r.1.calls ≡ db.calls)
      × (r.1.payments ≡ db.payments)
      × (r.1.funds ≡ give_back f.payment_id db.funds)
unfolding release_locked unfreeze insert_entry
release_locked_rows f db r h = (ground (arith, h), ground (arith, h), ground (arith, h))

release_call-IsConnected :
    (c : Call) (db : PaymentDb) (r : ℕ × PaymentDb)
    → IsConnected db
    → release_call c db ≡ ok r
    → IsConnected r.1
unfolding release_call release_funds
release_call-IsConnected c db r k h = elim (Option-cases (find_due db.billing.now c.id db.funds)) [
  | inl e ↦ subst IsConnected {x = db} (ground (arith, h, e)) k
  | inr (f, e) ↦
      let (l, locked, rest) =
        >>=-eq-ok (lock_wallet f.user_id db.billing)
          (λ (l : Wallet × Db). release_locked f (record db { billing = l.1 }))
          (ground (arith, h, e)) in
      let (calls, payments, funds) = release_locked_rows f (record db { billing = l.1 }) r rest in
      same_calls-IsConnected db r.1 k calls
        (subst (AllPayments db.calls) (sym payments) k.payments_linked)
        (subst (AllFunds db.calls) (sym funds)
          (give_back-AllFunds db.calls f.payment_id db.funds k.funds_linked))
]

release_calls-IsConnected :
    (cs : List Call) (n : ℕ) (db : PaymentDb)
    → IsConnected db
    → IsConnected (release_calls cs n db).1
unfolding release_calls
release_calls-IsConnected [] n db k = k
release_calls-IsConnected (c ∷ cs) n db k = elim (Outcome-cases (release_call c db)) [
  | inl (fault, e) ↦ rw (e, release_calls) k
  | inr ((m, after), e) ↦
      rw (e, release_calls)
        (release_calls-IsConnected cs (n + m) after (release_call-IsConnected c db (m, after) k e))
]

pub release_expired_funds-IsSound :
    (limit : ℕ) (db : PaymentDb) → IsSound db → IsSound (release_expired_funds limit db).1
unfolding release_expired_funds
release_expired_funds-IsSound limit db (b, k) = (
  release_expired_funds-IsFunded limit db b,
  elim (Bool-cases (ltb limit 1 || ltb 1000 limit)) [
    | inl bad ↦ rw bad k
    | inr good ↦ rw good (release_calls-IsConnected _ 0 db k)
  ],
)

await_payment-AllPayments :
    (cs : List Call) (j : ℕ) (ps : List Payment)
    → AllPayments cs ps
    → AllPayments cs (await_payment j ps)
unfolding await_payment
await_payment-AllPayments cs j [] all = tt
await_payment-AllPayments cs j (p ∷ ps) (l, all) = elim (Bool-cases (p.id == j)) [
  | inl e ↦ rw e (l, await_payment-AllPayments cs j ps all)
  | inr e ↦ rw e (l, await_payment-AllPayments cs j ps all)
]

-- Writes of payments, keys or attempts alone.
same_money-IsSound :
    (db after : PaymentDb)
    → IsSound db
    → after.billing ≡ db.billing
    → after.funds ≡ db.funds
    → after.calls ≡ db.calls
    → AllPayments db.calls after.payments
    → IsSound after
same_money-IsSound db after (b, k) billing funds calls payments = (
  record {
    backs_held = λ v. ground (arith, b.backs_held v, funds, billing);
    backs_principal = λ v. ground (arith, b.backs_principal v, billing);
    backs_bonus = λ v. ground (arith, b.backs_bonus v, billing);
    is_keyed = subst IsKeyedFunds (sym funds) b.is_keyed;
  },
  same_calls-IsConnected db after k calls payments
      (subst (AllFunds db.calls) (sym funds) k.funds_linked),
)

-- No row but those of payments and keys; a payment that is started waits.
abbrev Starts : PaymentDb → PaymentDb → Type 0
Starts db after =
    (after.billing ≡ db.billing)
    × (after.funds ≡ db.funds)
    × (after.calls ≡ db.calls)
    × ((after.payments ≡ db.payments) ⊎ ((i : ℕ) × (after.payments ≡ await_payment i db.payments)))

start_payment-Starts :
    (input : CreateInput) (p : Payment) (old : Option RequestKey) (db : PaymentDb)
    → Starts db (start_payment input p old db).1
unfolding start_payment
start_payment-Starts input p none db = elim (Bool-cases (is_required p.state)) [
  | inl new ↦ rw new (refl, refl, refl, inr (p.id, refl))
  | inr again ↦ rw again (refl, refl, refl, inl refl)
]
start_payment-Starts input p (some key) db = elim (Bool-cases (is_required p.state)) [
  | inl new ↦ rw new (refl, refl, refl, inr (p.id, refl))
  | inr again ↦ rw again (refl, refl, refl, inl refl)
]

create_found-Starts :
    (clock : ℕ) (input : CreateInput) (p : Payment) (old : Option RequestKey) (db : PaymentDb)
    → Starts db (create_found input clock p old db).1
unfolding create_found
create_found-Starts clock input p old db = elim (Bool-cases (is_other_payment p old)) [
  | inl other ↦ rw other (refl, refl, refl, inl refl)
  | inr same ↦ elim (Bool-cases (is_required p.state && leb p.expires_at clock)) [
    | inl late ↦ rw (same, late) (refl, refl, refl, inl refl)
    | inr early ↦ rw (same, early) (start_payment-Starts input p old db)
  ]
]

create_by_token-Starts :
    (clock : ℕ) (input : CreateInput) (payment : Option Payment) (db : PaymentDb)
    → Starts db (create_by_token input clock payment db).1
unfolding create_by_token
create_by_token-Starts clock input none db = (refl, refl, refl, inl refl)
create_by_token-Starts clock input (some p) db =
    create_found-Starts clock input p (find_key input.user_id input.request_key db.request_keys) db

create_payment-Starts :
    (digests : Digests) (clock : ℕ) (input : CreateInput) (db : PaymentDb)
    → Starts db (create_payment digests clock input db).1
unfolding create_payment
create_payment-Starts digests clock input db =
    create_by_token-Starts clock input
      (find_token input.user_id (digests.of_token input.payment_token) db.payments) db

pub create_payment-IsSound :
    (digests : Digests) (clock : ℕ) (input : CreateInput) (db : PaymentDb)
    → IsSound db
    → IsSound (create_payment digests clock input db).1
create_payment-IsSound digests clock input db (b, k) =
    let (billing, funds, calls, payments) = create_payment-Starts digests clock input db in
    same_money-IsSound db (create_payment digests clock input db).1 (b, k) billing funds calls
      (elim payments [
        | inl same ↦ subst (AllPayments db.calls) (sym same) k.payments_linked
        | inr (i, e) ↦
            subst (AllPayments db.calls) (sym e)
              (await_payment-AllPayments db.calls i db.payments k.payments_linked)
      ])

finish_running-IsSound :
    (input : AttemptResult) (c : Call) (attempt : Option CallAttempt) (db : PaymentDb)
    (r : FinishOutcome × PaymentDb)
    → IsSound db
    → finish_running input c attempt db ≡ ok r
    → IsSound r.1
unfolding finish_running ensure_attempt insert_attempt update_attempt
finish_running-IsSound input c attempt db r (b, k) h =
    let (billing, funds, calls, payments) : (r.1.billing ≡ db.billing)
        × (r.1.funds ≡ db.funds)
        × (r.1.calls ≡ db.calls)
        × (r.1.payments ≡ db.payments) =
      (ground (arith, h), ground (arith, h), ground (arith, h), ground (arith, h)) in
    same_money-IsSound db r.1 (b, k) billing funds calls
      (subst (AllPayments db.calls) (sym payments) k.payments_linked)

pub finish_attempt-IsSound :
    (input : AttemptResult) (db : PaymentDb) (r : FinishOutcome × PaymentDb)
    → IsSound db
    → finish_attempt input db ≡ ok r
    → IsSound r.1
unfolding finish_attempt finish_found
finish_attempt-IsSound input db r s h = elim (Option-cases (call_of_hold input.hold_id db)) [
  | inl none_found ↦ subst IsSound {x = db} (ground (arith, h, none_found)) s
  | inr (c, e) ↦ elim (Option-cases (find_attempt input.hold_id db.attempts)) [
    | inl new ↦ finish_running-IsSound input c none db r s (ground (arith, h, e, new))
    | inr (a, there) ↦ elim (Bool-cases (same_attempt_state a.state running)) [
      | inl going ↦
          finish_running-IsSound input c (some a) db r s (ground (arith, h, e, there, going))
      | inr ended ↦ subst IsSound {x = db} (ground (arith, h, e, there, ended)) s
    ]
  ]
]
