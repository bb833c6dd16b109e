-- ===== src/Billing/Payments/Books/Places.antt =====
-- Calls that get a hold, `createHold` of apps/billing/src/payment-repo.ts, and their further attempts.
use combo.Prelude.{
  ltb, Bool-cases, ℕ, ◌+◌, ◌≡◌, refl, sym, subst, inl, inr, true, false, ◌&&◌, Option, none, some,
  arith,
}
use combo.Prelude.Int.{pos, ltb_ℤ}
use combo.Billing.Types.{ok, >>=-eq-ok, Wallet, Db, Digests}
use combo.Billing.Rows.{available_balance, lock_wallet}
use combo.Billing.Payments.{Call, Funds, failed_no_charge, CallAttempt, PaymentDb, find_call}
use combo.Billing.Payments.Attempt.{same_attempt_state}
use combo.Billing.Payments.Release.{is_available}
use combo.Billing.Payments.Admit.{
  AdmissionInput, FreshIds, AdmissionOutcome, call_admitted, matches, create_call_hold, admitted_as,
  retry_locked, retry_call, readmit, find_funds,
}
use combo.Billing.Payments.Books.{IsFunded}
use combo.Billing.Payments.Books.Keep.{lock_wallet-IsFunded}
use combo.Billing.Payments.Books.Links.{IsLinked, IsConnected}
use combo.Billing.Payments.Books.Claims.{
  find_funds-All, create_call_hold-IsFunded, create_call_hold-IsFunded_claimed,
}
use combo.Billing.Payments.Books.Connects.{same_calls-IsConnected, create_call_hold-IsConnected}

abbrev pub IsSound : PaymentDb → Type 0
IsSound db = IsFunded db × IsConnected db

pub lock_wallet-IsSound :
    (u : ℕ) (db : PaymentDb) (l : Wallet × Db)
    → IsSound db
    → lock_wallet u db.billing ≡ ok l
    → IsSound (record db { billing = l.1 }) × (l.1.wallets u ≡ some l.0)
lock_wallet-IsSound u db l (b, k) h =
    let (b1, here) = lock_wallet-IsFunded u db l b h in
    (
      (
        b1,
        same_calls-IsConnected db (record db { billing = l.1 }) k refl k.payments_linked
            k.funds_linked,
      ),
      here,
    )

-- A hold from the wallet.
pub admitted_as-IsSound :
    (digests : Digests) (hold execution n : ℕ) (c : Call) (w : Wallet) (db : PaymentDb)
    (r : AdmissionOutcome × PaymentDb)
    → IsSound db
    → db.billing.wallets c.user_id ≡ some w
    → admitted_as hold execution (create_call_hold digests hold c none n execution db) ≡ ok r
    → IsSound r.1
admitted_as-IsSound digests hold execution n c w db r (b, k) here h =
    let (after, placed, rest) =
      >>=-eq-ok (create_call_hold digests hold c none n execution db)
        (λ (x : PaymentDb). ok (call_admitted hold false (some execution), x)) h in
    subst IsSound {x = after} (ground (arith, rest)) (
      create_call_hold-IsFunded digests hold c n execution w db after b here placed,
      create_call_hold-IsConnected digests hold c none n execution db after k placed,
    )

-- A hold from the funds of the call's payment.
pub admitted_as-IsSound_claimed :
    (digests : Digests) (hold execution n : ℕ) (c : Call) (f : Funds) (db : PaymentDb)
    (r : AdmissionOutcome × PaymentDb)
    → IsSound db
    → find_call c.id db.calls ≡ some c
    → find_funds c.id db.funds ≡ some f
    → is_available f.state ≡ true
    → admitted_as hold execution
        (create_call_hold digests hold c (some f.payment_id) n execution db)
      ≡ ok r
    → IsSound r.1
admitted_as-IsSound_claimed digests hold execution n c f db r (b, k) there e here h =
    let (after, placed, rest) =
      >>=-eq-ok (create_call_hold digests hold c (some f.payment_id) n execution db)
        (λ (x : PaymentDb). ok (call_admitted hold false (some execution), x)) h in
    let ((d, found, user, amount), call) =
      find_funds-All (λ g. IsLinked db.calls g.call_ref g.user_id g.amount) c.id db.funds f
        k.funds_linked e in
    let same_row : find_call c.id db.calls ≡ some d =
      subst (λ i. find_call i db.calls ≡ some d) call found in
    let same : d ≡ c = ground (arith, same_row, there) in
    subst IsSound {x = after} (ground (arith, rest)) (
      create_call_hold-IsFunded_claimed digests hold c n execution f db after b e here
          (subst (λ x. x.user_id ≡ f.user_id) same user)
          (subst (λ x. x.estimated_amount ≡ f.amount) same amount) placed,
      create_call_hold-IsConnected digests hold c (some f.payment_id) n execution db after k placed,
    )

pub matches_user :
    (c : Call) (input : AdmissionInput) → matches c input ≡ true → c.user_id ≡ input.user_id
unfolding matches
matches_user c input h = ground (arith, h)

retry_call-IsSound :
    (digests : Digests) (fresh : FreshIds) (input : AdmissionInput) (c : Call) (a : CallAttempt)
    (db : PaymentDb) (r : AdmissionOutcome × PaymentDb)
    → IsSound db
    → c.user_id ≡ input.user_id
    → retry_call digests fresh input c a db ≡ ok r
    → IsSound r.1
unfolding retry_call retry_locked
retry_call-IsSound digests fresh input c a db r s user h =
    let (l, locked, rest) =
      >>=-eq-ok (lock_wallet input.user_id db.billing)
        (λ (l : Wallet × Db).
          retry_locked digests fresh input c a l.0 (record db { billing = l.1 }))
        h in
    let (s1, here) = lock_wallet-IsSound input.user_id db l s locked in
    elim (Bool-cases (ltb_ℤ (available_balance l.0) (pos input.estimated_amount))) [
      | inl poor ↦ subst IsSound {x = record db { billing = l.1 }} (ground (arith, rest, poor)) s1
      | inr rich ↦
          admitted_as-IsSound digests fresh.hold fresh.execution (a.attempt_no + 1) c l.0
            (record db { billing = l.1 }) r s1
            (subst (λ u. l.1.wallets u ≡ some l.0) (sym user) here) (ground (arith, rest, rich))
    ]

pub readmit-IsSound :
    (digests : Digests) (fresh : FreshIds) (input : AdmissionInput) (c : Call) (hold : ℕ)
    (attempt : Option CallAttempt) (db : PaymentDb) (r : AdmissionOutcome × PaymentDb)
    → IsSound db
    → c.user_id ≡ input.user_id
    → readmit digests fresh input c hold attempt db ≡ ok r
    → IsSound r.1
unfolding readmit
readmit-IsSound digests fresh input c hold none db r s user h =
    subst IsSound {x = db} (ground (arith, h)) s
readmit-IsSound digests fresh input c hold (some a) db r s user h =
    elim (Bool-cases (same_attempt_state a.state failed_no_charge && ltb a.attempt_no 20)) [
      | inl again ↦
          retry_call-IsSound digests fresh input c a db r s user (ground (arith, h, again))
      | inr last ↦ subst IsSound {x = db} (ground (arith, h, last)) s
    ]
