-- ===== src/Billing/Payments/Books/Keep.antt =====
-- `confirmPayment` and `releaseExpiredFunds` of apps/billing/src/payment-repo.ts keep the books.
use combo.Prelude.Outcomes.{ok, ◌>>=◌, >>=-eq-ok, Outcome-cases}
use combo.Billing.Sweep.{unfreeze}
use combo.Billing.Payments.Release.{
  find_due, release_locked, release_funds, release_call, release_calls, release_expired_funds,
}
use combo.Prelude.{
  ltb, ◌==◌, Bool-cases, Option-cases, ℕ, ◌+◌, ◌≡◌, subst, inl, inr, ◌||◌, some, List, [], ◌∷◌,
  arith,
}
use combo.Prelude.Int.{pos, +ℤ_comm}
use combo.Prelude.Texts.{Text}
use combo.Billing.Types.{ok, ◌>>=◌, >>=-eq-ok, Wallet, principal, Db, Digests}
use combo.Billing.Rows.{wallet_is_safe, to_wallet, lock_wallet, insert_entry}
use combo.Billing.Books.{held_sum, ledger_sum}
use combo.Billing.Payments.{
  Call, PaymentState, required, waiting, completed, Payment, Funds, PaymentDb, payment_for_call,
  has_channel, insert_funds,
}
use combo.Billing.Payments.Confirm.{
  ConfirmOutcome, ConfirmInput, is_valid_input, credited_wallet, credit_payment, settle_payment,
  confirm_locked, confirm_state, confirm_found, scope_of, confirm_payment,
}
use combo.Billing.Payments.Books.{
  funds_sum, IsFunded, has_funds-IsFreshFunds, IsKeyedFunds-give_back, funds_sum-give_back,
}

-- Locking a wallet shows nothing new to the books.
pub lock_wallet-IsFunded :
    (u : ℕ) (db : PaymentDb) (l : Wallet × Db)
    → IsFunded db
    → lock_wallet u db.billing ≡ ok l
    → IsFunded (record db { billing = l.1 }) × (l.1.wallets u ≡ some l.0)
unfolding lock_wallet to_wallet
lock_wallet-IsFunded u db l b h = (
  record {
    backs_held = λ v. ground (arith, b.backs_held v);
    backs_principal = λ v. ground (arith, b.backs_principal v);
    backs_bonus = λ v. ground (arith, b.backs_bonus v);
    is_keyed = b.is_keyed;
  },
  ground arith,
)

settle_payment-IsFunded :
    (digests : Digests) (channel : Text) (p : Payment) (w : Wallet) (db : PaymentDb)
    (r : ConfirmOutcome × PaymentDb)
    → IsFunded db
    → db.billing.wallets p.user_id ≡ some w
    → settle_payment digests channel p w db ≡ ok r
    → IsFunded r.1
unfolding settle_payment credit_payment insert_entry insert_funds held_sum ledger_sum funds_sum
settle_payment-IsFunded digests channel p w db r b e h = record {
  backs_held = λ v. ground (arith, b.backs_held v);
  backs_principal = λ v. ground (
    arith,
    b.backs_principal v,
    +ℤ_comm (pos p.amount) (ledger_sum v principal db.billing.ledger),
  );
  backs_bonus = λ v. ground (arith, b.backs_bonus v);
  is_keyed = ground (arith, b.is_keyed, has_funds-IsFreshFunds p.id p.call_ref db.funds);
}

confirm_locked-IsFunded :
    (digests : Digests) (channel : Text) (p : Payment) (w : Wallet) (db : PaymentDb)
    (r : ConfirmOutcome × PaymentDb)
    → IsFunded db
    → db.billing.wallets p.user_id ≡ some w
    → confirm_locked digests channel p w db ≡ ok r
    → IsFunded r.1
unfolding confirm_locked
confirm_locked-IsFunded digests channel p w db r b e h =
    elim (Bool-cases (wallet_is_safe (credited_wallet w p.amount))) [
      | inl safe ↦ settle_payment-IsFunded digests channel p w db r b e (ground (arith, h, safe))
      | inr unsafe ↦ subst IsFunded {x = db} (ground (arith, h, unsafe)) b
    ]

confirm_waiting-IsFunded :
    (digests : Digests) (channel : Text) (p : Payment) (db : PaymentDb)
    (r : ConfirmOutcome × PaymentDb)
    → IsFunded db
    → (lock_wallet p.user_id db.billing >>= λ l.
        confirm_locked digests channel p l.0 (record db { billing = l.1 }))
      ≡ ok r
    → IsFunded r.1
confirm_waiting-IsFunded digests channel p db r b h =
    let (l, locked, rest) =
      >>=-eq-ok (lock_wallet p.user_id db.billing)
        (λ (l : Wallet × Db). confirm_locked digests channel p l.0 (record db { billing = l.1 }))
        h in
    let (b1, here) = lock_wallet-IsFunded p.user_id db l b locked in
    confirm_locked-IsFunded digests channel p l.0 (record db { billing = l.1 }) r b1 here rest

confirm_state-IsFunded :
    (digests : Digests) (channel : Text) (p : Payment) (state : PaymentState) (db : PaymentDb)
    (r : ConfirmOutcome × PaymentDb)
    → IsFunded db
    → confirm_state digests channel p state db ≡ ok r
    → IsFunded r.1
unfolding confirm_state
confirm_state-IsFunded digests channel p required db r b h =
    subst IsFunded {x = db} (ground (arith, h)) b
confirm_state-IsFunded digests channel p completed db r b h =
    subst IsFunded {x = db} (ground (arith, h)) b
confirm_state-IsFunded digests channel p waiting db r b h =
    elim (Bool-cases (has_channel channel db.payments)) [
      | inl taken ↦ subst IsFunded {x = db} (ground (arith, h, taken)) b
      | inr free ↦ confirm_waiting-IsFunded digests channel p db r b (ground (arith, h, free))
    ]

confirm_found-IsFunded :
    (digests : Digests) (input : ConfirmInput) (p : Payment) (db : PaymentDb)
    (r : ConfirmOutcome × PaymentDb)
    → IsFunded db
    → confirm_found digests input p db ≡ ok r
    → IsFunded r.1
unfolding confirm_found
confirm_found-IsFunded digests input p db r b h =
    elim (Bool-cases (p.amount == input.amount_cents)) [
      | inr other ↦ subst IsFunded {x = db} (ground (arith, h, other)) b
      | inl same ↦
          confirm_state-IsFunded digests input.channel_transaction_id p p.state db r b
            (ground (arith, h, same))
    ]

pub confirm_payment-IsFunded :
    (digests : Digests) (input : ConfirmInput) (db : PaymentDb) (r : ConfirmOutcome × PaymentDb)
    → IsFunded db
    → confirm_payment digests input db ≡ ok r
    → IsFunded r.1
unfolding confirm_payment
confirm_payment-IsFunded digests input db r b h = elim (Bool-cases (is_valid_input input)) [
  | inr bad ↦ subst IsFunded {x = db} (ground (arith, h, bad)) b
  | inl good ↦ elim (Option-cases (scope_of input.payment_request_id db)) [
    | inl none_found ↦ subst IsFunded {x = db} (ground (arith, h, good, none_found)) b
    | inr (scope, s) ↦ elim (Option-cases (payment_for_call scope.id db.payments)) [
      | inl gone ↦ absurd (ground (arith, h, good, s, gone))
      | inr (p, there) ↦
          confirm_found-IsFunded digests input p db r b (ground (arith, h, good, s, there))
    ]
  ]
]

release_locked-IsFunded :
    (f : Funds) (now call : ℕ) (w : Wallet) (db : PaymentDb) (r : ℕ × PaymentDb)
    → IsFunded db
    → db.billing.wallets f.user_id ≡ some w
    → find_due now call db.funds ≡ some f
    → release_locked f db ≡ ok r
    → IsFunded r.1
unfolding release_locked unfreeze insert_entry ledger_sum
release_locked-IsFunded f now call w db r b here e h = record {
  backs_held =
      λ v. ground (arith, b.backs_held v, funds_sum-give_back v now call db.funds f b.is_keyed e);
  backs_principal = λ v. ground (arith, b.backs_principal v);
  backs_bonus = λ v. ground (arith, b.backs_bonus v);
  is_keyed = ground (arith, IsKeyedFunds-give_back f.payment_id db.funds b.is_keyed);
}

release_funds-IsFunded :
    (f : Funds) (now call : ℕ) (db : PaymentDb) (r : ℕ × PaymentDb)
    → IsFunded db
    → find_due now call db.funds ≡ some f
    → release_funds f db ≡ ok r
    → IsFunded r.1
unfolding release_funds
release_funds-IsFunded f now call db r b e h =
    let (l, locked, rest) =
      >>=-eq-ok (lock_wallet f.user_id db.billing)
        (λ (l : Wallet × Db). release_locked f (record db { billing = l.1 })) h in
    let (b1, here) = lock_wallet-IsFunded f.user_id db l b locked in
    release_locked-IsFunded f now call l.0 (record db { billing = l.1 }) r b1 here e rest

release_call-IsFunded :
    (c : Call) (db : PaymentDb) (r : ℕ × PaymentDb)
    → IsFunded db
    → release_call c db ≡ ok r
    → IsFunded r.1
unfolding release_call
release_call-IsFunded c db r b h = elim (Option-cases (find_due db.billing.now c.id db.funds)) [
  | inl e ↦ subst IsFunded {x = db} (ground (arith, h, e)) b
  | inr (f, e) ↦ release_funds-IsFunded f db.billing.now c.id db r b e (ground (arith, h, e))
]

release_calls-IsFunded :
    (cs : List Call) (n : ℕ) (db : PaymentDb) → IsFunded db → IsFunded (release_calls cs n db).1
unfolding release_calls
release_calls-IsFunded [] n db b = b
release_calls-IsFunded (c ∷ cs) n db b = elim (Outcome-cases (release_call c db)) [
  | inl (fault, e) ↦ rw (e, release_calls) b
  | inr ((m, after), e) ↦
      rw (e, release_calls)
        (release_calls-IsFunded cs (n + m) after (release_call-IsFunded c db (m, after) b e))
]

pub release_expired_funds-IsFunded :
    (limit : ℕ) (db : PaymentDb) → IsFunded db → IsFunded (release_expired_funds limit db).1
unfolding release_expired_funds
release_expired_funds-IsFunded limit db b = elim (Bool-cases (ltb limit 1 || ltb 1000 limit)) [
  | inl bad ↦ rw bad b
  | inr good ↦ rw good (release_calls-IsFunded _ 0 db b)
]
