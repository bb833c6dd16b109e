-- ===== src/Billing/Payments/Books/Histories.antt =====
-- Any history of apps/billing/src/payment-repo.ts: the operations in the order in which the row locks
-- let them commit.
use combo.Billing.Books.{held_sum, ledger_sum}
use combo.Prelude.{ℕ, ◌+◌, ◌≡◌, refl, Bool, false, List, [], ◌∷◌}
use combo.Prelude.Outcomes.{err, ok}
use combo.Billing.Types.{ok, err, Digests, Result}
use combo.Billing.Payments.{PaymentDb}
use combo.Billing.Payments.Release.{release_expired_funds}
use combo.Billing.Payments.Confirm.{ConfirmInput, confirm_payment}
use combo.Billing.Payments.Create.{CreateInput, create_payment}
use combo.Billing.Payments.Admit.{AdmissionInput, FreshIds, admit_call}
use combo.Billing.Payments.Books.{funds_sum}
use combo.Billing.Payments.Books.Admits.{admit_call-IsSound}
use combo.Billing.Payments.Books.Places.{IsSound}
use combo.Billing.Payments.Books.Confirms.{confirm_payment-IsSound}
use combo.Billing.Payments.Attempt.{AttemptResult, finish_attempt}
use combo.Billing.Payments.Books.Settles.{
  release_expired_funds-IsSound, create_payment-IsSound, finish_attempt-IsSound,
}
use combo.Billing.Books.History.{empty_db}

pub data PaymentOp : Type 0 where
  admits : FreshIds → (clock : ℕ) → AdmissionInput → PaymentOp
  starts : (clock : ℕ) → CreateInput → PaymentOp
  confirms : ConfirmInput → PaymentOp
  finishes : AttemptResult → PaymentOp
  gives_back : (limit : ℕ) → PaymentOp
  passes : (seconds : ℕ) → PaymentOp

-- A transaction that throws is rolled back.
abbrev pub kept {ℓ} : {A : Type ℓ} → Result (A × PaymentDb) → PaymentDb → PaymentDb
kept (ok r) db = r.1
kept (err _) db = db

unfoldable pub apply_payment_op : Digests → PaymentOp → PaymentDb → PaymentDb
apply_payment_op digests (admits fresh clock input) db =
    kept (admit_call digests fresh clock input db) db
apply_payment_op digests (starts clock input) db = (create_payment digests clock input db).1
apply_payment_op digests (confirms input) db = kept (confirm_payment digests input db) db
apply_payment_op digests (finishes input) db = kept (finish_attempt input db) db
apply_payment_op digests (gives_back limit) db = (release_expired_funds limit db).1
apply_payment_op digests (passes n) db = record db {
  billing = record db.billing { now = db.billing.now + n };
}

unfoldable pub payment_history : Digests → List PaymentOp → PaymentDb → PaymentDb
payment_history digests [] db = db
payment_history digests (o ∷ os) db = payment_history digests os (apply_payment_op digests o db)

-- No row of any table.
abbrev pub empty_payments : (users : ℕ → Bool) → PaymentDb
empty_payments users = record {
  billing = empty_db users (λ _ _. false);
  calls = [];
  payments = [];
  funds = [];
  attempts = [];
  request_keys = [];
}

kept-IsSound {ℓ} :
    {A : Type ℓ} (x : Result (A × PaymentDb)) (db : PaymentDb)
    → IsSound db
    → ((r : A × PaymentDb) → x ≡ ok r → IsSound r.1)
    → IsSound (kept x db)
kept-IsSound (ok r) db s f = f r refl
kept-IsSound (err _) db s f = s

apply_payment_op-IsSound :
    (digests : Digests) (o : PaymentOp) (db : PaymentDb)
    → IsSound db
    → IsSound (apply_payment_op digests o db)
unfolding apply_payment_op
apply_payment_op-IsSound digests (admits fresh clock input) db s =
    kept-IsSound (admit_call digests fresh clock input db) db s
      (λ r. admit_call-IsSound digests fresh clock input db r s)
apply_payment_op-IsSound digests (starts clock input) db s =
    create_payment-IsSound digests clock input db s
apply_payment_op-IsSound digests (confirms input) db s =
    kept-IsSound (confirm_payment digests input db) db s
      (λ r. confirm_payment-IsSound digests input db r s)
apply_payment_op-IsSound digests (finishes input) db s =
    kept-IsSound (finish_attempt input db) db s (λ r. finish_attempt-IsSound input db r s)
apply_payment_op-IsSound digests (gives_back limit) db s = release_expired_funds-IsSound limit db s
apply_payment_op-IsSound digests (passes n) db (b, k) = (
  record {
    backs_held = b.backs_held;
    backs_principal = b.backs_principal;
    backs_bonus = b.backs_bonus;
    is_keyed = b.is_keyed;
  },
  record { keyed = k.keyed; payments_linked = k.payments_linked; funds_linked = k.funds_linked },
)

payment_history-IsSound :
    (digests : Digests) (os : List PaymentOp) (db : PaymentDb)
    → IsSound db
    → IsSound (payment_history digests os db)
unfolding payment_history
payment_history-IsSound digests [] db s = s
payment_history-IsSound digests (o ∷ os) db s =
    payment_history-IsSound digests os (apply_payment_op digests o db)
      (apply_payment_op-IsSound digests o db s)

-- From empty tables, whatever the order of admissions, payments, confirmations,
-- ends of attempts and releases: the held
-- amount of every wallet is the sum of its held rows and its available funds, its balances are the
-- sums of its ledger, and every payment and reservation has the user and the amount of a call.
pub payment_history-empty_payments-IsSound :
    (digests : Digests) (users : ℕ → Bool) (os : List PaymentOp)
    → IsSound (payment_history digests os (empty_payments users))
unfolding held_sum ledger_sum funds_sum
payment_history-empty_payments-IsSound digests users os =
    payment_history-IsSound digests os (empty_payments users) (
      record {
        backs_held = λ _. refl;
        backs_principal = λ _. refl;
        backs_bonus = λ _. refl;
        is_keyed = tt;
      },
      record { keyed = tt; payments_linked = tt; funds_linked = tt },
    )
