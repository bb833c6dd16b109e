-- ===== src/Billing/Payments/Confirm.antt =====
-- `confirmPayment` of apps/billing/src/payment-repo.ts.
use combo.Prelude.{
  leb, ◌==◌, if◌then◌else◌, length, ℕ, ◌+◌, Bool, true, false, not, ◌&&◌, ◌||◌, Option, none, some,
  [], ◌∷◌,
}
use combo.Prelude.Int.{pos, ◌+ℤ◌}
use combo.Prelude.Texts.{Text}
use combo.Billing.Types.{
  ok, err, ◌>>=◌, Wallet, recharge, hold_entry, principal, reserve, recharge_key, payment_key, Db,
  Digests, type_error, Result,
}
use combo.Billing.Rows.{max_safe_integer, wallet_is_safe, set_wallet, lock_wallet, insert_entry}
use combo.Billing.Payments.{
  Call, PaymentState, required, waiting, completed, Payment, available, Funds, PaymentDb, find_call,
  find_payment, payment_for_call, is_channel, has_channel, complete, insert_funds,
}

pub data ConfirmOutcome : Type 0 where
  payment_completed : (replayed : Bool) → ConfirmOutcome
  payment_not_found payment_conflict : ConfirmOutcome

pub record ConfirmInput : Type 0 where
  pub payment_request_id : ℕ
  pub channel_transaction_id : Text
  pub amount_cents : ℕ

abbrev all_chars : (ℕ → Bool) → Text → Bool
all_chars p [] = true
all_chars p (c ∷ cs) = p c && all_chars p cs

-- Letters, digits and the characters . _ : - of the channel's pattern.
abbrev is_channel_char : ℕ → Bool
is_channel_char c =
    (leb 48 c && leb c 57)
    || (leb 65 c && leb c 90)
    || (leb 97 c && leb c 122)
    || (c == 46)
    || (c == 95)
    || (c == 58)
    || (c == 45)

unfoldable pub is_valid_input : ConfirmInput → Bool
is_valid_input input =
    leb input.amount_cents max_safe_integer
    && leb 1 input.amount_cents
    && (leb 1 (length input.channel_transaction_id)
        && leb (length input.channel_transaction_id) 128)
    && all_chars is_channel_char input.channel_transaction_id

-- interval '7 days', in seconds.
abbrev funds_ttl_seconds : ℕ
funds_ttl_seconds = 604800

abbrev pub new_funds : Payment → Db → Funds
new_funds p db = record {
  payment_id = p.id;
  call_ref = p.call_ref;
  user_id = p.user_id;
  amount = p.amount;
  state = available;
  expires_at = db.now + funds_ttl_seconds;
}

abbrev pub credited_wallet : Wallet → ℕ → Wallet
credited_wallet w amount = record w {
  principal_balance = w.principal_balance +ℤ pos amount;
  held_amount = w.held_amount + amount;
}

-- The two rows of the ledger: the credit, and its reservation.
unfoldable pub credit_payment : Digests → Payment → Wallet → Db → Result Db
credit_payment digests p w db = do
  db1 ←
      insert_entry
        (record {
          user_id = p.user_id;
          kind = recharge;
          bucket = some principal;
          amount = pos p.amount;
          ref_id = some p.id;
          key = recharge_key (digests.of_payment p.id);
        })
        (set_wallet p.user_id (credited_wallet w p.amount) db)
  insert_entry
      (record {
        user_id = p.user_id;
        kind = hold_entry;
        bucket = none;
        amount = pos p.amount;
        ref_id = some p.id;
        key = payment_key reserve p.id;
      })
      db1

-- The writes, after the wallet is locked.
unfoldable pub settle_payment :
    Digests → Text → Payment → Wallet → PaymentDb → Result (ConfirmOutcome × PaymentDb)
settle_payment digests channel p w db = do
  billing ← credit_payment digests p w db.billing
  db1 ← insert_funds (new_funds p db.billing) (record db { billing = billing })
  ok (payment_completed false, record db1 { payments = complete p.id channel db1.payments })

-- From `walletStateIsSafe`.
unfoldable pub confirm_locked :
    Digests → Text → Payment → Wallet → PaymentDb → Result (ConfirmOutcome × PaymentDb)
confirm_locked digests channel p w db =
    if not (wallet_is_safe (credited_wallet w p.amount))
    then ok (payment_conflict, db)
    else settle_payment digests channel p w db

-- By the state of the payment.
unfoldable pub confirm_state :
    Digests → Text → Payment → PaymentState → PaymentDb → Result (ConfirmOutcome × PaymentDb)
confirm_state digests channel p required db = ok (payment_conflict, db)
confirm_state digests channel p completed db = ok (
  if is_channel channel p.channel_transaction_id then payment_completed true else payment_conflict,
  db,
)
confirm_state digests channel p waiting db =
    if has_channel channel db.payments
    then ok (payment_conflict, db)
    else (lock_wallet p.user_id db.billing >>= λ l.
        confirm_locked digests channel p l.0 (record db { billing = l.1 }))

-- From the check of the amount.
unfoldable pub confirm_found :
    Digests → ConfirmInput → Payment → PaymentDb → Result (ConfirmOutcome × PaymentDb)
confirm_found digests input p db =
    if not (p.amount == input.amount_cents)
    then ok (payment_conflict, db)
    else confirm_state digests input.channel_transaction_id p p.state db

-- The call of a payment.
abbrev pub scope_of : ℕ → PaymentDb → Option Call
scope_of i db = elim (find_payment i db.payments) [
  | none ↦ none
  | some p ↦ find_call p.call_ref db.calls
]

-- `paymentForCall(tx, scope.id)!`.
abbrev pub confirm_scope :
    Digests → ConfirmInput → Option Payment → PaymentDb → Result (ConfirmOutcome × PaymentDb)
confirm_scope digests input none db = err type_error
confirm_scope digests input (some p) db = confirm_found digests input p db

-- `confirmPayment`.
unfoldable pub confirm_payment :
    Digests → ConfirmInput → PaymentDb → Result (ConfirmOutcome × PaymentDb)
confirm_payment digests input db =
    if not (is_valid_input input)
    then ok (payment_conflict, db)
    else elim (scope_of input.payment_request_id db) [
      | none ↦ ok (payment_not_found, db)
      | some scope ↦ confirm_scope digests input (payment_for_call scope.id db.payments) db
    ]
