-- ===== src/Billing/Payments.antt =====
-- apps/billing/src/payment-repo.ts: calls that wait for a payment, payments, and the funds that they
-- reserve, beside the tables of repo.ts. Ids and keys are numbers; a transaction of a payment channel
-- is a text.
pub mod Release
pub mod Books
pub mod Confirm
pub mod Attempt
pub mod Admit
pub mod Create
pub mod Once
pub mod Found
pub mod Ended
pub mod Scenario
use combo.Prelude.{
  ltb, leb, ◌==◌, if◌then◌else◌, ==_iff, ==_refl, Bool-cases, Option-cases, same_option, length,
  All, All-map, ℕ, zero, suc, ◌+◌, ◌-◌, ◌*◌, ◌/◌, ◌%◌, ◌^◌, ◌≤◌, ◌<◌, ◌≡◌, refl, sym, ap, ◌∙◌,
  subst, ◌≢◌, ◌↔◌, ◌⊎◌, inl, inr, Bool, true, false, not, ◌&&◌, ◌||◌, Option, none, some, List, [],
  ◌∷◌, ◌++◌, map, arith,
}
use combo.Prelude.Int.{
  ℤ, pos, negsuc, pos_part, neg_part, sub_ℕ, ◌+ℤ◌, ◌-ℤ◌, neg_ℕ, ◌≤ℤ◌, ltb_ℤ, leb_ℤ, +ℤ_parts,
  -ℤ_parts, neg_ℕ_parts, eq_of_parts, int_laws, neg_ℕ-+ℤ, -ℤ-zero, +ℤ_comm,
}
use combo.Prelude.Texts.{Text, is_space, is_empty, trim, after_prefix, same_text}
use combo.Billing.Types.{
  ok, err, ◌>>=◌, ◌>>◌, require, >>=-eq-ok, Wallet, Status, held, settled, released, expired, Hold,
  Kind, recharge, consume, hold_entry, release, Bucket, principal, bonus, PaymentStep, reserve,
  claim, expire, LedgerKey, hold_key, settle_key, release_key, recharge_key, payment_key, Entry,
  Source, gateway, agent_report, estimated, MeterKey, reported_key, estimated_key, Metering, Db,
  Digests, Fault, unsafe_range, missing_wallet, unique_violation, check_violation,
  trigger_violation, type_error, invalid_limit, Result, Mismatch, idempotency_mismatch,
  terminal_replay, balance_range_exceeded, hold_scope_mismatch, hold_not_active, HoldOutcome,
  hold_placed, hold_conflict, hold_invalid_user, insufficient, overdraft_blocked, Deductions,
  SettleOutcome, hold_settled, not_found, settle_conflict, invalid_state, RechargeOutcome, credited,
  recharge_invalid_user, recharge_conflict, MeteringOutcome, recorded, metering_conflict,
}
use combo.Billing.Rows.{
  max_safe_integer, is_safe, wallet_state_is_safe, wallet_is_safe, to_wallet, safe_option, to_hold,
  net, available_balance, is_held, zero_wallet, wallet_or_zero, set_wallet, wallet_row, lock_wallet,
  read_wallet, find_hold, find_hold_by_turn, is_some, insert_hold, set_hold, may_change,
  update_hold, same_bucket, same_step, same_key, find_entry, has_shape, insert_entry,
}

-- `CallRow`.
pub record Call : Type 0 where
  pub id : ℕ
  pub user_id : ℕ
  pub agent_id : ℕ
  pub operation_id : ℕ
  pub call_id : ℕ
  pub request_fingerprint : ℕ
  pub pricing_policy_id : ℕ
  pub estimated_amount : ℕ
  pub hold_id : Option ℕ

pub data PaymentState : Type 0 where
  required waiting completed : PaymentState

-- `PaymentRow`.
pub record Payment : Type 0 where
  pub id : ℕ
  pub call_ref : ℕ
  pub user_id : ℕ
  pub amount : ℕ
  pub token_digest : ℕ
  pub state : PaymentState
  pub channel_transaction_id : Option Text
  pub expires_at : ℕ

pub data FundsState : Type 0 where
  available claimed given_back : FundsState

-- `FundsRow`.
pub record Funds : Type 0 where
  pub payment_id : ℕ
  pub call_ref : ℕ
  pub user_id : ℕ
  pub amount : ℕ
  pub state : FundsState
  pub expires_at : ℕ

pub data AttemptState : Type 0 where
  running succeeded failed_no_charge unknown : AttemptState

-- `CallAttempt`; a reason is one of the source's words, by its number.
pub record CallAttempt : Type 0 where
  pub call_ref : ℕ
  pub attempt_no : ℕ
  pub hold_id : ℕ
  pub execution_id : ℕ
  pub state : AttemptState
  pub failure_reason : Option ℕ

-- A row of v2_payment_request_keys.
pub record RequestKey : Type 0 where
  pub user_id : ℕ
  pub request_key : ℕ
  pub payment_id : ℕ

pub record PaymentDb : Type 0 where
  pub billing : Db
  pub calls : List Call
  pub payments : List Payment
  pub funds : List Funds
  pub attempts : List CallAttempt
  pub request_keys : List RequestKey

unfoldable pub find_call : ℕ → List Call → Option Call
find_call i [] = none
find_call i (c ∷ cs) = if c.id == i then some c else find_call i cs

unfoldable pub find_payment : ℕ → List Payment → Option Payment
find_payment i [] = none
find_payment i (p ∷ ps) = if p.id == i then some p else find_payment i ps

-- `paymentForCall`, by the unique call_ref.
unfoldable pub payment_for_call : ℕ → List Payment → Option Payment
payment_for_call i [] = none
payment_for_call i (p ∷ ps) = if p.call_ref == i then some p else payment_for_call i ps

abbrev pub is_channel : Text → Option Text → Bool
is_channel channel none = false
is_channel channel (some t) = same_text t channel

-- The rows with a channel transaction.
unfoldable pub has_channel : Text → List Payment → Bool
has_channel channel [] = false
has_channel channel (p ∷ ps) = is_channel channel p.channel_transaction_id || has_channel channel ps

-- UPDATE v2_payment_requests … WHERE id = $1.
unfoldable pub complete : ℕ → Text → List Payment → List Payment
complete i channel [] = []
complete i channel (p ∷ ps) =
    (if p.id == i then record p { state = completed; channel_transaction_id = some channel } else p)
    ∷ complete i channel ps

unfoldable pub has_funds : (payment_id call_ref : ℕ) → List Funds → Bool
has_funds payment call [] = false
has_funds payment call (f ∷ fs) =
    f.payment_id == payment || f.call_ref == call || has_funds payment call fs

-- INSERT INTO v2_payment_fund_reservations, with its primary key and the unique call_ref.
unfoldable pub insert_funds : Funds → PaymentDb → Result PaymentDb
insert_funds f db = do
  require (not (has_funds f.payment_id f.call_ref db.funds)) unique_violation
  ok (record db { funds = f ∷ db.funds })
