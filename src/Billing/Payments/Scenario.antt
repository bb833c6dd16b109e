-- ===== src/Billing/Payments/Scenario.antt =====
-- A call of user 1, who has no money, is admitted by a payment of 300 cents.
use combo.Prelude.Int.{◌+ℤ◌, ◌-ℤ◌}
use combo.Billing.Rows.{
  is_safe, wallet_state_is_safe, to_wallet, available_balance, lock_wallet, find_hold,
  find_hold_by_turn, find_entry, insert_entry,
}
use combo.Prelude.{◌≡◌, refl, false, none, some, [], ◌∷◌}
use combo.Billing.Types.{ok}
use combo.Billing.Payments.{
  Call, waiting, Payment, unknown, PaymentDb, find_call, find_payment, payment_for_call,
  has_channel, complete, has_funds, insert_funds,
}
use combo.Billing.Payments.Confirm.{
  payment_completed, ConfirmInput, is_valid_input, credit_payment, settle_payment, confirm_locked,
  confirm_state, confirm_found, confirm_payment,
}
use combo.Billing.Payments.Create.{
  CreateInput, payment_created, find_token, find_key, await_payment, start_payment, create_found,
  create_by_token, create_payment,
}
use combo.Billing.Payments.Admit.{
  AdmissionInput, FreshIds, find_call_by, find_funds, new_payment, has_token, ask_payment,
  admit_unfunded, admit_funded, admit_new, new_call, insert_call, ensure_call, admit_call_row,
  admit_found, admit_call,
}
use combo.Billing.Payments.Books.Histories.{
  admits, starts, kept, apply_payment_op, payment_history, empty_payments,
}
use combo.Billing.Payments.Attempt.{
  new_attempt, find_attempt, allows_outcome, may_be_kept, find_call_of_hold, AttemptResult,
  attempt_recorded, finish, update_attempt, ensure_attempt, finish_running, finish_found,
  finish_attempt,
}
use combo.Billing.Scenario.{plain_digests, everybody, frozen}

abbrev pub first_ids : FreshIds
first_ids = record { call_row = 40; hold = 41; payment = 42; execution = 43 }

abbrev pub first_call : AdmissionInput
first_call = record {
  user_id = 1;
  agent_id = 2;
  operation_id = 3;
  call_id = 4;
  request_fingerprint = 5;
  pricing_policy_id = 6;
  estimated_amount = 300;
}

abbrev pub first_start : CreateInput
first_start = record { user_id = 1; payment_token = 112; request_key = 7 }

-- The transaction is `t-1`.
abbrev pub first_transfer : ConfirmInput
first_transfer = record {
  payment_request_id = 42;
  channel_transaction_id = 116 ∷ 45 ∷ 49 ∷ [];
  amount_cents = 300;
}

-- The tables with a payment that waits, and after its confirmation.
abbrev pub waiting_tables : PaymentDb
waiting_tables =
    payment_history plain_digests (admits first_ids 10 first_call ∷ starts 20 first_start ∷ [])
      (empty_payments everybody)

abbrev pub paid_tables : PaymentDb
paid_tables = kept (confirm_payment plain_digests first_transfer waiting_tables) waiting_tables

pub transfer_works :
    confirm_payment plain_digests first_transfer waiting_tables
    ≡ ok (payment_completed false, paid_tables)
unfolding payment_history apply_payment_op create_payment create_by_token create_found start_payment
    find_token find_key await_payment admit_call admit_found find_call_by admit_call_row
    find_hold_by_turn ensure_call insert_call find_call admit_new find_funds admit_funded
    admit_unfunded ask_payment has_token find_payment payment_for_call lock_wallet to_wallet is_safe
    wallet_state_is_safe available_balance confirm_payment is_valid_input confirm_found
    confirm_state has_channel confirm_locked settle_payment credit_payment insert_entry find_entry
    insert_funds has_funds complete ◌+ℤ◌ ◌-ℤ◌
transfer_works = refl

-- The call that has the hold of the other scenario, and its attempt.
abbrev held_call : Call
held_call = record (new_call first_ids first_call) { hold_id = some 9 }

abbrev pub running_tables : PaymentDb
running_tables = record (empty_payments everybody) {
  billing = frozen;
  calls = held_call ∷ [];
  attempts = new_attempt 40 1 9 3 ∷ [];
}

abbrev pub lost_result : AttemptResult
lost_result = record { hold_id = 9; outcome = unknown; failure_reason = none }

abbrev pub lost_tables : PaymentDb
lost_tables = record running_tables {
  attempts = record (new_attempt 40 1 9 3) { state = unknown } ∷ [];
}

pub lost_works : finish_attempt lost_result running_tables ≡ ok (attempt_recorded, lost_tables)
unfolding update_attempt may_be_kept find_call finish_attempt find_call_of_hold find_attempt
    finish_found finish_running find_hold allows_outcome ensure_attempt finish
lost_works = refl

-- A payment that is asked for, and its start.
abbrev asked : Payment
asked =
    new_payment plain_digests first_ids (new_call first_ids first_call)
      (empty_payments everybody).billing

abbrev pub asked_tables : PaymentDb
asked_tables = record (empty_payments everybody) { payments = asked ∷ [] }

abbrev pub started : Payment
started = record asked { state = waiting }

abbrev pub started_tables : PaymentDb
started_tables = record asked_tables {
  payments = started ∷ [];
  request_keys = (record { user_id = 1; request_key = 7; payment_id = 42 }) ∷ [];
}

pub start_works :
    create_payment plain_digests 20 first_start asked_tables
    ≡ (payment_created started false, started_tables)
unfolding create_payment create_by_token find_token create_found find_key start_payment
    await_payment
start_works = refl
