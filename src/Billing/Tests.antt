-- ===== src/Billing/Tests.antt =====
-- The theorems on apps/billing/src/repo.ts at the stores of Scenario.
use combo.Prelude.Outcomes.{ok}
use combo.Billing.Payments.Found.{create_payment-find_request}
use combo.Billing.Payments.Create.{find_request}
use combo.Billing.Payments.{Payment, succeeded}
use combo.Billing.Payments.Ended.{finish_attempt_final}
use combo.Billing.Payments.Attempt.{attempt_conflict, finish_attempt}
use combo.Billing.Payments.Confirm.{payment_completed, confirm_payment}
use combo.Billing.Payments.Books.Places.{IsSound}
use combo.Billing.Payments.Books.Histories.{
  admits, starts, confirms, gives_back, passes, payment_history, empty_payments,
  payment_history-empty_payments-IsSound,
}
use combo.Billing.Payments.Once.{confirm_payment_replay}
use combo.Billing.Payments.Scenario.{
  first_ids, first_call, first_start, first_transfer, waiting_tables, paid_tables, transfer_works,
  running_tables, lost_result, lost_tables, lost_works, asked_tables, started, started_tables,
  start_works,
}
use combo.Billing.Settle.{has_estimated, consumed, settle_hold}
use combo.Billing.SettleReplay.{settle_hold_replay}
use combo.Billing.MeterReplay.{insert_metering_event_replay}
use combo.Billing.Scenario.{
  plain_digests, first_recharge, first_hold, first_event, nobody, everybody, empty, rich, funded,
  recharge_works, holding, held_row, frozen, hold_works, spent, settled_row, principal_only, closed,
  settle_works, metered, late, expired_row, swept, sweep_works, late-IsBalanced,
}
use combo.Billing.Funds.{create_hold_funds, settle_hold_funds}
use combo.Billing.Replay.{create_hold_replay, admin_recharge_replay}
use combo.Billing.Books.History.{
  creates, recharges, settles, meters, sweeps, waits, history, history-empty_db-IsBalanced,
}
use combo.Billing.Books.Sweep.{IsExpiredIn, IsDue, sweep_expired_holds_lem}
use combo.Billing.Books.{IsBalanced}
use combo.Billing.Sweep.{select_expired}
use combo.Billing.Metering.{find_metering, insert_metering, check_hold, insert_metering_event}
use combo.Billing.Hold.{create_hold, admin_recharge}
use combo.Billing.Rows.{to_hold, net, available_balance, find_hold}
use combo.Billing.Types.{
  ok, idempotency_mismatch, hold_placed, hold_settled, recharge_conflict, recorded,
}
use combo.Prelude.Int.{pos, ◌+ℤ◌, ◌-ℤ◌, neg_ℕ, ◌≤ℤ◌}
use combo.Prelude.{length, All, ◌+◌, ◌≤◌, ◌≡◌, refl, ◌⊎◌, true, false, some, [], ◌∷◌, arith}

settle_hold_funds_example :
    (pos 0 +ℤ pos 200 ≡ pos 200)
    × (pos 0 ≡ pos 0 -ℤ pos 0)
    × (pos 800 ≡ pos 1000 -ℤ pos 200)
    × (spent.held_amount + 300 ≡ 300)
    × (pos 0 ≤ℤ pos 0)
    × (pos 0 ≤ℤ pos 200)
    × ((pos 0 ≡ pos 0) ⊎ (pos 0 ≤ℤ pos 0))
    × ((pos 200 ≡ pos 0) ⊎ (pos 0 ≤ℤ pos 0))
    × (closed.wallets 1 ≡ some spent)
settle_hold_funds_example =
    settle_hold_funds 20 9 200 frozen settled_row spent principal_only true closed settle_works

create_hold_funds_example :
    (pos 0 ≤ℤ available_balance holding)
    × (neg_ℕ 0 ≤ℤ net holding)
    × (held_row.estimated_amount ≡ 300)
    × (holding.held_amount ≡ 0 + 300)
    × (pos 1000 ≡ pos 1000)
    × (pos 0 ≡ pos 0)
    × (frozen.wallets 1 ≡ some holding)
create_hold_funds_example =
    create_hold_funds plain_digests 9 first_hold funded held_row holding frozen hold_works

create_hold_replay_example :
    create_hold plain_digests 10 first_hold frozen ≡ ok (hold_placed held_row holding true, frozen)
create_hold_replay_example =
    create_hold_replay plain_digests 9 10 first_hold funded held_row holding frozen hold_works

admin_recharge_replay_example :
    admin_recharge plain_digests (record first_recharge { amount = 7 }) funded
    ≡ ok (recharge_conflict idempotency_mismatch, funded)
admin_recharge_replay_example =
    admin_recharge_replay plain_digests first_recharge (record first_recharge { amount = 7 }) empty
      rich funded (omega arith) recharge_works refl

sweep_expired_holds_lem_example :
    (1 ≡ length (select_expired nobody 10 late))
    × (1 ≤ 10)
    × All (IsDue nobody 400) (select_expired nobody 10 late)
    × All (λ row. IsExpiredIn (expired_row ∷ []) row.id) (select_expired nobody 10 late)
sweep_expired_holds_lem_example =
    sweep_expired_holds_lem nobody 10 late (1, swept) late-IsBalanced.is_keyed sweep_works

history-empty_db-IsBalanced_example : IsBalanced (
    history plain_digests
      (recharges first_recharge
        ∷ creates 9 first_hold
        ∷ meters 21 first_event
        ∷ settles 20 9 200
        ∷ creates 10 first_hold
        ∷ waits 400
        ∷ sweeps nobody 10
        ∷ [])
      empty)
history-empty_db-IsBalanced_example =
    history-empty_db-IsBalanced plain_digests everybody (λ _ _. false)
      (recharges first_recharge
        ∷ creates 9 first_hold
        ∷ meters 21 first_event
        ∷ settles 20 9 200
        ∷ creates 10 first_hold
        ∷ waits 400
        ∷ sweeps nobody 10
        ∷ [])

insert_metering_event_replay_example :
    insert_metering_event plain_digests 22 first_event metered ≡ ok (recorded 21 true, metered)
unfolding insert_metering_event check_hold insert_metering find_metering find_hold to_hold
insert_metering_event_replay_example =
    insert_metering_event_replay plain_digests 21 22 first_event frozen 21 metered refl

settle_hold_replay_example :
    settle_hold 30 9 200 closed
    ≡ ok (hold_settled settled_row spent principal_only true true, closed)
unfolding has_estimated consumed
settle_hold_replay_example =
    settle_hold_replay 20 30 9 200 frozen settled_row spent principal_only true closed refl refl
      refl settle_works

payment_history-empty_payments-IsSound_example : IsSound (
    payment_history plain_digests
      (admits first_ids 10 first_call
        ∷ starts 20 first_start
        ∷ confirms first_transfer
        ∷ confirms first_transfer
        ∷ admits first_ids 30 first_call
        ∷ passes 604800
        ∷ gives_back 10
        ∷ [])
      (empty_payments everybody))
payment_history-empty_payments-IsSound_example =
    payment_history-empty_payments-IsSound plain_digests everybody (
      admits first_ids 10 first_call
      ∷ starts 20 first_start
      ∷ confirms first_transfer
      ∷ confirms first_transfer
      ∷ admits first_ids 30 first_call
      ∷ passes 604800
      ∷ gives_back 10
      ∷ [])

confirm_payment_replay_example :
    confirm_payment plain_digests first_transfer paid_tables
    ≡ ok (payment_completed true, paid_tables)
confirm_payment_replay_example =
    confirm_payment_replay plain_digests first_transfer waiting_tables paid_tables transfer_works

finish_attempt_final_example :
    finish_attempt (record lost_result { outcome = succeeded }) lost_tables
    ≡ ok (attempt_conflict, lost_tables)
finish_attempt_final_example =
    finish_attempt_final lost_result (record lost_result { outcome = succeeded }) running_tables
      lost_tables refl refl lost_works

create_payment-find_request_example :
    (q : Payment) × (find_request 1 7 started_tables ≡ some q) × (q.id ≡ 42)
create_payment-find_request_example =
    create_payment-find_request plain_digests 20 first_start asked_tables started_tables started
      false start_works
