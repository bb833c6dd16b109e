-- ===== src/Billing/Scenario.antt =====
-- A store in which user 1 recharges 1000 cents, holds 300, and settles at 200; and one in which the
-- hold expires.
use combo.Billing.Books.History.{
  recharges, apply_op, history, empty_db, history-empty_db-IsBalanced,
}
use combo.Billing.Books.Grant.{create_hold-IsBalanced}
use combo.Billing.Books.{IsBalanced}
use combo.Billing.Sweep.{
  is_due, due, insert_by_expiry, sort_by_expiry, limit_to, select_expired, unfreeze, expire_hold,
  expire_holds, sweep_expired_holds,
}
use combo.Billing.Settle.{
  split_deduction, charged, consume_entry, has_reported, needs_estimate, add_estimate, charge_hold,
  settle_held, settle_hold,
}
use combo.Billing.Metering.{MeteringInput, find_metering, insert_metering, new_metering}
use combo.Billing.Hold.{
  HoldInput, place_hold, open_hold, create_hold_tx, create_hold, RechargeInput, credit,
  admin_recharge,
}
use combo.Billing.Rows.{
  is_safe, wallet_state_is_safe, to_wallet, to_hold, available_balance, zero_wallet, set_wallet,
  lock_wallet, find_hold, find_hold_by_turn, insert_hold, set_hold, update_hold, find_entry,
  insert_entry,
}
use combo.Billing.Types.{
  ok, Wallet, held, settled, expired, Hold, recharge, consume, hold_entry, release, principal,
  hold_key, settle_key, release_key, recharge_key, Entry, gateway, estimated, estimated_key,
  Metering, Db, Digests, hold_placed, Deductions, hold_settled, credited,
}
use combo.Prelude.Int.{pos, negsuc, ◌+ℤ◌, ◌-ℤ◌, neg_ℕ}
use combo.Prelude.{ℕ, ◌+◌, ◌*◌, ◌≡◌, refl, Bool, true, false, none, some, [], ◌∷◌}

abbrev pub plain_digests : Digests
plain_digests = record {
  of_text = λ n. n;
  of_turn = λ a t. a * 100 + t;
  of_payment = λ i. 500 + i;
  issue_token = λ i. 70 + i;
  of_token = λ t. 9000 + t;
}

abbrev pub first_recharge : RechargeInput
first_recharge = record { user_id = 1; amount = 1000; idempotency_key = 5; ref_id = none }

abbrev pub first_hold : HoldInput
first_hold = record {
  user_id = 1;
  agent_id = 2;
  turn_id = 3;
  estimated_amount = 300;
  overdraft_hard_limit_cents = 0;
}

abbrev pub first_event : MeteringInput
first_event = record {
  agent_id = 2;
  user_id = 1;
  turn_id = 3;
  hold_id = some 9;
  dimension = 1;
  quantity = 50;
  model = none;
  unit_cost = none;
  source = gateway;
  idempotency_key = 6;
}

abbrev pub nobody : ℕ → Bool
nobody _ = false

abbrev pub everybody : ℕ → Bool
everybody _ = true

abbrev pub empty : Db
empty = empty_db everybody (λ _ _. false)

abbrev pub rich : Wallet
rich = record { principal_balance = pos 1000; bonus_balance = pos 0; held_amount = 0 }

abbrev pub recharge_entry : Entry
recharge_entry = record {
  user_id = 1;
  kind = recharge;
  bucket = some principal;
  amount = pos 1000;
  ref_id = none;
  key = recharge_key 5;
}

-- The store after the recharge.
abbrev pub funded : Db
funded = record (set_wallet 1 rich (set_wallet 1 zero_wallet empty)) {
  ledger = recharge_entry ∷ [];
}

pub recharge_works :
    admin_recharge plain_digests first_recharge empty ≡ ok (credited rich false, funded)
unfolding admin_recharge credit lock_wallet to_wallet is_safe wallet_state_is_safe insert_entry
    find_entry ◌+ℤ◌ ◌-ℤ◌
recharge_works = refl

pub funded-IsBalanced : IsBalanced funded
unfolding history apply_op admin_recharge credit lock_wallet to_wallet is_safe wallet_state_is_safe
    insert_entry find_entry ◌+ℤ◌ ◌-ℤ◌
funded-IsBalanced =
    history-empty_db-IsBalanced plain_digests everybody (λ _ _. false)
      (recharges first_recharge ∷ [])

abbrev pub holding : Wallet
holding = record { principal_balance = pos 1000; bonus_balance = pos 0; held_amount = 300 }

abbrev pub held_row : Hold
held_row = record {
  id = 9;
  user_id = 1;
  agent_id = 2;
  turn_id = 3;
  estimated_amount = 300;
  actual_amount = none;
  status = held;
  expires_at = 300;
}

abbrev pub hold_row_entry : Entry
hold_row_entry = record {
  user_id = 1;
  kind = hold_entry;
  bucket = none;
  amount = pos 300;
  ref_id = some 9;
  key = hold_key 203;
}

-- The store after the hold.
abbrev pub frozen : Db
frozen = record (set_wallet 1 holding funded) {
  holds = held_row ∷ [];
  ledger = hold_row_entry ∷ recharge_entry ∷ [];
}

pub hold_works :
    create_hold plain_digests 9 first_hold funded ≡ ok (hold_placed held_row holding false, frozen)
unfolding create_hold create_hold_tx open_hold place_hold insert_hold find_hold find_hold_by_turn
    available_balance to_hold lock_wallet to_wallet is_safe wallet_state_is_safe insert_entry
    find_entry ◌+ℤ◌ ◌-ℤ◌ neg_ℕ
hold_works = refl

pub frozen-IsBalanced : IsBalanced frozen
frozen-IsBalanced =
    create_hold-IsBalanced plain_digests 9 first_hold funded
      (hold_placed held_row holding false, frozen) funded-IsBalanced hold_works

abbrev pub spent : Wallet
spent = record { principal_balance = pos 800; bonus_balance = pos 0; held_amount = 0 }

abbrev pub settled_row : Hold
settled_row = record held_row { status = settled; actual_amount = some 200 }

abbrev pub consume_row_entry : Entry
consume_row_entry = record {
  user_id = 1;
  kind = consume;
  bucket = some principal;
  amount = negsuc 199;
  ref_id = some 9;
  key = settle_key 9 principal;
}

abbrev pub estimated_row : Metering
estimated_row = record {
  id = 20;
  agent_id = 2;
  user_id = 1;
  turn_id = 3;
  hold_id = some 9;
  dimension = none;
  quantity = 200;
  model = none;
  unit_cost = none;
  source = estimated;
  key = estimated_key 9;
}

abbrev pub principal_only : Deductions
principal_only = record { bonus = pos 0; principal = pos 200 }

-- The store after the settlement, which nothing had metered.
abbrev pub closed : Db
closed = record (set_wallet 1 spent frozen) {
  holds = settled_row ∷ [];
  ledger = consume_row_entry ∷ hold_row_entry ∷ recharge_entry ∷ [];
  metering = estimated_row ∷ [];
}

pub settle_works :
    settle_hold 20 9 200 frozen
    ≡ ok (hold_settled settled_row spent principal_only true false, closed)
unfolding settle_hold settle_held charge_hold split_deduction charged consume_entry add_estimate
    needs_estimate has_reported insert_metering find_metering update_hold set_hold find_hold to_hold
    lock_wallet to_wallet is_safe wallet_state_is_safe insert_entry find_entry ◌+ℤ◌ ◌-ℤ◌ neg_ℕ
settle_works = refl

-- The store after an event of the hold.
abbrev pub metered : Db
metered = record frozen { metering = new_metering plain_digests 21 first_event ∷ [] }

abbrev pub late : Db
late = record frozen { now = 400 }

abbrev pub expired_row : Hold
expired_row = record held_row { status = expired }

abbrev pub release_row_entry : Entry
release_row_entry = record {
  user_id = 1;
  kind = release;
  bucket = none;
  amount = pos 300;
  ref_id = some 9;
  key = release_key 9;
}

-- The store after a sweep at 400 seconds.
abbrev pub swept : Db
swept = record (set_wallet 1 rich late) {
  holds = expired_row ∷ [];
  ledger = release_row_entry ∷ hold_row_entry ∷ recharge_entry ∷ [];
}

pub sweep_works : sweep_expired_holds nobody 10 late ≡ ok (1, swept)
unfolding is_safe sweep_expired_holds select_expired due is_due sort_by_expiry insert_by_expiry
    limit_to expire_holds expire_hold unfreeze update_hold set_hold find_hold to_hold insert_entry
    find_entry
sweep_works = refl

pub late-IsBalanced : IsBalanced late
late-IsBalanced = record {
  backs_held = frozen-IsBalanced.backs_held;
  backs_principal = frozen-IsBalanced.backs_principal;
  backs_bonus = frozen-IsBalanced.backs_bonus;
  is_keyed = frozen-IsBalanced.is_keyed;
}
