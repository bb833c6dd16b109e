-- ===== src/Billing/Hold.antt =====
-- `createHold` and `adminRecharge` of apps/billing/src/repo.ts. The id that gen_uuid_v7 gives the
-- new hold is an argument.
use combo.Prelude.{
  ◌==◌, if◌then◌else◌, same_option, ℕ, ◌+◌, Bool, true, false, not, ◌&&◌, Option, none, some,
}
use combo.Prelude.Int.{ℤ, pos, negsuc, ◌+ℤ◌, neg_ℕ, ltb_ℤ}
use combo.Billing.Types.{
  Wallet, held, Hold, Kind, recharge, hold_entry, Bucket, principal, hold_key, recharge_key, Entry,
  Db, Digests, unsafe_range, unique_violation, Result, ok, err, ◌>>=◌, ◌>>◌, require,
  idempotency_mismatch, terminal_replay, balance_range_exceeded, HoldOutcome, hold_placed,
  hold_conflict, hold_invalid_user, insufficient, overdraft_blocked, RechargeOutcome, credited,
  recharge_invalid_user, recharge_conflict,
}
use combo.Billing.Rows.{
  is_safe, wallet_state_is_safe, to_wallet, to_hold, net, available_balance, is_held, set_wallet,
  lock_wallet, read_wallet, find_hold_by_turn, insert_hold, find_entry, insert_entry,
}

pub record HoldInput : Type 0 where
  pub user_id : ℕ
  pub agent_id : ℕ
  pub turn_id : ℕ
  pub estimated_amount : ℕ
  pub overdraft_hard_limit_cents : ℕ

-- interval '5 minutes', in the seconds of HOLD_TTL_SECONDS.
abbrev pub hold_ttl_seconds : ℕ
hold_ttl_seconds = 300

-- `replayHold`.
unfoldable pub replay_hold : Hold → HoldInput → Db → Result HoldOutcome
replay_hold h input db =
    if not (h.user_id == input.user_id && h.estimated_amount == input.estimated_amount)
    then ok (hold_conflict idempotency_mismatch)
    else if not (is_held h.status)
    then ok (hold_conflict terminal_replay)
    else (read_wallet h.user_id db >>= λ w. ok (hold_placed h w true))

abbrev pub new_hold : ℕ → HoldInput → Db → Hold
new_hold i input db = record {
  id = i;
  user_id = input.user_id;
  agent_id = input.agent_id;
  turn_id = input.turn_id;
  estimated_amount = input.estimated_amount;
  actual_amount = none;
  status = held;
  expires_at = db.now + hold_ttl_seconds;
}

-- The three writes of a hold that is granted; `w` is the locked wallet.
unfoldable pub place_hold : Digests → ℕ → HoldInput → Wallet → Db → Result (HoldOutcome × Db)
place_hold digests i input w db = do
  db1 ← insert_hold (new_hold i input db) db
  h ← to_hold (new_hold i input db)
  let w1 = record w { held_amount = w.held_amount + input.estimated_amount }
  db2 ←
      insert_entry
        (record {
          user_id = input.user_id;
          kind = hold_entry;
          bucket = none;
          amount = pos input.estimated_amount;
          ref_id = some i;
          key = hold_key (digests.of_turn input.agent_id input.turn_id);
        })
        (set_wallet input.user_id w1 db1)
  w2 ← to_wallet w1
  ok (hold_placed h w2 false, db2)

-- The balance checks, in their order.
unfoldable pub open_hold : Digests → ℕ → HoldInput → Wallet → Db → Result (HoldOutcome × Db)
open_hold digests i input w db =
    if ltb_ℤ (net w) (neg_ℕ input.overdraft_hard_limit_cents)
    then ok (overdraft_blocked w, db)
    else if ltb_ℤ (available_balance w) (pos input.estimated_amount)
    then ok (insufficient w, db)
    else place_hold digests i input w db

-- The transaction of `createHold`.
unfoldable pub create_hold_tx : Digests → ℕ → HoldInput → Db → Result (HoldOutcome × Db)
create_hold_tx digests i input db =
    if db.billable input.agent_id input.turn_id
    then ok (hold_conflict idempotency_mismatch, db)
    else elim (find_hold_by_turn input.agent_id input.turn_id db.holds) [
      | some row ↦ do h ← to_hold row; outcome ← replay_hold h input db; ok (outcome, db)
      | none ↦
          if not (db.users input.user_id)
          then ok (hold_invalid_user, db)
          else (lock_wallet input.user_id db >>= λ l. open_hold digests i input l.0 l.1)
    ]

-- The transaction that `createHold` runs after a unique violation.
unfoldable pub reread_hold : HoldInput → Db → Result (HoldOutcome × Db)
reread_hold input db = elim (find_hold_by_turn input.agent_id input.turn_id db.holds) [
  | none ↦ err unique_violation
  | some row ↦ do h ← to_hold row; outcome ← replay_hold h input db; ok (outcome, db)
]

abbrev pub catch_unique {ℓ} : {A : Type ℓ} → Result A → Result A → Result A
catch_unique (err unique_violation) retry = retry
catch_unique r retry = r

unfoldable pub create_hold : Digests → ℕ → HoldInput → Db → Result (HoldOutcome × Db)
unfolding create_hold_tx reread_hold
create_hold digests i input db =
    catch_unique (create_hold_tx digests i input db) (reread_hold input db)

pub record RechargeInput : Type 0 where
  pub user_id : ℕ
  pub amount : ℕ
  pub idempotency_key : ℕ
  pub ref_id : Option ℕ

abbrev is_recharge : Kind → Bool
is_recharge recharge = true
is_recharge _ = false

abbrev is_principal : Option Bucket → Bool
is_principal (some principal) = true
is_principal _ = false

abbrev pub eq_ℤ : ℤ → ℤ → Bool
eq_ℤ (pos a) (pos b) = a == b
eq_ℤ (negsuc a) (negsuc b) = a == b
eq_ℤ _ _ = false

-- The kind, the bucket and the user of the entry under the key.
unfoldable pub is_recharge_of : Entry → RechargeInput → Bool
is_recharge_of e input = is_recharge e.kind && (is_principal e.bucket && e.user_id == input.user_id)

unfoldable pub credit : Digests → RechargeInput → Wallet → Db → Result (RechargeOutcome × Db)
credit digests input w db =
    if not (
      wallet_state_is_safe (w.principal_balance +ℤ pos input.amount) w.bonus_balance
        (pos w.held_amount))
    then ok (recharge_conflict balance_range_exceeded, db)
    else do
      let w1 = record w { principal_balance = w.principal_balance +ℤ pos input.amount }
      db1 ←
          insert_entry
            (record {
              user_id = input.user_id;
              kind = recharge;
              bucket = some principal;
              amount = pos input.amount;
              ref_id = input.ref_id;
              key = recharge_key (digests.of_text input.idempotency_key);
            })
            (set_wallet input.user_id w1 db)
      w2 ← to_wallet w1
      ok (credited w2 false, db1)

unfoldable pub replay_recharge : Entry → RechargeInput → Db → Result (RechargeOutcome × Db)
unfolding is_recharge_of
replay_recharge e input db =
    if not (is_recharge_of e input) then ok (recharge_conflict idempotency_mismatch, db) else do
      require (is_safe e.amount) unsafe_range
      (if eq_ℤ e.amount (pos input.amount) && same_option e.ref_id input.ref_id
          then (read_wallet e.user_id db >>= λ w. ok (credited w true, db))
          else ok (recharge_conflict idempotency_mismatch, db))

unfoldable pub admin_recharge : Digests → RechargeInput → Db → Result (RechargeOutcome × Db)
unfolding replay_recharge
admin_recharge digests input db =
    elim (find_entry (recharge_key (digests.of_text input.idempotency_key)) db.ledger) [
      | some e ↦ replay_recharge e input db
      | none ↦
          if not (db.users input.user_id)
          then ok (recharge_invalid_user, db)
          else (lock_wallet input.user_id db >>= λ l. credit digests input l.0 l.1)
    ]
