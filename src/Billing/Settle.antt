-- ===== src/Billing/Settle.antt =====
-- `settleHold` of apps/billing/src/repo.ts and `splitDeduction` of service.ts. The id of a metering
-- row that a settlement adds is an argument.
use combo.Prelude.{
  ltb, leb, if◌then◌else◌, same_option, ℕ, ◌-◌, Bool, true, false, not, ◌&&◌, ◌||◌, none, some,
  List, [], ◌∷◌,
}
use combo.Prelude.Int.{ℤ, pos, pos_part, ◌-ℤ◌, ltb_ℤ}
use Prim.Native.Nat.{min}
use combo.Billing.Types.{
  Wallet, Status, held, settled, Hold, consume, Bucket, principal, bonus, settle_key, Entry, Source,
  gateway, agent_report, estimated, estimated_key, Metering, Db, unsafe_range, check_violation,
  type_error, Result, ok, ◌>>=◌, ◌>>◌, require, idempotency_mismatch, balance_range_exceeded,
  Deductions, SettleOutcome, hold_settled, not_found, settle_conflict, invalid_state,
}
use combo.Billing.Rows.{
  max_safe_integer, is_safe, wallet_state_is_safe, to_wallet, to_hold, set_wallet, lock_wallet,
  read_wallet, find_hold, update_hold, same_bucket, insert_entry,
}
use combo.Billing.Metering.{same_source, insert_metering}

-- Math.min(Math.max(bonusBalance, 0), actualAmount).
abbrev pub bonus_part : Wallet → ℕ → ℕ
bonus_part w actual = min (pos_part w.bonus_balance) actual

unfoldable pub split_deduction : Wallet → ℕ → Result Deductions
split_deduction w actual = do
  require (leb actual max_safe_integer) type_error
  ok (record { bonus = pos (bonus_part w actual); principal = pos (actual - bonus_part w actual) })

-- The wallet after the UPDATE of a settlement.
unfoldable pub charged : Wallet → Deductions → ℕ → Wallet
charged w d estimate = record {
  principal_balance = w.principal_balance -ℤ d.principal;
  bonus_balance = w.bonus_balance -ℤ d.bonus;
  held_amount = w.held_amount - estimate;
}

-- The ledger entry of one bucket, written only for a positive deduction.
unfoldable pub consume_entry : Hold → Bucket → ℤ → Db → Result Db
consume_entry h b amount db =
    if ltb_ℤ (pos 0) amount
    then insert_entry
        (record {
          user_id = h.user_id;
          kind = consume;
          bucket = some b;
          amount = pos 0 -ℤ amount;
          ref_id = some h.id;
          key = settle_key h.id b;
        })
        db
    else ok db

-- count(*) of the metering rows of a hold that a caller reported, and EXISTS of an estimated one.
abbrev pub is_reported : Source → Bool
is_reported gateway = true
is_reported agent_report = true
is_reported estimated = false

unfoldable pub has_reported : ℕ → List Metering → Bool
has_reported i [] = false
has_reported i (m ∷ ms) =
    (same_option m.hold_id (some i) && is_reported m.source) || has_reported i ms

unfoldable pub has_estimated : ℕ → List Metering → Bool
has_estimated i [] = false
has_estimated i (m ∷ ms) =
    (same_option m.hold_id (some i) && same_source m.source estimated) || has_estimated i ms

-- Whether a settlement adds the estimated row.
unfoldable pub needs_estimate : Hold → ℕ → Db → Bool
needs_estimate h actual db = not (has_reported h.id db.metering) && ltb 0 actual

unfoldable pub add_estimate : ℕ → Hold → ℕ → Db → Result Db
add_estimate i h actual db =
    if needs_estimate h actual db
    then insert_metering
        (record {
          id = i;
          agent_id = h.agent_id;
          user_id = h.user_id;
          turn_id = h.turn_id;
          hold_id = some h.id;
          dimension = none;
          quantity = actual;
          model = none;
          unit_cost = none;
          source = estimated;
          key = estimated_key h.id;
        })
        db
    else ok db

abbrev pub settled_hold : Hold → ℕ → Hold
settled_hold h actual = record h { status = settled; actual_amount = some actual }

-- The writes of a settlement that is in range.
unfoldable pub charge_hold : ℕ → Hold → ℕ → Wallet → Deductions → Db → Result (SettleOutcome × Db)
charge_hold i h actual w d db = do
  require (leb h.estimated_amount w.held_amount) check_violation
  let w1 = charged w d h.estimated_amount
  db1 ← consume_entry h bonus d.bonus (set_wallet h.user_id w1 db)
  db2 ← consume_entry h principal d.principal db1
  db3 ← add_estimate i h actual db2
  db4 ← update_hold h.id settled (some actual) db3
  h1 ← to_hold (settled_hold h actual)
  w2 ← to_wallet w1
  ok (hold_settled h1 w2 d (needs_estimate h actual db2) false, db4)

-- A hold that is still held.
unfoldable pub settle_held : ℕ → Hold → ℕ → Db → Result (SettleOutcome × Db)
settle_held i h actual db = do
  l ← lock_wallet h.user_id db
  d ← split_deduction l.0 actual
  (if not (
        wallet_state_is_safe (l.0.principal_balance -ℤ d.principal) (l.0.bonus_balance -ℤ d.bonus)
          (pos l.0.held_amount -ℤ pos h.estimated_amount))
      then ok (settle_conflict balance_range_exceeded, l.1)
      else charge_hold i h actual l.0 d l.1)

-- sum(-amount) of the consume entries of a hold in one bucket; 0 where there is none.
unfoldable pub consumed : ℕ → Bucket → List Entry → ℤ
consumed i b [] = pos 0
consumed i b (e ∷ es) =
    let rest = consumed i b es in
    elim e.kind [
      | consume ↦ elim e.bucket [
        | none ↦ rest
        | some c ↦
            if same_option e.ref_id (some i) && same_bucket c b then rest -ℤ e.amount else rest
      ]
      | _ ↦ rest
    ]

abbrev pub replayed_deductions : Hold → Db → Deductions
replayed_deductions h db = record {
  bonus = consumed h.id bonus db.ledger;
  principal = consumed h.id principal db.ledger;
}

-- A hold that is settled already.
unfoldable pub replay_settled : Hold → ℕ → Db → Result (SettleOutcome × Db)
replay_settled h actual db =
    if not (same_option h.actual_amount (some actual))
    then ok (settle_conflict idempotency_mismatch, db)
    else do
      w ← read_wallet h.user_id db
      let d = replayed_deductions h db
      require (is_safe d.bonus && is_safe d.principal) unsafe_range
      ok (hold_settled h w d (has_estimated h.id db.metering) true, db)

abbrev pub settle_by : Status → ℕ → Hold → ℕ → Db → Result (SettleOutcome × Db)
settle_by settled i h actual db = replay_settled h actual db
settle_by held i h actual db = settle_held i h actual db
settle_by _ i h actual db = ok (invalid_state h, db)

unfoldable pub settle_hold : ℕ → ℕ → ℕ → Db → Result (SettleOutcome × Db)
settle_hold i hold_id actual db = elim (find_hold hold_id db.holds) [
  | none ↦ ok (not_found, db)
  | some row ↦ (to_hold row >>= λ h. settle_by h.status i h actual db)
]
