-- ===== src/Billing/SettleReplay.antt =====
-- Repeating a settlement of apps/billing/src/repo.ts.
use combo.Billing.Books.Holds.{find_hold-id}
use combo.Billing.Charge.{charge_hold_deductions, settle_hold-IsCharged}
use combo.Prelude.{
  ◌==◌, ==_refl, Bool-cases, ℕ, ◌-◌, ◌≤◌, ◌≡◌, refl, ap, ◌∙◌, inl, inr, Bool, true, false, some,
  List, [], ◌∷◌, arith,
}
use combo.Prelude.Int.{pos}
use combo.Billing.Types.{ok, Wallet, settled, Hold, principal, bonus, Db, Deductions, hold_settled}
use combo.Billing.Rows.{
  max_safe_integer, is_safe, to_wallet, to_hold, lock_wallet, read_wallet, find_hold, set_hold,
}
use combo.Billing.Settle.{
  bonus_part, split_deduction, has_estimated, settled_hold, charge_hold, consumed, replay_settled,
  settle_by, settle_hold,
}
use combo.Billing.SettleTables.{parts, charge_hold_left}

find_hold-set_hold :
    (i actual : ℕ) (hs : List Hold) (row : Hold)
    → find_hold i hs ≡ some row
    → find_hold i (set_hold i settled (some actual) hs) ≡ some (settled_hold row actual)
unfolding find_hold set_hold
find_hold-set_hold i actual [] row f = absurd cc
find_hold-set_hold i actual (g ∷ gs) row f = elim (Bool-cases (g.id == i)) [
  | inl here ↦ ground arith
  | inr there ↦ ground (arith, find_hold-set_hold i actual gs row (ground arith))
]

lock_wallet_rest :
    (u : ℕ) (db : Db) (l : Wallet × Db)
    → lock_wallet u db ≡ ok l
    → (l.1.holds ≡ db.holds) × (l.1.ledger ≡ db.ledger) × (l.1.metering ≡ db.metering)
unfolding lock_wallet to_wallet
lock_wallet_rest u db l h = (ground arith, ground arith, ground arith)

-- The answer to a settlement of a hold that is settled at the same amount.
replay_settled_same :
    (row : Hold) (actual p q : ℕ) (estimate : Bool) (db : Db) (w : Wallet)
    → p ≤ actual
    → q ≤ actual
    → actual ≤ max_safe_integer
    → db.wallets row.user_id ≡ some w
    → to_wallet w ≡ ok w
    → consumed row.id bonus db.ledger ≡ pos p
    → consumed row.id principal db.ledger ≡ pos q
    → has_estimated row.id db.metering ≡ estimate
    → replay_settled (settled_hold row actual) actual db
      ≡ ok (hold_settled (settled_hold row actual) w (parts p q) estimate true, db)
unfolding replay_settled read_wallet is_safe
replay_settled_same row actual p q estimate db w lp lq la wallet valid bonuses principals metered =
    rw (bonuses, principals, metered, wallet, valid) (ground (arith, ==_refl actual))

split_deduction-parts :
    (w : Wallet) (actual : ℕ) (d : Deductions)
    → split_deduction w actual ≡ ok d
    → (d ≡ parts (bonus_part w actual) (actual - bonus_part w actual)) × (actual ≤ max_safe_integer)
unfolding split_deduction
split_deduction-parts w actual d e = (ground arith, ground arith)

settle_hold_found :
    (j hold_id actual : ℕ) (db : Db) (row : Hold)
    → find_hold hold_id db.holds ≡ some row
    → to_hold row ≡ ok row
    → settle_hold j hold_id actual db ≡ settle_by row.status j row actual db
unfolding settle_hold
settle_hold_found j hold_id actual db row found valid = rw (settle_hold, found, valid) refl

-- Where nothing was entered for a hold before, repeating its settlement with the same amount answers
-- with the same hold, wallet, deductions and estimate, marked as replayed, and changes nothing.
pub settle_hold_replay :
    (i j hold_id actual : ℕ) (db : Db) (h : Hold) (w : Wallet) (d : Deductions) (estimate : Bool)
    (db1 : Db)
    → has_estimated hold_id db.metering ≡ false
    → consumed hold_id bonus db.ledger ≡ pos 0
    → consumed hold_id principal db.ledger ≡ pos 0
    → settle_hold i hold_id actual db ≡ ok (hold_settled h w d estimate false, db1)
    → settle_hold j hold_id actual db1 ≡ ok (hold_settled h w d estimate true, db1)
settle_hold_replay i j hold_id actual db h w d estimate db1 none_yet no_bonus no_principal e =
    let c = settle_hold-IsCharged i hold_id actual db h w d estimate db1 e in
    let row = c.row in
    let same : row.id ≡ hold_id = find_hold-id hold_id db.holds row c.found in
    let (same_h, hold, wallet, valid, valid_hold, fits) =
      charge_hold_deductions i row actual c.wallet d c.start h w d estimate false db1 c.charge in
    let (holds, ledger, metering) = lock_wallet_rest row.user_id db (c.wallet, c.start) c.locked in
    let (split, safe) = split_deduction-parts c.wallet actual d c.split in
    let p = bonus_part c.wallet actual in
    let charge : charge_hold i row actual c.wallet (parts p (actual - p)) c.start
        ≡ ok (hold_settled h w (parts p (actual - p)) estimate false, db1) =
      rw split at c.charge in
    let (paid, rows, bonuses, principals, metered) =
      charge_hold_left i row actual c.wallet p (actual - p) c.start h w estimate db1
        (rw (same, metering) none_yet) (rw (same, ledger) no_bonus) (rw (same, ledger) no_principal)
        charge in
    let found : find_hold hold_id db1.holds ≡ some (settled_hold row actual) =
      ap (find_hold hold_id) (
        rows
        ∙ ap (set_hold row.id settled (some actual)) holds
        ∙ ap (λ (n : ℕ). set_hold n settled (some actual) db.holds) same)
      ∙ find_hold-set_hold hold_id actual db.holds row c.found in
    let again =
      replay_settled_same row actual p (actual - p) estimate db1 w (omega arith) (omega arith) safe
        paid valid bonuses principals metered in
    let checked : to_hold (settled_hold row actual) ≡ ok (settled_hold row actual) =
      rw hold at valid_hold in
    rw (hold, split)
      (settle_hold_found j hold_id actual db1 (settled_hold row actual) found checked ∙ again)
