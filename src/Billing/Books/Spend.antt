-- ===== src/Billing/Books/Spend.antt =====
-- `settleHold`, `insertMeteringEvent` and `sweepExpiredHolds` of apps/billing/src/repo.ts keep the
-- books balanced.
use combo.Billing.Books.Grant.{lock_wallet-IsBalanced}
use combo.Billing.Books.Holds.{held_sum-set_hold, IsKeyed-set_hold, find_hold-id, to_hold_same}
use combo.Prelude.{
  leb, ◌==◌, if◌then◌else◌, Bool-cases, Option-cases, ℕ, ◌-◌, ◌≡◌, refl, ap, ◌∙◌, subst, inl, inr,
  true, ◌&&◌, Option, some, arith,
}
use combo.Prelude.Int.{pos, ◌-ℤ◌, neg_ℕ, int_laws, neg_ℕ-+ℤ, -ℤ-zero}
use combo.Billing.Types.{
  ok, require, >>=-eq-ok, Wallet, Status, held, settled, released, expired, Hold, Bucket, principal,
  bonus, Metering, Db, Digests, check_violation, Deductions, SettleOutcome, MeteringOutcome,
}
use combo.Billing.Rows.{
  wallet_state_is_safe, to_wallet, to_hold, is_held, set_wallet, lock_wallet, find_hold, set_hold,
  update_hold, same_bucket, insert_entry,
}
use combo.Billing.Metering.{MeteringInput, insert_metering, insert_metering_event}
use combo.Billing.Settle.{
  bonus_part, split_deduction, charged, consume_entry, add_estimate, charge_hold, settle_held,
  replay_settled, settle_by, settle_hold,
}
use combo.Billing.Books.{held_sum, ledger_sum, IsBalanced}

-- What a metering row changes: nothing that the books are about.
insert_metering_unchanged :
    (m : Metering) (db db1 : Db)
    → insert_metering m db ≡ ok db1
    → (db1.wallets ≡ db.wallets) × (db1.holds ≡ db.holds) × (db1.ledger ≡ db.ledger)
unfolding insert_metering
insert_metering_unchanged m db db1 h = (ground arith, ground arith, ground arith)

add_estimate_unchanged :
    (i : ℕ) (h : Hold) (actual : ℕ) (db db1 : Db)
    → add_estimate i h actual db ≡ ok db1
    → (db1.wallets ≡ db.wallets) × (db1.holds ≡ db.holds) × (db1.ledger ≡ db.ledger)
unfolding add_estimate insert_metering
add_estimate_unchanged i h actual db db1 e = (ground arith, ground arith, ground arith)

zero-sub : (n : ℕ) → pos 0 -ℤ pos n ≡ neg_ℕ n
zero-sub n = omega int_laws

-- The ledger after the entry of one bucket.
consume_entry_lem :
    (h : Hold) (b : Bucket) (n : ℕ) (db db1 : Db)
    → consume_entry h b (pos n) db ≡ ok db1
    → (db1.wallets ≡ db.wallets)
      × (db1.holds ≡ db.holds)
      × ((u : ℕ) (c : Bucket)
          → ledger_sum u c db1.ledger ≡ (
              if h.user_id == u && same_bucket b c
              then ledger_sum u c db.ledger -ℤ pos n
              else ledger_sum u c db.ledger))
unfolding consume_entry insert_entry ledger_sum
consume_entry_lem h b n db db1 e = (
  ground arith,
  ground arith,
  λ u c. ground (
    arith,
    neg_ℕ-+ℤ n (ledger_sum u c db.ledger),
    -ℤ-zero (ledger_sum u c db.ledger),
    zero-sub n,
  ),
)

update_hold_lem :
    (i : ℕ) (st : Status) (actual : Option ℕ) (db db1 : Db)
    → update_hold i st actual db ≡ ok db1
    → (db1.wallets ≡ db.wallets)
      × (db1.holds ≡ set_hold i st actual db.holds)
      × (db1.ledger ≡ db.ledger)
unfolding update_hold
update_hold_lem i st actual db db1 h = (ground arith, ground arith, ground arith)

abbrev pub both : ℕ → ℕ → Deductions
both p q = record { bonus = pos p; principal = pos q }

abbrev pub with_charge : Hold → Wallet → ℕ → ℕ → Db → Db
with_charge h w p q db = set_wallet h.user_id (charged w (both p q) h.estimated_amount) db

-- What a settlement writes, table by table.
pub charge_hold_lem :
    (i : ℕ) (h : Hold) (actual : ℕ) (w : Wallet) (p q : ℕ) (db : Db) (r : SettleOutcome × Db)
    → charge_hold i h actual w (both p q) db ≡ ok r
    → (leb h.estimated_amount w.held_amount ≡ true)
      × (r.1.wallets ≡ (with_charge h w p q db).wallets)
      × (r.1.holds ≡ set_hold h.id settled (some actual) db.holds)
      × ((u : ℕ)
          → ledger_sum u bonus r.1.ledger ≡ (
              if h.user_id == u
              then ledger_sum u bonus db.ledger -ℤ pos p
              else ledger_sum u bonus db.ledger))
      × ((u : ℕ)
          → ledger_sum u principal r.1.ledger ≡ (
              if h.user_id == u
              then ledger_sum u principal db.ledger -ℤ pos q
              else ledger_sum u principal db.ledger))
unfolding charge_hold to_hold to_wallet
charge_hold_lem i h actual w p q db r s =
    let x0 = >>=-eq-ok (require (leb h.estimated_amount w.held_amount) check_violation) _ s in
    let start = with_charge h w p q db in
    let x1 = >>=-eq-ok (consume_entry h bonus (pos p) start) _ x0.2 in
    let x2 = >>=-eq-ok (consume_entry h principal (pos q) x1.0) _ x1.2 in
    let x3 = >>=-eq-ok (add_estimate i h actual x2.0) _ x2.2 in
    let x4 = >>=-eq-ok (update_hold h.id settled (some actual) x3.0) _ x3.2 in
    let y1 = consume_entry_lem h bonus p start x1.0 x1.1 in
    let y2 = consume_entry_lem h principal q x1.0 x2.0 x2.1 in
    let y3 = add_estimate_unchanged i h actual x2.0 x3.0 x3.1 in
    let y4 = update_hold_lem h.id settled (some actual) x3.0 x4.0 x4.1 in
    let rest = x4.2 in
    let last : r.1 ≡ x4.0 = ground arith in
    (
      ground arith,
      ap (λ (d : Db). d.wallets) last ∙ y4.0 ∙ y3.0 ∙ y2.0 ∙ y1.0,
      cc,
      λ u. ground (arith, y1.2 u bonus, y2.2 u bonus),
      λ u. ground (arith, y1.2 u principal, y2.2 u principal),
    )

charge_hold-IsBalanced :
    (i : ℕ) (h : Hold) (actual : ℕ) (w : Wallet) (p q : ℕ) (db : Db) (r : SettleOutcome × Db)
    → IsBalanced db
    → find_hold h.id db.holds ≡ some h
    → is_held h.status ≡ true
    → db.wallets h.user_id ≡ some w
    → charge_hold i h actual w (both p q) db ≡ ok r
    → IsBalanced r.1
unfolding charged
charge_hold-IsBalanced i h actual w p q db r b f k e s =
    let (fits, wallets, holds, bonuses, principals) = charge_hold_lem i h actual w p q db r s in
    let at = λ (v : ℕ). ap (λ (g : ℕ → Option Wallet). g v) wallets in
    record {
      backs_held = λ v. ground (
        arith,
        b.backs_held v,
        at v,
        held_sum-set_hold v h.id settled (some actual) db.holds h f k refl,
        ap (held_sum v) holds,
      );
      backs_principal = λ v. ground (arith, b.backs_principal v, at v, principals v);
      backs_bonus = λ v. ground (arith, b.backs_bonus v, at v, bonuses v);
      is_keyed = rw holds (IsKeyed-set_hold h.id settled (some actual) db.holds b.is_keyed);
    }

settle_held-IsBalanced :
    (i : ℕ) (h : Hold) (actual : ℕ) (db : Db) (r : SettleOutcome × Db)
    → IsBalanced db
    → find_hold h.id db.holds ≡ some h
    → is_held h.status ≡ true
    → settle_held i h actual db ≡ ok r
    → IsBalanced r.1
unfolding settle_held split_deduction
settle_held-IsBalanced i h actual db r b f k s =
    let x0 = >>=-eq-ok (lock_wallet h.user_id db) _ s in
    let (balanced, row, holds, ledger, metering) =
      lock_wallet-IsBalanced h.user_id db x0.0 b x0.1 in
    let x1 = >>=-eq-ok (split_deduction x0.0.0 actual) _ x0.2 in
    let p = bonus_part x0.0.0 actual in
    let rest = x1.2 in
    let parts : x1.0 ≡ both p (actual - p) = ground arith in
    elim (Bool-cases (
      wallet_state_is_safe (x0.0.0.principal_balance -ℤ x1.0.principal)
        (x0.0.0.bonus_balance -ℤ x1.0.bonus) (pos x0.0.0.held_amount -ℤ pos h.estimated_amount))) [
          | inr unsafe ↦ subst IsBalanced (ground arith) balanced
          | inl safe ↦
              charge_hold-IsBalanced i h actual x0.0.0 p (actual - p) x0.0.1 r balanced (rw holds f)
                k row (rw (← parts) (ground arith))
        ]

settle_by-IsBalanced :
    (st : Status) (i : ℕ) (h : Hold) (actual : ℕ) (db : Db) (r : SettleOutcome × Db)
    → st ≡ h.status
    → IsBalanced db
    → find_hold h.id db.holds ≡ some h
    → settle_by st i h actual db ≡ ok r
    → IsBalanced r.1
unfolding replay_settled
settle_by-IsBalanced held i h actual db r e b f s =
    settle_held-IsBalanced i h actual db r b f (ground arith) s
settle_by-IsBalanced settled i h actual db r e b f s = subst IsBalanced (ground arith) b
settle_by-IsBalanced released i h actual db r e b f s = subst IsBalanced (ground arith) b
settle_by-IsBalanced expired i h actual db r e b f s = subst IsBalanced (ground arith) b

-- A `settleHold` that commits keeps balanced books, whatever it answers.
pub settle_hold-IsBalanced :
    (i hold_id actual : ℕ) (db : Db) (r : SettleOutcome × Db)
    → IsBalanced db
    → settle_hold i hold_id actual db ≡ ok r
    → IsBalanced r.1
unfolding settle_hold
settle_hold-IsBalanced i hold_id actual db r b s =
    elim (Option-cases (find_hold hold_id db.holds)) [
      | inl missing ↦ subst IsBalanced (ground arith) b
      | inr (row, found) ↦
          let x =
            >>=-eq-ok (to_hold row) (λ (h : Hold). settle_by h.status i h actual db)
              (ground arith) in
          let same = to_hold_same row x.0 x.1 in
          let here : find_hold x.0.id db.holds ≡ some x.0 = rw same (
            ap (λ (n : ℕ). find_hold n db.holds) (find_hold-id hold_id db.holds row found)
            ∙ found) in
          settle_by-IsBalanced x.0.status i x.0 actual db r refl b here x.2
    ]

-- An `insertMeteringEvent` that commits keeps balanced books, whatever it answers.
pub insert_metering_event-IsBalanced :
    (digests : Digests) (i : ℕ) (input : MeteringInput) (db : Db) (r : MeteringOutcome × Db)
    → IsBalanced db
    → insert_metering_event digests i input db ≡ ok r
    → IsBalanced r.1
unfolding insert_metering_event insert_metering
insert_metering_event-IsBalanced digests i input db r b h = record {
  backs_held = λ v. ground (arith, b.backs_held v);
  backs_principal = λ v. ground (arith, b.backs_principal v);
  backs_bonus = λ v. ground (arith, b.backs_bonus v);
  is_keyed = ground (arith, b.is_keyed);
}
