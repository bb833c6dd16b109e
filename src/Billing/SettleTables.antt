-- ===== src/Billing/SettleTables.antt =====
-- What a settlement of apps/billing/src/repo.ts leaves in the tables for its repetition.
use combo.Billing.Charge.{charge_hold_deductions}
use combo.Billing.Metering.{insert_metering}
use combo.Prelude.{
  leb, if◌then◌else◌, ==_refl, ℕ, ◌≡◌, refl, sym, ap, ◌∙◌, Bool, false, Option, some, arith,
}
use combo.Prelude.Int.{ℤ, pos, ◌+ℤ◌, ◌-ℤ◌, int_laws}
use combo.Billing.Types.{
  ok, require, >>=-eq-ok, Wallet, settled, Hold, Bucket, principal, bonus, Db, check_violation,
  Deductions, hold_settled,
}
use combo.Billing.Rows.{
  to_wallet, to_hold, set_wallet, set_hold, update_hold, same_bucket, insert_entry,
}
use combo.Billing.Settle.{
  charged, consume_entry, has_estimated, needs_estimate, add_estimate, charge_hold, consumed,
}

minus_minus : (a : ℤ) (n : ℕ) → a -ℤ (pos 0 -ℤ pos n) ≡ a +ℤ pos n
minus_minus a n = omega int_laws

plus_zero : (a : ℤ) → a +ℤ pos 0 ≡ a
plus_zero a = omega int_laws

zero_plus : (n : ℕ) → pos 0 +ℤ pos n ≡ pos n
zero_plus n = omega int_laws

-- What the entry of one bucket leaves.
consume_entry-consumed :
    (h : Hold) (b : Bucket) (n : ℕ) (db db1 : Db)
    → consume_entry h b (pos n) db ≡ ok db1
    → (db1.wallets ≡ db.wallets)
      × (db1.holds ≡ db.holds)
      × (db1.metering ≡ db.metering)
      × ((c : Bucket)
          → consumed h.id c db1.ledger ≡ (
              if same_bucket b c
              then consumed h.id c db.ledger +ℤ pos n
              else consumed h.id c db.ledger))
unfolding consume_entry insert_entry consumed
consume_entry-consumed h b n db db1 e = (
  ground arith,
  ground arith,
  ground arith,
  λ c. ground (
    arith,
    minus_minus (consumed h.id c db.ledger) n,
    plus_zero (consumed h.id c db.ledger),
    ==_refl h.id,
  ),
)

add_estimate_recorded :
    (i : ℕ) (h : Hold) (actual : ℕ) (db db1 : Db)
    → has_estimated h.id db.metering ≡ false
    → add_estimate i h actual db ≡ ok db1
    → (db1.wallets ≡ db.wallets)
      × (db1.holds ≡ db.holds)
      × (db1.ledger ≡ db.ledger)
      × (has_estimated h.id db1.metering ≡ needs_estimate h actual db)
unfolding add_estimate insert_metering has_estimated
add_estimate_recorded i h actual db db1 none_yet e =
    (ground arith, ground arith, ground arith, ground (arith, ==_refl h.id))

abbrev pub parts : ℕ → ℕ → Deductions
parts p q = record { bonus = pos p; principal = pos q }

-- What a settlement leaves for its repetition.
pub charge_hold_left :
    (i : ℕ) (row : Hold) (actual : ℕ) (w0 : Wallet) (p q : ℕ) (db : Db) (h : Hold) (w : Wallet)
    (estimate : Bool) (db1 : Db)
    → has_estimated row.id db.metering ≡ false
    → consumed row.id bonus db.ledger ≡ pos 0
    → consumed row.id principal db.ledger ≡ pos 0
    → charge_hold i row actual w0 (parts p q) db
      ≡ ok (hold_settled h w (parts p q) estimate false, db1)
    → (db1.wallets row.user_id ≡ some w)
      × (db1.holds ≡ set_hold row.id settled (some actual) db.holds)
      × (consumed row.id bonus db1.ledger ≡ pos p)
      × (consumed row.id principal db1.ledger ≡ pos q)
      × (has_estimated row.id db1.metering ≡ estimate)
unfolding charge_hold to_hold to_wallet update_hold
charge_hold_left i row actual w0 p q db h w estimate db1 none_yet no_bonus no_principal e =
    let x0 = >>=-eq-ok (require (leb row.estimated_amount w0.held_amount) check_violation) _ e in
    let start = set_wallet row.user_id (charged w0 (parts p q) row.estimated_amount) db in
    let x1 = >>=-eq-ok (consume_entry row bonus (pos p) start) _ x0.2 in
    let x2 = >>=-eq-ok (consume_entry row principal (pos q) x1.0) _ x1.2 in
    let x3 = >>=-eq-ok (add_estimate i row actual x2.0) _ x2.2 in
    let x4 = >>=-eq-ok (update_hold row.id settled (some actual) x3.0) _ x3.2 in
    let y1 = consume_entry-consumed row bonus p start x1.0 x1.1 in
    let y2 = consume_entry-consumed row principal q x1.0 x2.0 x2.1 in
    let unmetered : has_estimated row.id x2.0.metering ≡ false =
      ap (has_estimated row.id) (y2.2 ∙ y1.2) ∙ none_yet in
    let y3 = add_estimate_recorded i row actual x2.0 x3.0 unmetered x3.1 in
    let last : db1 ≡ x4.0 = ground (arith, x4.2) in
    let update : (x4.0.wallets ≡ x3.0.wallets)
        × (x4.0.holds ≡ set_hold row.id settled (some actual) x3.0.holds)
        × (x4.0.ledger ≡ x3.0.ledger)
        × (x4.0.metering ≡ x3.0.metering) =
      (ground (arith, x4.1), ground (arith, x4.1), ground (arith, x4.1), ground (arith, x4.1)) in
    let flag : estimate ≡ needs_estimate row actual x2.0 = ground (arith, x4.2) in
    let wallet : w ≡ charged w0 (parts p q) row.estimated_amount =
      (charge_hold_deductions i row actual w0 (parts p q) db h w (parts p q) estimate false db1
        e).2 in
    let row_of : start.wallets row.user_id ≡ some (charged w0 (parts p q) row.estimated_amount) =
      rw (==_refl row.user_id) refl in
    (
      ap (λ (x : Db). x.wallets row.user_id) last
          ∙ ap (λ (g : ℕ → Option Wallet). g row.user_id) (update.0 ∙ y3.0 ∙ y2.0 ∙ y1.0)
          ∙ row_of
          ∙ ap some (sym wallet),
      ap (λ (x : Db). x.holds) last
          ∙ update.1
          ∙ ap (set_hold row.id settled (some actual)) (y3.1 ∙ y2.1 ∙ y1.1),
      ap (λ (x : Db). consumed row.id bonus x.ledger) last
          ∙ ap (consumed row.id bonus) (update.2 ∙ y3.2)
          ∙ y2.3 bonus
          ∙ y1.3 bonus
          ∙ ap (λ (x : ℤ). x +ℤ pos p) no_bonus
          ∙ zero_plus p,
      ap (λ (x : Db). consumed row.id principal x.ledger) last
          ∙ ap (consumed row.id principal) (update.2 ∙ y3.2)
          ∙ y2.3 principal
          ∙ ap (λ (x : ℤ). x +ℤ pos q) (y1.3 principal ∙ no_principal)
          ∙ zero_plus q,
      ap (λ (x : Db). has_estimated row.id x.metering) last
          ∙ ap (has_estimated row.id) update.3
          ∙ y3.3
          ∙ sym flag,
    )
