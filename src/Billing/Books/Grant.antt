-- ===== src/Billing/Books/Grant.antt =====
-- `createHold` and `adminRecharge` of apps/billing/src/repo.ts keep the books balanced.
use combo.Prelude.Int.{pos, neg_ℕ, ltb_ℤ, +ℤ_comm}
use combo.Prelude.{Bool-cases, Option-cases, ℕ, ◌≡◌, sym, subst, inl, inr, some, arith}
use combo.Billing.Types.{
  Wallet, principal, recharge_key, Entry, Db, Digests, unique_violation, Result, ok, err,
  HoldOutcome, RechargeOutcome, >>=-eq-ok,
}
use combo.Billing.Rows.{
  to_wallet, to_hold, net, available_balance, lock_wallet, find_hold_by_turn, insert_hold,
  find_entry, insert_entry,
}
use combo.Billing.Hold.{
  HoldInput, place_hold, open_hold, create_hold_tx, reread_hold, catch_unique, create_hold,
  RechargeInput, credit, replay_recharge, admin_recharge,
}
use combo.Billing.Books.{held_sum, ledger_sum, IsBalanced}
use combo.Billing.Books.Holds.{find_hold-IsFresh}

-- The locked row is the row of the wallet table, and the books do not notice a row of zeros.
pub lock_wallet-IsBalanced :
    (u : ℕ) (db : Db) (l : Wallet × Db)
    → IsBalanced db
    → lock_wallet u db ≡ ok l
    → IsBalanced l.1
      × (l.1.wallets u ≡ some l.0)
      × (l.1.holds ≡ db.holds)
      × (l.1.ledger ≡ db.ledger)
      × (l.1.metering ≡ db.metering)
unfolding lock_wallet to_wallet
lock_wallet-IsBalanced u db l b h = (
  record {
    backs_held = λ v. ground (arith, b.backs_held v);
    backs_principal = λ v. ground (arith, b.backs_principal v);
    backs_bonus = λ v. ground (arith, b.backs_bonus v);
    is_keyed = ground (arith, b.is_keyed);
  },
  ground arith,
  ground arith,
  ground arith,
  ground arith,
)

place_hold-IsBalanced :
    (digests : Digests) (i : ℕ) (input : HoldInput) (w : Wallet) (db : Db) (r : HoldOutcome × Db)
    → IsBalanced db
    → db.wallets input.user_id ≡ some w
    → place_hold digests i input w db ≡ ok r
    → IsBalanced r.1
unfolding place_hold insert_hold insert_entry to_hold to_wallet held_sum ledger_sum
place_hold-IsBalanced digests i input w db r b e h = record {
  backs_held = λ v. ground (arith, b.backs_held v);
  backs_principal = λ v. ground (arith, b.backs_principal v);
  backs_bonus = λ v. ground (arith, b.backs_bonus v);
  is_keyed = ground (arith, b.is_keyed, find_hold-IsFresh i db.holds);
}

open_hold-IsBalanced :
    (digests : Digests) (i : ℕ) (input : HoldInput) (w : Wallet) (db : Db) (r : HoldOutcome × Db)
    → IsBalanced db
    → db.wallets input.user_id ≡ some w
    → open_hold digests i input w db ≡ ok r
    → IsBalanced r.1
unfolding open_hold
open_hold-IsBalanced digests i input w db r b e h =
    let placed = place_hold-IsBalanced digests i input w db r b e in
    elim (Bool-cases (ltb_ℤ (net w) (neg_ℕ input.overdraft_hard_limit_cents))) [
      | inl over ↦ subst IsBalanced (ground arith) b
      | inr within ↦ elim (Bool-cases (ltb_ℤ (available_balance w) (pos input.estimated_amount))) [
        | inl short ↦ subst IsBalanced (ground arith) b
        | inr enough ↦ placed (ground arith)
      ]
    ]

create_hold_tx-IsBalanced :
    (digests : Digests) (i : ℕ) (input : HoldInput) (db : Db) (r : HoldOutcome × Db)
    → IsBalanced db
    → create_hold_tx digests i input db ≡ ok r
    → IsBalanced r.1
unfolding create_hold_tx
create_hold_tx-IsBalanced digests i input db r b h =
    elim (Bool-cases (db.billable input.agent_id input.turn_id)) [
      | inl taken ↦ subst IsBalanced (ground arith) b
      | inr free ↦ elim (Option-cases (find_hold_by_turn input.agent_id input.turn_id db.holds)) [
        | inr (row, old) ↦ subst IsBalanced {x = db} (ground arith) b
        | inl new ↦ elim (Bool-cases (db.users input.user_id)) [
          | inr unknown ↦ subst IsBalanced (ground arith) b
          | inl known ↦
              let opened =
                >>=-eq-ok (lock_wallet input.user_id db) _ (rw (free, new, known) at h) in
              let locked = lock_wallet-IsBalanced input.user_id db opened.0 b opened.1 in
              open_hold-IsBalanced digests i input opened.0.0 opened.0.1 r locked.0 locked.1
                opened.2
        ]
      ]
    ]

-- A refused or replayed hold leaves the rows alone.
reread_hold_unchanged :
    (input : HoldInput) (db : Db) (r : HoldOutcome × Db) → reread_hold input db ≡ ok r → r.1 ≡ db
unfolding reread_hold
reread_hold_unchanged input db r h = ground arith

-- A `createHold` that commits keeps balanced books, whatever it answers.
pub create_hold-IsBalanced :
    (digests : Digests) (i : ℕ) (input : HoldInput) (db : Db) (r : HoldOutcome × Db)
    → IsBalanced db
    → create_hold digests i input db ≡ ok r
    → IsBalanced r.1
unfolding create_hold
create_hold-IsBalanced digests i input db r b =
    go (create_hold_tx digests i input db) (create_hold_tx-IsBalanced digests i input db r b)
  where
    go :
        (x : Result (HoldOutcome × Db))
        → (x ≡ ok r → IsBalanced r.1)
        → catch_unique x (reread_hold input db) ≡ ok r
        → IsBalanced r.1
    go (ok a) f h = f h
    go (err unique_violation) f h = subst IsBalanced (sym (reread_hold_unchanged input db r h)) b
    go (err _) f h = f h

credit-IsBalanced :
    (digests : Digests) (input : RechargeInput) (w : Wallet) (db : Db) (r : RechargeOutcome × Db)
    → IsBalanced db
    → db.wallets input.user_id ≡ some w
    → credit digests input w db ≡ ok r
    → IsBalanced r.1
unfolding credit insert_entry to_wallet ledger_sum
credit-IsBalanced digests input w db r b e h = record {
  backs_held = λ v. ground (arith, b.backs_held v);
  backs_principal = λ v.
      ground
        (arith, b.backs_principal v, +ℤ_comm (pos input.amount) (ledger_sum v principal db.ledger));
  backs_bonus = λ v. ground (arith, b.backs_bonus v);
  is_keyed = ground (arith, b.is_keyed);
}

replay_recharge_unchanged :
    (e : Entry) (input : RechargeInput) (db : Db) (r : RechargeOutcome × Db)
    → replay_recharge e input db ≡ ok r
    → r.1 ≡ db
unfolding replay_recharge
replay_recharge_unchanged e input db r h = ground arith

-- An `adminRecharge` that commits keeps balanced books, whatever it answers.
pub admin_recharge-IsBalanced :
    (digests : Digests) (input : RechargeInput) (db : Db) (r : RechargeOutcome × Db)
    → IsBalanced db
    → admin_recharge digests input db ≡ ok r
    → IsBalanced r.1
unfolding admin_recharge
admin_recharge-IsBalanced digests input db r b h =
    let key = recharge_key (digests.of_text input.idempotency_key) in
    elim (Option-cases (find_entry key db.ledger)) [
      | inr (e, old) ↦
          subst IsBalanced (sym (replay_recharge_unchanged e input db r (ground arith))) b
      | inl new ↦ elim (Bool-cases (db.users input.user_id)) [
        | inr unknown ↦ subst IsBalanced (ground arith) b
        | inl known ↦
            let opened =
              >>=-eq-ok (lock_wallet input.user_id db)
                (λ (l : Wallet × Db). credit digests input l.0 l.1) (ground arith) in
            let locked = lock_wallet-IsBalanced input.user_id db opened.0 b opened.1 in
            credit-IsBalanced digests input opened.0.0 opened.0.1 r locked.0 locked.1 opened.2
      ]
    ]
