-- ===== src/Billing/Funds.antt =====
-- The money of one wallet under apps/billing/src/repo.ts: what a hold may freeze, and what a
-- settlement takes.
use combo.Billing.Books.Spend.{both, with_charge, charge_hold_lem}
use Prim.Native.Nat.{min}
use combo.Billing.Charge.{charge_hold_deductions, settle_hold-IsCharged}
use combo.Billing.Settle.{bonus_part, split_deduction, charged, charge_hold, settle_hold}
use combo.Prelude.{
  ==_refl, ℕ, ◌+◌, ◌-◌, ◌≡◌, refl, sym, ap, ◌∙◌, subst, ◌⊎◌, inl, inr, Bool, false, Option, some,
  arith,
}
use combo.Prelude.Int.{ℤ, pos, negsuc, pos_part, ◌+ℤ◌, ◌-ℤ◌, neg_ℕ, ◌≤ℤ◌, -ℤ_parts, int_laws}
use combo.Billing.Types.{ok, Wallet, Hold, Db, Digests, hold_placed, Deductions, hold_settled}
use combo.Billing.Rows.{to_wallet, net, available_balance, wallet_or_zero, lock_wallet}
use combo.Billing.Hold.{HoldInput, create_hold}
use combo.Billing.Replay.{place_hold_lem, create_hold-IsGranted}

-- A granted hold leaves an available balance that is not negative and a net balance that is not
-- below the overdraft limit, and freezes exactly its estimate; principal and bonus stay, and the wallet
-- that is answered is the one that is written.
pub create_hold_funds :
    (digests : Digests) (i : ℕ) (input : HoldInput) (db : Db) (h : Hold) (w : Wallet) (db1 : Db)
    → create_hold digests i input db ≡ ok (hold_placed h w false, db1)
    → (pos 0 ≤ℤ available_balance w)
      × (neg_ℕ input.overdraft_hard_limit_cents ≤ℤ net w)
      × (h.estimated_amount ≡ input.estimated_amount)
      × (w.held_amount
          ≡ (wallet_or_zero (db.wallets input.user_id)).held_amount + input.estimated_amount)
      × (w.principal_balance ≡ (wallet_or_zero (db.wallets input.user_id)).principal_balance)
      × (w.bonus_balance ≡ (wallet_or_zero (db.wallets input.user_id)).bonus_balance)
      × (db1.wallets input.user_id ≡ some w)
unfolding available_balance lock_wallet to_wallet
create_hold_funds digests i input db h w db1 e =
    let g = create_hold-IsGranted digests i input db h w db1 e in
    let p = place_hold_lem digests i input g.wallet g.start (hold_placed h w false) db1 g.placed in
    let old = g.wallet in
    let same : w ≡ record old { held_amount = old.held_amount + input.estimated_amount } =
      ground (arith, p.0) in
    let before : wallet_or_zero (db.wallets input.user_id) ≡ old = ground (arith, g.locked) in
    let covered : pos input.estimated_amount ≤ℤ (net old -ℤ pos old.held_amount) =
      ground (arith, g.covered) in
    let solvent : neg_ℕ input.overdraft_hard_limit_cents ≤ℤ net old = ground (arith, g.solvent) in
    rw (same, before)
      (
        omega (
          arith,
          covered,
          -ℤ_parts (net old) (pos old.held_amount),
          -ℤ_parts (net old) (pos (old.held_amount + input.estimated_amount)),
        ),
        solvent,
        ground (arith, p.0),
        refl,
        refl,
        refl,
        ground (arith, p.2),
      )

-- What is taken from a bonus is not more than it has.
bonus_part-covered :
    (b : ℤ) (actual : ℕ)
    → (pos (min (pos_part b) actual) ≡ pos 0) ⊎ (pos 0 ≤ℤ (b -ℤ pos (min (pos_part b) actual)))
bonus_part-covered (pos n) actual = inr (omega int_laws)
bonus_part-covered (negsuc n) actual = inl (ap pos (omega arith))

-- A settlement that charges takes exactly the actual amount: from the bonus no more than it has, where
-- it has any, and from the principal only what the bonus does not cover. It releases exactly the
-- estimate of the hold. The wallet that it answers is the one that it has written.
pub settle_hold_funds :
    (i hold_id actual : ℕ) (db : Db) (h : Hold) (w : Wallet) (d : Deductions) (estimate : Bool)
    (db1 : Db)
    → settle_hold i hold_id actual db ≡ ok (hold_settled h w d estimate false, db1)
    → let before = wallet_or_zero (db.wallets h.user_id) in
      (d.bonus +ℤ d.principal ≡ pos actual)
      × (w.bonus_balance ≡ before.bonus_balance -ℤ d.bonus)
      × (w.principal_balance ≡ before.principal_balance -ℤ d.principal)
      × (w.held_amount + h.estimated_amount ≡ before.held_amount)
      × (pos 0 ≤ℤ d.bonus)
      × (pos 0 ≤ℤ d.principal)
      × ((d.bonus ≡ pos 0) ⊎ (pos 0 ≤ℤ w.bonus_balance))
      × ((d.principal ≡ pos 0) ⊎ (w.bonus_balance ≤ℤ pos 0))
      × (db1.wallets h.user_id ≡ some w)
unfolding charged split_deduction lock_wallet to_wallet
settle_hold_funds i hold_id actual db h w d estimate db1 e =
    let c = settle_hold-IsCharged i hold_id actual db h w d estimate db1 e in
    let (same, hold, wallet, valid, valid_hold, fits) =
      charge_hold_deductions i c.row actual c.wallet d c.start h w d estimate false db1 c.charge in
    let before : wallet_or_zero (db.wallets c.row.user_id) ≡ c.wallet = ground (arith, c.locked) in
    let user : h.user_id ≡ c.row.user_id = ground (arith, hold) in
    let amount : h.estimated_amount ≡ c.row.estimated_amount = ground (arith, hold) in
    let p = bonus_part c.wallet actual in
    let bonus_is : d.bonus ≡ pos p = ground (arith, c.split) in
    let principal_is : d.principal ≡ pos (actual - p) = ground (arith, c.split) in
    let is_both : d ≡ both p (actual - p) = ground (arith, c.split) in
    let charge =
      subst
        (λ x.
          charge_hold i c.row actual c.wallet x c.start
          ≡ ok (hold_settled h w d estimate false, db1))
        is_both c.charge in
    let rows =
      (charge_hold_lem i c.row actual c.wallet p (actual - p) c.start
        (hold_settled h w d estimate false, db1) charge).1 in
    let row : (with_charge c.row c.wallet p (actual - p) c.start).wallets c.row.user_id
        ≡ some (charged c.wallet (both p (actual - p)) c.row.estimated_amount) =
      rw (==_refl c.row.user_id) refl in
    let written : db1.wallets h.user_id ≡ some w =
      ap db1.wallets user
      ∙ ap (λ (g : ℕ → Option Wallet). g c.row.user_id) rows
      ∙ row
      ∙ ap (λ x. some (charged c.wallet x c.row.estimated_amount)) (sym is_both)
      ∙ ap some (sym wallet) in
    let covered : (d.bonus ≡ pos 0) ⊎ (pos 0 ≤ℤ w.bonus_balance) =
      rw (wallet, bonus_is) (bonus_part-covered c.wallet.bonus_balance actual) in
    (
      rw (bonus_is, principal_is) (omega int_laws),
      rw (user, before, wallet) refl,
      rw (user, before, wallet) refl,
      rw (user, before, amount, wallet) (omega (arith, fits)),
      rw bonus_is (omega int_laws),
      rw principal_is (omega int_laws),
      covered,
      rw (wallet, bonus_is, principal_is) (omega int_laws),
      written,
    )
