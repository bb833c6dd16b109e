-- ===== src/Billing/Charge.antt =====
-- A settlement of apps/billing/src/repo.ts that charges a wallet: what it has passed.
use combo.Prelude.{
  Option-cases, ℕ, ◌≤◌, ◌≡◌, refl, subst, ◌≢◌, inl, inr, Bool, true, false, some, arith,
}
use combo.Billing.Types.{
  ok, >>=-eq-ok, Wallet, Status, held, settled, released, expired, Hold, Db, Deductions,
  hold_settled,
}
use combo.Billing.Rows.{to_wallet, to_hold, is_held, lock_wallet, find_hold}
use combo.Billing.Settle.{
  split_deduction, charged, settled_hold, charge_hold, settle_held, replay_settled, settle_by,
  settle_hold,
}
use combo.Billing.Books.Holds.{to_hold_same}

pub record IsCharged (i hold_id actual : ℕ) (db : Db) (h : Hold) (w : Wallet) (d : Deductions)
    (estimate : Bool) (db1 : Db) : Type 0 where
  pub row : Hold
  pub wallet : Wallet
  pub start : Db
  pub found : find_hold hold_id db.holds ≡ some row
  pub was_held : is_held row.status ≡ true
  pub valid : to_hold row ≡ ok row
  pub locked : lock_wallet row.user_id db ≡ ok (wallet, start)
  pub split : split_deduction wallet actual ≡ ok d
  pub charge : charge_hold i row actual wallet d start ≡ ok (hold_settled h w d estimate false, db1)

pub charge_hold_deductions :
    (i : ℕ) (row : Hold) (actual : ℕ) (w0 : Wallet) (d0 : Deductions) (db : Db) (h : Hold)
    (w : Wallet) (d : Deductions) (estimate replayed : Bool) (db1 : Db)
    → charge_hold i row actual w0 d0 db ≡ ok (hold_settled h w d estimate replayed, db1)
    → (d ≡ d0)
      × (h ≡ settled_hold row actual)
      × (w ≡ charged w0 d0 row.estimated_amount)
      × (to_wallet w ≡ ok w)
      × (to_hold h ≡ ok h)
      × (row.estimated_amount ≤ w0.held_amount)
unfolding charge_hold to_hold to_wallet
charge_hold_deductions i row actual w0 d0 db h w d estimate replayed db1 e =
    (ground arith, ground arith, ground arith, ground arith, ground arith, ground arith)

settle_held-charged :
    (i : ℕ) (row : Hold) (actual : ℕ) (db : Db) (h : Hold) (w : Wallet) (d : Deductions)
    (estimate : Bool) (db1 : Db)
    → settle_held i row actual db ≡ ok (hold_settled h w d estimate false, db1)
    → (l : Wallet × Db) × (lock_wallet row.user_id db ≡ ok l)
      × (split_deduction l.0 actual ≡ ok d)
      × (charge_hold i row actual l.0 d l.1 ≡ ok (hold_settled h w d estimate false, db1))
unfolding settle_held
settle_held-charged i row actual db h w d estimate db1 e =
    let x0 = >>=-eq-ok (lock_wallet row.user_id db) _ e in
    let x1 = >>=-eq-ok (split_deduction x0.0.0 actual) _ x0.2 in
    let rest = x1.2 in
    let charge : charge_hold i row actual x0.0.0 x1.0 x0.0.1
        ≡ ok (hold_settled h w d estimate false, db1) =
      ground arith in
    let same =
      (charge_hold_deductions i row actual x0.0.0 x1.0 x0.0.1 h w d estimate false db1 charge).0 in
    (x0.0, x0.1, rw same x1.1, rw same (rw same at charge))

replay_settled-replayed :
    (row : Hold) (actual : ℕ) (db : Db) (h : Hold) (w : Wallet) (d : Deductions) (estimate : Bool)
    (db1 : Db)
    → replay_settled row actual db ≢ ok (hold_settled h w d estimate false, db1)
unfolding replay_settled
replay_settled-replayed row actual db h w d estimate db1 e = ground arith

settle_by-held :
    (st : Status) (i : ℕ) (row : Hold) (actual : ℕ) (db : Db) (h : Hold) (w : Wallet)
    (d : Deductions) (estimate : Bool) (db1 : Db)
    → settle_by st i row actual db ≡ ok (hold_settled h w d estimate false, db1)
    → (is_held st ≡ true)
      × (settle_held i row actual db ≡ ok (hold_settled h w d estimate false, db1))
settle_by-held held i row actual db h w d estimate db1 e = (refl, e)
settle_by-held settled i row actual db h w d estimate db1 e =
    absurd (replay_settled-replayed row actual db h w d estimate db1 e)
settle_by-held released i row actual db h w d estimate db1 e = cc
settle_by-held expired i row actual db h w d estimate db1 e = cc

pub settle_hold-IsCharged :
    (i hold_id actual : ℕ) (db : Db) (h : Hold) (w : Wallet) (d : Deductions) (estimate : Bool)
    (db1 : Db)
    → settle_hold i hold_id actual db ≡ ok (hold_settled h w d estimate false, db1)
    → IsCharged i hold_id actual db h w d estimate db1
unfolding settle_hold
settle_hold-IsCharged i hold_id actual db h w d estimate db1 e =
    elim (Option-cases (find_hold hold_id db.holds)) [
      | inl missing ↦ absurd (ground arith)
      | inr (row, found) ↦
          let x =
            >>=-eq-ok (to_hold row) (λ (g : Hold). settle_by g.status i g actual db)
              {answer = (hold_settled h w d estimate false, db1)} (ground arith) in
          let same = to_hold_same row x.0 x.1 in
          let valid : to_hold row ≡ ok row = rw same at x.1 in
          let by : settle_by row.status i row actual db
              ≡ ok (hold_settled h w d estimate false, db1) =
            subst
              (λ (g : Hold).
                settle_by g.status i g actual db ≡ ok (hold_settled h w d estimate false, db1))
              same x.2 in
          let (was_held, settling) =
            settle_by-held row.status i row actual db h w d estimate db1 by in
          let (l, locked, split, charge) =
            settle_held-charged i row actual db h w d estimate db1 settling in
          record {
            row = row;
            wallet = l.0;
            start = l.1;
            found = found;
            was_held = was_held;
            valid = valid;
            locked = locked;
            split = split;
            charge = charge;
          }
    ]
