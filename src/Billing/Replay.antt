-- ===== src/Billing/Replay.antt =====
-- Repeating a request to apps/billing/src/repo.ts: the same answer, and no second charge.
use combo.Prelude.Int.{pos, ◌+ℤ◌, neg_ℕ, ltb_ℤ}
use combo.Prelude.{
  ◌==◌, if◌then◌else◌, ==_refl, same_option, ℕ, ◌+◌, ◌≤◌, ◌≡◌, refl, ◌≢◌, true, false, ◌&&◌, Option,
  none, some, ◌∷◌, arith,
}
use combo.Billing.Types.{
  Wallet, Hold, recharge, principal, recharge_key, Db, Digests, unique_violation, Result, ok, err,
  idempotency_mismatch, HoldOutcome, hold_placed, credited, recharge_conflict, >>=-eq-ok,
}
use combo.Billing.Rows.{
  max_safe_integer, is_safe, to_wallet, to_hold, net, available_balance, lock_wallet, read_wallet,
  find_hold_by_turn, insert_hold, find_entry, insert_entry,
}
use combo.Billing.Hold.{
  HoldInput, replay_hold, new_hold, place_hold, open_hold, create_hold_tx, reread_hold,
  catch_unique, create_hold, RechargeInput, credit, replay_recharge, admin_recharge,
}

to_wallet_same : (w v : Wallet) → to_wallet w ≡ ok v → (v ≡ w) × (to_wallet w ≡ ok w)
unfolding to_wallet
to_wallet_same w v h = (ground arith, ground arith)

-- What a granted hold leaves behind.
pub place_hold_lem :
    (digests : Digests) (i : ℕ) (input : HoldInput) (w : Wallet) (db : Db) (o : HoldOutcome)
    (db1 : Db)
    → place_hold digests i input w db ≡ ok (o, db1)
    → let w1 = record w { held_amount = w.held_amount + input.estimated_amount } in
      (o ≡ hold_placed (new_hold i input db) w1 false)
      × (db1.holds ≡ new_hold i input db ∷ db.holds)
      × (db1.wallets input.user_id ≡ some w1)
      × (db1.billable ≡ db.billable)
      × (to_wallet w1 ≡ ok w1)
      × (to_hold (new_hold i input db) ≡ ok (new_hold i input db))
unfolding place_hold insert_hold insert_entry to_hold to_wallet
place_hold_lem digests i input w db o db1 h =
    (ground arith, ground arith, ground arith, ground arith, ground arith, ground arith)

lock_wallet_billable :
    (u : ℕ) (db : Db) (l : Wallet × Db) → lock_wallet u db ≡ ok l → l.1.billable ≡ db.billable
unfolding lock_wallet
lock_wallet_billable u db l h = ground arith

reread_hold-replayed :
    (input : HoldInput) (db db1 : Db) (h : Hold) (w : Wallet)
    → reread_hold input db ≢ ok (hold_placed h w false, db1)
unfolding reread_hold replay_hold
reread_hold-replayed input db db1 h w e = ground arith

-- What a new hold has passed.
pub record IsGranted (digests : Digests) (i : ℕ) (input : HoldInput) (db : Db) (h : Hold)
    (w : Wallet) (db1 : Db) : Type 0 where
  pub wallet : Wallet
  pub start : Db
  pub unpaid : db.billable input.agent_id input.turn_id ≡ false
  pub locked : lock_wallet input.user_id db ≡ ok (wallet, start)
  pub solvent : ltb_ℤ (net wallet) (neg_ℕ input.overdraft_hard_limit_cents) ≡ false
  pub covered : ltb_ℤ (available_balance wallet) (pos input.estimated_amount) ≡ false
  pub placed : place_hold digests i input wallet start ≡ ok (hold_placed h w false, db1)

pub open_hold-granted :
    (digests : Digests) (i : ℕ) (input : HoldInput) (w0 : Wallet) (db : Db) (h : Hold) (w : Wallet)
    (db1 : Db)
    → open_hold digests i input w0 db ≡ ok (hold_placed h w false, db1)
    → (ltb_ℤ (net w0) (neg_ℕ input.overdraft_hard_limit_cents) ≡ false)
      × (ltb_ℤ (available_balance w0) (pos input.estimated_amount) ≡ false)
      × (place_hold digests i input w0 db ≡ ok (hold_placed h w false, db1))
unfolding open_hold
open_hold-granted digests i input w0 db h w db1 e = (ground arith, ground arith, ground arith)

create_hold_tx-IsGranted :
    (digests : Digests) (i : ℕ) (input : HoldInput) (db : Db) (h : Hold) (w : Wallet) (db1 : Db)
    → create_hold_tx digests i input db ≡ ok (hold_placed h w false, db1)
    → IsGranted digests i input db h w db1
unfolding create_hold_tx replay_hold
create_hold_tx-IsGranted digests i input db h w db1 e =
    let opened =
      >>=-eq-ok (lock_wallet input.user_id db)
        (λ (l : Wallet × Db). open_hold digests i input l.0 l.1) (ground arith) in
    let (solvent, covered, placed) =
      open_hold-granted digests i input opened.0.0 opened.0.1 h w db1 opened.2 in
    record {
      wallet = opened.0.0;
      start = opened.0.1;
      unpaid = ground arith;
      locked = opened.1;
      solvent = solvent;
      covered = covered;
      placed = placed;
    }

pub create_hold-IsGranted :
    (digests : Digests) (i : ℕ) (input : HoldInput) (db : Db) (h : Hold) (w : Wallet) (db1 : Db)
    → create_hold digests i input db ≡ ok (hold_placed h w false, db1)
    → IsGranted digests i input db h w db1
unfolding create_hold
create_hold-IsGranted digests i input db h w db1 =
    go (create_hold_tx digests i input db) (create_hold_tx-IsGranted digests i input db h w db1)
  where
    go :
        (x : Result (HoldOutcome × Db))
        → (x ≡ ok (hold_placed h w false, db1) → IsGranted digests i input db h w db1)
        → catch_unique x (reread_hold input db) ≡ ok (hold_placed h w false, db1)
        → IsGranted digests i input db h w db1
    go (ok a) f e = f e
    go (err unique_violation) f e = absurd (reread_hold-replayed input db db1 h w e)
    go (err _) f e = f e

-- Repeating a hold request that was granted returns the same hold and wallet, marked as replayed,
-- and changes nothing, whatever id a new row would have had.
pub create_hold_replay :
    (digests : Digests) (i j : ℕ) (input : HoldInput) (db : Db) (h : Hold) (w : Wallet) (db1 : Db)
    → create_hold digests i input db ≡ ok (hold_placed h w false, db1)
    → create_hold digests j input db1 ≡ ok (hold_placed h w true, db1)
unfolding create_hold create_hold_tx replay_hold read_wallet find_hold_by_turn
create_hold_replay digests i j input db h w db1 e =
    let g = create_hold-IsGranted digests i input db h w db1 e in
    let p = place_hold_lem digests i input g.wallet g.start (hold_placed h w false) db1 g.placed in
    let locked = lock_wallet_billable input.user_id db (g.wallet, g.start) g.locked in
    let unpaid : db1.billable input.agent_id input.turn_id ≡ false = rw (p.3, locked) g.unpaid in
    ground (
      arith,
      p.0,
      p.1,
      p.2,
      p.4,
      p.5,
      unpaid,
      ==_refl input.agent_id,
      ==_refl input.turn_id,
      ==_refl input.user_id,
      ==_refl input.estimated_amount,
    )

replay_recharge_lem :
    (digests : Digests) (input : RechargeInput) (w0 : Wallet) (db : Db) (w : Wallet) (db1 : Db)
    → credit digests input w0 db ≡ ok (credited w false, db1)
    → (w ≡ record w0 { principal_balance = w0.principal_balance +ℤ pos input.amount })
      × (db1.wallets input.user_id ≡ some w)
      × (to_wallet w ≡ ok w)
      × (find_entry (recharge_key (digests.of_text input.idempotency_key)) db1.ledger
          ≡ some (record {
            user_id = input.user_id;
            kind = recharge;
            bucket = some principal;
            amount = pos input.amount;
            ref_id = input.ref_id;
            key = recharge_key (digests.of_text input.idempotency_key);
          }))
unfolding credit insert_entry to_wallet find_entry
replay_recharge_lem digests input w0 db w db1 h = (
  ground arith,
  ground arith,
  ground arith,
  ground (arith, ==_refl (digests.of_text input.idempotency_key)),
)

same_option_refl : (o : Option ℕ) → same_option o o ≡ true
same_option_refl none = refl
same_option_refl (some n) = ==_refl n

-- A recharge whose amount is a safe number, once credited, answers the same request again with the
-- same wallet, marked as replayed, and any other amount, user or reference under its key with a
-- conflict; neither changes anything.
pub admin_recharge_replay :
    (digests : Digests) (input again : RechargeInput) (db : Db) (w : Wallet) (db1 : Db)
    → input.amount ≤ max_safe_integer
    → admin_recharge digests input db ≡ ok (credited w false, db1)
    → again.idempotency_key ≡ input.idempotency_key
    → admin_recharge digests again db1
      ≡ ok (
        if again.user_id == input.user_id
              && (again.amount == input.amount && same_option input.ref_id again.ref_id)
            then credited w true
            else recharge_conflict idempotency_mismatch,
        db1,
      )
unfolding admin_recharge replay_recharge is_safe read_wallet
admin_recharge_replay digests input again db w db1 safe e same =
    let opened =
      >>=-eq-ok (lock_wallet input.user_id db) (λ (l : Wallet × Db). credit digests input l.0 l.1)
        {answer = (credited w false, db1)} (ground arith) in
    let (wallet, row, valid, found) =
      replay_recharge_lem digests input opened.0.0 opened.0.1 w db1 opened.2 in
    rw same (ground (arith, wallet, row, valid, found, same))
