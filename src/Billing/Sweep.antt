-- ===== src/Billing/Sweep.antt =====
-- `sweepExpiredHolds` of apps/billing/src/repo.ts. The rows that FOR UPDATE SKIP LOCKED passes over
-- are an argument.
use combo.Prelude.{
  leb, if◌then◌else◌, length, ℕ, zero, suc, ◌-◌, Bool, not, ◌&&◌, none, some, List, [], ◌∷◌,
}
use combo.Prelude.Int.{pos}
use combo.Billing.Types.{
  expired, Hold, release, release_key, Db, check_violation, Result, ok, ◌>>=◌, ◌>>◌, require,
}
use combo.Billing.Rows.{to_hold, is_held, set_wallet, update_hold, insert_entry}

-- status = 'held' AND expires_at <= now(), of the rows that no other transaction has locked.
unfoldable pub is_due : (ℕ → Bool) → ℕ → Hold → Bool
is_due locked now h = is_held h.status && (leb h.expires_at now && not (locked h.id))

unfoldable pub due : (ℕ → Bool) → ℕ → List Hold → List Hold
due locked now [] = []
due locked now (h ∷ hs) =
    let rest = due locked now hs in if is_due locked now h then h ∷ rest else rest

-- ORDER BY expires_at.
unfoldable pub insert_by_expiry : Hold → List Hold → List Hold
insert_by_expiry h [] = h ∷ []
insert_by_expiry h (g ∷ gs) =
    if leb h.expires_at g.expires_at then h ∷ g ∷ gs else g ∷ insert_by_expiry h gs

unfoldable pub sort_by_expiry : List Hold → List Hold
sort_by_expiry [] = []
sort_by_expiry (h ∷ hs) = insert_by_expiry h (sort_by_expiry hs)

-- LIMIT $1.
unfoldable pub limit_to : ℕ → List Hold → List Hold
limit_to zero hs = []
limit_to (suc n) [] = []
limit_to (suc n) (h ∷ hs) = h ∷ limit_to n hs

unfoldable pub select_expired : (ℕ → Bool) → ℕ → Db → List Hold
select_expired locked limit db = limit_to limit (sort_by_expiry (due locked db.now db.holds))

-- UPDATE v2_wallets SET held_amount = held_amount - $2: no row, no change.
unfoldable pub unfreeze : ℕ → ℕ → Db → Result Db
unfreeze u amount db = elim (db.wallets u) [
  | none ↦ ok db
  | some w ↦
      (require (leb amount w.held_amount) check_violation
        >> ok (set_wallet u (record w { held_amount = w.held_amount - amount }) db))
]

-- The body of the loop.
unfoldable pub expire_hold : Hold → Db → Result Db
expire_hold row db = do
  h ← to_hold row
  db1 ← update_hold h.id expired none db
  db2 ← unfreeze h.user_id h.estimated_amount db1
  insert_entry
      (record {
        user_id = h.user_id;
        kind = release;
        bucket = none;
        amount = pos h.estimated_amount;
        ref_id = some h.id;
        key = release_key h.id;
      })
      db2

unfoldable pub expire_holds : List Hold → Db → Result Db
expire_holds [] db = ok db
expire_holds (h ∷ hs) db = (expire_hold h db >>= λ db1. expire_holds hs db1)

unfoldable pub sweep_expired_holds : (ℕ → Bool) → ℕ → Db → Result (ℕ × Db)
sweep_expired_holds locked limit db = do
  let rows = select_expired locked limit db
  db1 ← expire_holds rows db
  ok (length rows, db1)
