-- ===== src/Billing/Books/History.antt =====
-- Any history of the billing store, apps/billing/src/repo.ts: the operations in the order in which
-- the row locks let them commit.
use combo.Billing.Books.{held_sum, ledger_sum, IsBalanced}
use combo.Billing.Sweep.{sweep_expired_holds}
use combo.Billing.Settle.{settle_hold}
use combo.Billing.Metering.{MeteringInput, insert_metering_event}
use combo.Billing.Hold.{HoldInput, create_hold, RechargeInput, admin_recharge}
use combo.Billing.Types.{Db, Digests, Result, ok, err}
use combo.Prelude.{ℕ, ◌+◌, ◌≡◌, refl, Bool, none, List, [], ◌∷◌}
use combo.Billing.Books.Grant.{create_hold-IsBalanced, admin_recharge-IsBalanced}
use combo.Billing.Books.Spend.{settle_hold-IsBalanced, insert_metering_event-IsBalanced}
use combo.Billing.Books.Expire.{sweep_expired_holds-IsBalanced}

pub data Op : Type 0 where
  creates : (id : ℕ) → HoldInput → Op
  recharges : RechargeInput → Op
  settles : (metering_id hold_id actual : ℕ) → Op
  meters : (id : ℕ) → MeteringInput → Op
  sweeps : (locked : ℕ → Bool) → (limit : ℕ) → Op
  waits : (seconds : ℕ) → Op

-- A transaction that throws is rolled back.
abbrev pub committed {ℓ} : {A : Type ℓ} → Result (A × Db) → Db → Db
committed (ok r) db = r.1
committed (err _) db = db

unfoldable pub apply_op : Digests → Op → Db → Db
apply_op digests (creates i input) db = committed (create_hold digests i input db) db
apply_op digests (recharges input) db = committed (admin_recharge digests input db) db
apply_op digests (settles i hold_id actual) db = committed (settle_hold i hold_id actual db) db
apply_op digests (meters i input) db = committed (insert_metering_event digests i input db) db
apply_op digests (sweeps locked limit) db = committed (sweep_expired_holds locked limit db) db
apply_op digests (waits n) db = record db { now = db.now + n }

unfoldable pub history : Digests → List Op → Db → Db
history digests [] db = db
history digests (o ∷ os) db = history digests os (apply_op digests o db)

committed-IsBalanced {ℓ} :
    {A : Type ℓ} (x : Result (A × Db)) (db : Db)
    → IsBalanced db
    → ((r : A × Db) → x ≡ ok r → IsBalanced r.1)
    → IsBalanced (committed x db)
committed-IsBalanced (ok r) db b f = f r refl
committed-IsBalanced (err _) db b f = b

apply_op-IsBalanced :
    (digests : Digests) (o : Op) (db : Db) → IsBalanced db → IsBalanced (apply_op digests o db)
unfolding apply_op
apply_op-IsBalanced digests (creates i input) db b =
    committed-IsBalanced (create_hold digests i input db) db b
      (λ r. create_hold-IsBalanced digests i input db r b)
apply_op-IsBalanced digests (recharges input) db b =
    committed-IsBalanced (admin_recharge digests input db) db b
      (λ r. admin_recharge-IsBalanced digests input db r b)
apply_op-IsBalanced digests (settles i hold_id actual) db b =
    committed-IsBalanced (settle_hold i hold_id actual db) db b
      (λ r. settle_hold-IsBalanced i hold_id actual db r b)
apply_op-IsBalanced digests (meters i input) db b =
    committed-IsBalanced (insert_metering_event digests i input db) db b
      (λ r. insert_metering_event-IsBalanced digests i input db r b)
apply_op-IsBalanced digests (sweeps locked limit) db b =
    committed-IsBalanced (sweep_expired_holds locked limit db) db b
      (λ r. sweep_expired_holds-IsBalanced locked limit db r b)
apply_op-IsBalanced digests (waits n) db b = record {
  backs_held = b.backs_held;
  backs_principal = b.backs_principal;
  backs_bonus = b.backs_bonus;
  is_keyed = b.is_keyed;
}

history-IsBalanced :
    (digests : Digests) (os : List Op) (db : Db)
    → IsBalanced db
    → IsBalanced (history digests os db)
unfolding history
history-IsBalanced digests [] db b = b
history-IsBalanced digests (o ∷ os) db b =
    history-IsBalanced digests os (apply_op digests o db) (apply_op-IsBalanced digests o db b)

-- A database with users and no billing rows.
abbrev pub empty_db : (ℕ → Bool) → (ℕ → ℕ → Bool) → Db
empty_db users billable = record {
  users = users;
  wallets = λ _. none;
  holds = [];
  ledger = [];
  metering = [];
  billable = billable;
  now = 0;
}

-- After any history of holds, recharges, settlements, metering events and sweeps from an empty
-- database, refused and failed ones included, every wallet's principal and bonus are the sums of its
-- ledger entries in that bucket, its held amount is the sum of its held rows, and hold ids are
-- distinct.
pub history-empty_db-IsBalanced :
    (digests : Digests) (users : ℕ → Bool) (billable : ℕ → ℕ → Bool) (os : List Op)
    → IsBalanced (history digests os (empty_db users billable))
unfolding held_sum ledger_sum
history-empty_db-IsBalanced digests users billable os =
    history-IsBalanced digests os (empty_db users billable) (record {
      backs_held = λ _. refl;
      backs_principal = λ _. refl;
      backs_bonus = λ _. refl;
      is_keyed = tt;
    })
