-- ===== src/Billing/Rows.antt =====
-- The row helpers of apps/billing/src/repo.ts, and each INSERT and UPDATE that it makes with the
-- CHECK and UNIQUE constraints and triggers that db/v2-migrations puts on it.
use combo.Prelude.{
  ltb, leb, ◌==◌, if◌then◌else◌, ℕ, Bool, true, false, not, ◌&&◌, Option, none, some, List, [], ◌∷◌,
}
use combo.Prelude.Int.{ℤ, pos, pos_part, neg_part, ◌+ℤ◌, ◌-ℤ◌, ltb_ℤ, leb_ℤ}
use combo.Billing.Types.{
  ok, err, ◌>>=◌, ◌>>◌, require, Wallet, Status, held, Hold, Kind, recharge, consume, hold_entry,
  release, Bucket, principal, bonus, PaymentStep, reserve, claim, expire, LedgerKey, hold_key,
  settle_key, release_key, recharge_key, payment_key, Entry, Db, unsafe_range, missing_wallet,
  unique_violation, check_violation, trigger_violation, Result,
}

-- Number.MAX_SAFE_INTEGER.
abbrev pub max_safe_integer : ℕ
max_safe_integer = 9007199254740991

unfoldable pub is_safe : ℤ → Bool
is_safe a = leb (pos_part a) max_safe_integer && leb (neg_part a) max_safe_integer

unfoldable pub wallet_state_is_safe : ℤ → ℤ → ℤ → Bool
wallet_state_is_safe p b held_amount =
    let total = p +ℤ b in
    let available = total -ℤ held_amount in
    is_safe p
    && (is_safe b
        && (leb_ℤ (pos 0) held_amount
            && (is_safe held_amount && (is_safe total && is_safe available))))

abbrev pub wallet_is_safe : Wallet → Bool
wallet_is_safe w = wallet_state_is_safe w.principal_balance w.bonus_balance (pos w.held_amount)

unfoldable pub to_wallet : Wallet → Result Wallet
to_wallet w = do
  require (is_safe w.principal_balance && (is_safe w.bonus_balance && is_safe (pos w.held_amount)))
      unsafe_range
  require (wallet_is_safe w) unsafe_range
  ok w

abbrev pub safe_option : Option ℕ → Bool
safe_option none = true
safe_option (some n) = leb n max_safe_integer

unfoldable pub to_hold : Hold → Result Hold
to_hold h = do
  require (leb h.estimated_amount max_safe_integer && safe_option h.actual_amount) unsafe_range
  ok h

abbrev pub net : Wallet → ℤ
net w = w.principal_balance +ℤ w.bonus_balance

-- `availableBalance`.
unfoldable pub available_balance : Wallet → ℤ
available_balance w = net w -ℤ pos w.held_amount

abbrev pub is_held : Status → Bool
is_held held = true
is_held _ = false

abbrev pub zero_wallet : Wallet
zero_wallet = record { principal_balance = pos 0; bonus_balance = pos 0; held_amount = 0 }

-- A missing wallet counts as a wallet of zeros.
abbrev pub wallet_or_zero : Option Wallet → Wallet
wallet_or_zero none = zero_wallet
wallet_or_zero (some w) = w

abbrev pub set_wallet : ℕ → Wallet → Db → Db
set_wallet u w db = record db { wallets = λ v. if u == v then some w else db.wallets v }

-- INSERT ... ON CONFLICT DO NOTHING.
ensure_wallet : ℕ → Db → Db
ensure_wallet u db = elim (db.wallets u) [ none ↦ set_wallet u zero_wallet db | some _ ↦ db ]

abbrev pub wallet_row : Option Wallet → Result Wallet
wallet_row none = err missing_wallet
wallet_row (some w) = to_wallet w

-- `lockWallet`.
unfoldable pub lock_wallet : ℕ → Db → Result (Wallet × Db)
unfolding ensure_wallet
lock_wallet u db = do let db1 = ensure_wallet u db; w ← wallet_row (db1.wallets u); ok (w, db1)

-- `readWalletIn`, where a missing wallet is an error.
unfoldable pub read_wallet : ℕ → Db → Result Wallet
read_wallet u db = wallet_row (db.wallets u)

unfoldable pub find_hold : ℕ → List Hold → Option Hold
find_hold i [] = none
find_hold i (h ∷ hs) = if h.id == i then some h else find_hold i hs

-- `findHoldByTurn`.
unfoldable pub find_hold_by_turn : ℕ → ℕ → List Hold → Option Hold
find_hold_by_turn a t [] = none
find_hold_by_turn a t (h ∷ hs) =
    if h.agent_id == a && h.turn_id == t then some h else find_hold_by_turn a t hs

abbrev pub is_some {ℓ} : {A : Type ℓ} → Option A → Bool
is_some none = false
is_some (some _) = true

-- INSERT INTO v2_holds: ck_v2_hold_estimated, the primary key and uq_v2_hold_agent_turn.
unfoldable pub insert_hold : Hold → Db → Result Db
insert_hold h db = do
  require (ltb 0 h.estimated_amount) check_violation
  require (not (is_some (find_hold h.id db.holds))) unique_violation
  require (not (is_some (find_hold_by_turn h.agent_id h.turn_id db.holds))) unique_violation
  ok (record db { holds = h ∷ db.holds })

-- UPDATE v2_holds ... WHERE id = $1; the id is the primary key, so no row follows the first.
unfoldable pub set_hold : ℕ → Status → Option ℕ → List Hold → List Hold
set_hold i status actual [] = []
set_hold i status actual (h ∷ hs) =
    if h.id == i
    then record h { status = status; actual_amount = actual } ∷ hs
    else h ∷ set_hold i status actual hs

-- The triggers trg_v2_holds_transition and trg_v2_holds_immutable: only a held row changes.
abbrev pub may_change : Option Hold → Bool
may_change none = true
may_change (some h) = is_held h.status

unfoldable pub update_hold : ℕ → Status → Option ℕ → Db → Result Db
update_hold i status actual db = do
  require (may_change (find_hold i db.holds)) trigger_violation
  ok (record db { holds = set_hold i status actual db.holds })

abbrev pub same_bucket : Bucket → Bucket → Bool
same_bucket principal principal = true
same_bucket bonus bonus = true
same_bucket _ _ = false

abbrev pub same_step : PaymentStep → PaymentStep → Bool
same_step reserve reserve = true
same_step claim claim = true
same_step expire expire = true
same_step _ _ = false

abbrev pub same_key : LedgerKey → LedgerKey → Bool
same_key (hold_key a) (hold_key b) = a == b
same_key (settle_key a p) (settle_key b q) = a == b && same_bucket p q
same_key (release_key a) (release_key b) = a == b
same_key (recharge_key a) (recharge_key b) = a == b
same_key (payment_key s a) (payment_key t b) = same_step s t && a == b
same_key _ _ = false

-- `findLedgerByIdempotencyKey`.
unfoldable pub find_entry : LedgerKey → List Entry → Option Entry
find_entry k [] = none
find_entry k (e ∷ es) = if same_key e.key k then some e else find_entry k es

-- ck_v2_ledger_shape.
abbrev pub has_shape : Kind → Option Bucket → ℤ → Bool
has_shape recharge (some _) a = ltb_ℤ (pos 0) a
has_shape consume (some _) a = ltb_ℤ a (pos 0)
has_shape hold_entry none a = ltb_ℤ (pos 0) a
has_shape release none a = ltb_ℤ (pos 0) a
has_shape _ _ _ = false

-- INSERT INTO v2_ledger: ck_v2_ledger_shape, ck_v2_ledger_safe_integer_range and the key that trg_v2_ledger_idempotency_domain leaves.
unfoldable pub insert_entry : Entry → Db → Result Db
insert_entry e db = do
  require (has_shape e.kind e.bucket e.amount && is_safe e.amount) check_violation
  require (not (is_some (find_entry e.key db.ledger))) unique_violation
  ok (record db { ledger = e ∷ db.ledger })
