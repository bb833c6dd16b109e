-- ===== src/Billing/Books.antt =====
-- The books of apps/billing/src/repo.ts: a wallet's balances are the sums of its ledger entries, and
-- its held amount is the sum of its held rows.
pub mod Holds
pub mod Grant
pub mod Spend
pub mod Expire
pub mod Sweep
pub mod History
use combo.Prelude.{
  ltb, leb, ◌==◌, if◌then◌else◌, ==_iff, ==_refl, Bool-cases, Option-cases, same_option, length,
  All, ℕ, zero, suc, ◌+◌, ◌-◌, ◌*◌, ◌/◌, ◌%◌, ◌^◌, ◌≤◌, ◌<◌, ◌≡◌, refl, sym, ap, ◌∙◌, subst, ◌≢◌,
  ◌↔◌, ◌⊎◌, inl, inr, Bool, true, false, not, ◌&&◌, ◌||◌, Option, none, some, List, [], ◌∷◌, ◌++◌,
  map, arith,
}
use combo.Prelude.Int.{
  ℤ, pos, negsuc, pos_part, neg_part, sub_ℕ, ◌+ℤ◌, ◌-ℤ◌, neg_ℕ, ◌≤ℤ◌, ltb_ℤ, leb_ℤ, +ℤ_parts,
  -ℤ_parts, neg_ℕ_parts, eq_of_parts, int_laws, neg_ℕ-+ℤ, -ℤ-zero, +ℤ_comm,
}
use combo.Billing.Types.{
  Wallet, Status, held, settled, released, expired, Hold, Kind, recharge, consume, hold_entry,
  release, Bucket, principal, bonus, LedgerKey, hold_key, settle_key, release_key, recharge_key,
  Entry, Source, gateway, agent_report, estimated, MeterKey, reported_key, estimated_key, Metering,
  Db, Digests, Fault, unsafe_range, missing_wallet, unique_violation, check_violation,
  trigger_violation, type_error, Result, ok, err, ◌>>=◌, ◌>>◌, require, Mismatch,
  idempotency_mismatch, terminal_replay, balance_range_exceeded, hold_scope_mismatch,
  hold_not_active, HoldOutcome, hold_placed, hold_conflict, hold_invalid_user, insufficient,
  overdraft_blocked, Deductions, SettleOutcome, hold_settled, not_found, settle_conflict,
  invalid_state, RechargeOutcome, credited, recharge_invalid_user, recharge_conflict,
  MeteringOutcome, recorded, metering_conflict, >>=-eq-ok,
}
use combo.Billing.Rows.{
  max_safe_integer, is_safe, wallet_state_is_safe, wallet_is_safe, to_wallet, to_hold, net,
  available_balance, is_held, zero_wallet, wallet_or_zero, set_wallet, wallet_row, lock_wallet,
  read_wallet, find_hold, find_hold_by_turn, is_some, insert_hold, set_hold, may_change,
  update_hold, same_bucket, same_key, find_entry, has_shape, insert_entry,
}

-- The held estimates of a user.
unfoldable pub held_sum : ℕ → List Hold → ℕ
held_sum u [] = 0
held_sum u (h ∷ hs) =
    (if h.user_id == u && is_held h.status then h.estimated_amount else 0) + held_sum u hs

-- The entries of a user in one bucket.
abbrev pub in_bucket : Option Bucket → Bucket → Bool
in_bucket none b = false
in_bucket (some c) b = same_bucket c b

unfoldable pub ledger_sum : ℕ → Bucket → List Entry → ℤ
ledger_sum u b [] = pos 0
ledger_sum u b (e ∷ es) =
    let rest = ledger_sum u b es in
    if e.user_id == u && in_bucket e.bucket b then e.amount +ℤ rest else rest

abbrev pub wallet_of : ℕ → Db → Wallet
wallet_of u db = wallet_or_zero (db.wallets u)

abbrev pub IsFresh : ℕ → List Hold → Type 0
IsFresh i hs = All (λ h. h.id ≢ i) hs

-- The primary key of v2_holds.
abbrev pub IsKeyed : List Hold → Type 0
IsKeyed [] = Unit
IsKeyed (h ∷ hs) = IsFresh h.id hs × IsKeyed hs

-- Every wallet is backed by the rows of its user, and the hold ids are distinct.
pub record IsBalanced (db : Db) : Type 0 where
  pub backs_held : (u : ℕ) → (wallet_of u db).held_amount ≡ held_sum u db.holds
  pub backs_principal :
      (u : ℕ) → (wallet_of u db).principal_balance ≡ ledger_sum u principal db.ledger
  pub backs_bonus : (u : ℕ) → (wallet_of u db).bonus_balance ≡ ledger_sum u bonus db.ledger
  pub is_keyed : IsKeyed db.holds
