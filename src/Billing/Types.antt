-- ===== src/Billing/Types.antt =====
-- The views and outcomes of apps/billing/src/service.ts, and the rows of repo.ts. Ids, keys and
-- texts are only compared and copied, and stand as numbers; amounts are whole cents, time is a
-- number.
use combo.Prelude.Outcomes.{Outcome, err, ok, ◌>>=◌, ◌>>◌, require, >>=-eq-ok}
pub use combo.Prelude.Outcomes.{ok, err, ◌>>=◌, ◌>>◌, require, >>=-eq-ok}
use combo.Prelude.{ℕ, Bool, Option, List}
use combo.Prelude.Int.{ℤ}

-- `WalletView`; held_amount has the CHECK held_amount >= 0.
pub record Wallet : Type 0 where
  pub principal_balance : ℤ
  pub bonus_balance : ℤ
  pub held_amount : ℕ

pub data Status : Type 0 where
  held settled released expired : Status

-- `HoldView`.
pub record Hold : Type 0 where
  pub id : ℕ
  pub user_id : ℕ
  pub agent_id : ℕ
  pub turn_id : ℕ
  pub estimated_amount : ℕ
  pub actual_amount : Option ℕ
  pub status : Status
  pub expires_at : ℕ

pub data Kind : Type 0 where
  recharge consume hold_entry release : Kind

pub data Bucket : Type 0 where
  principal bonus : Bucket

pub data PaymentStep : Type 0 where
  reserve claim expire : PaymentStep

-- `ledgerIdempotencyKeys`, and the keys of payment-repo.ts: the prefix is the constructor, a SHA-256
-- digest is a number.
pub data LedgerKey : Type 0 where
  hold_key : (digest : ℕ) → LedgerKey
  settle_key : (hold_id : ℕ) → Bucket → LedgerKey
  release_key : (hold_id : ℕ) → LedgerKey
  recharge_key : (digest : ℕ) → LedgerKey
  payment_key : PaymentStep → (payment_id : ℕ) → LedgerKey

pub record Entry : Type 0 where
  pub user_id : ℕ
  pub kind : Kind
  pub bucket : Option Bucket
  pub amount : ℤ
  pub ref_id : Option ℕ
  pub key : LedgerKey

pub data Source : Type 0 where
  gateway agent_report estimated : Source

-- The persisted metering keys `meter-reported:v1:<digest>` and `meter:estimated:v1:<hold>`.
pub data MeterKey : Type 0 where
  reported_key : (digest : ℕ) → MeterKey
  estimated_key : (hold_id : ℕ) → MeterKey

-- `dimension` is one of the source's six words, by its number.
pub record Metering : Type 0 where
  pub id : ℕ
  pub agent_id : ℕ
  pub user_id : ℕ
  pub turn_id : ℕ
  pub hold_id : Option ℕ
  pub dimension : Option ℕ
  pub quantity : ℕ
  pub model : Option ℕ
  pub unit_cost : Option ℕ
  pub source : Source
  pub key : MeterKey

-- The tables of one database, and its clock. `billable a t` says that v2_billable_calls exists and
-- has a row for the agent and the call.
pub record Db : Type 0 where
  pub users : ℕ → Bool
  pub wallets : ℕ → Option Wallet
  pub holds : List Hold
  pub ledger : List Entry
  pub metering : List Metering
  pub billable : ℕ → ℕ → Bool
  pub now : ℕ

-- SHA-256 of a caller's key and of the JSON text of an agent and a turn, the key `payment-credit:`
-- with an id, and `issue` and `digest` of the payment tokens.
pub record Digests : Type 0 where
  pub of_text : ℕ → ℕ
  pub of_turn : ℕ → ℕ → ℕ
  pub of_payment : ℕ → ℕ
  pub issue_token : ℕ → ℕ
  pub of_token : ℕ → ℕ

-- Why a transaction is rolled back.
pub data Fault : Type 0 where
  unsafe_range missing_wallet unique_violation check_violation trigger_violation : Fault
  type_error invalid_limit : Fault

abbrev pub Result {ℓ} : Type ℓ → Type ℓ
Result A = Outcome Fault A

pub data Mismatch : Type 0 where
  idempotency_mismatch terminal_replay balance_range_exceeded : Mismatch
  hold_scope_mismatch hold_not_active : Mismatch

pub data HoldOutcome : Type 0 where
  hold_placed : Hold → Wallet → (replayed : Bool) → HoldOutcome
  hold_conflict : Mismatch → HoldOutcome
  hold_invalid_user : HoldOutcome
  insufficient overdraft_blocked : Wallet → HoldOutcome

pub record Deductions : Type 0 where
  pub bonus : ℤ
  pub principal : ℤ

pub data SettleOutcome : Type 0 where
  hold_settled :
      Hold → Wallet → Deductions → (estimated_usage_recorded replayed : Bool) → SettleOutcome
  not_found : SettleOutcome
  settle_conflict : Mismatch → SettleOutcome
  invalid_state : Hold → SettleOutcome

pub data RechargeOutcome : Type 0 where
  credited : Wallet → (replayed : Bool) → RechargeOutcome
  recharge_invalid_user : RechargeOutcome
  recharge_conflict : Mismatch → RechargeOutcome

pub data MeteringOutcome : Type 0 where
  recorded : (id : ℕ) → (replayed : Bool) → MeteringOutcome
  metering_conflict : Mismatch → MeteringOutcome
