-- ===== src/Billing.antt =====
-- The billing service's wallets, holds and ledger: apps/billing/src/service.ts and repo.ts, over the
-- tables, constraints and triggers of db/v2-migrations/0013_v2_billing.sql and
-- 0015_v2_billing_idempotency.sql.
pub mod Types
pub mod Rows
pub mod Hold
pub mod Metering
pub mod Settle
pub mod Sweep
pub mod Books
pub mod Replay
pub mod Funds
pub mod Charge
pub mod MeterReplay
pub mod SettleTables
pub mod SettleReplay
pub mod Payments
mod Scenario
mod Tests
