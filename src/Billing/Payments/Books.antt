-- ===== src/Billing/Payments/Books.antt =====
-- The books with payments, apps/billing/src/payment-repo.ts: a wallet's held amount is the sum of its
-- held rows and of the funds that its payments reserve.
pub mod Keep
pub mod Connects
pub mod Claims
pub mod Links
pub mod Admits
pub mod Places
pub mod Confirms
pub mod Settles
pub mod Histories
use combo.Prelude.{
  ltb, leb, ◌==◌, if◌then◌else◌, ==_iff, ==_refl, Bool-cases, Option-cases, same_option, length,
  All, All-map, ℕ, zero, suc, ◌+◌, ◌-◌, ◌*◌, ◌/◌, ◌%◌, ◌^◌, ◌≤◌, ◌<◌, ◌≡◌, refl, sym, ap, ◌∙◌,
  subst, ◌≢◌, ◌↔◌, ◌⊎◌, inl, inr, Bool, true, false, not, ◌&&◌, ◌||◌, Option, none, some, List, [],
  ◌∷◌, ◌++◌, map, arith,
}
use combo.Prelude.Int.{
  ℤ, pos, negsuc, pos_part, neg_part, sub_ℕ, ◌+ℤ◌, ◌-ℤ◌, neg_ℕ, ◌≤ℤ◌, ltb_ℤ, leb_ℤ, +ℤ_parts,
  -ℤ_parts, neg_ℕ_parts, eq_of_parts, int_laws, neg_ℕ-+ℤ, -ℤ-zero, +ℤ_comm,
}
use combo.Billing.Types.{
  ok, err, ◌>>=◌, ◌>>◌, require, >>=-eq-ok, Wallet, Status, held, settled, released, expired, Hold,
  Kind, recharge, consume, hold_entry, release, Bucket, principal, bonus, PaymentStep, reserve,
  claim, expire, LedgerKey, hold_key, settle_key, release_key, recharge_key, payment_key, Entry,
  Source, gateway, agent_report, estimated, MeterKey, reported_key, estimated_key, Metering, Db,
  Digests, Fault, unsafe_range, missing_wallet, unique_violation, check_violation,
  trigger_violation, type_error, invalid_limit, Result, Mismatch, idempotency_mismatch,
  terminal_replay, balance_range_exceeded, hold_scope_mismatch, hold_not_active, HoldOutcome,
  hold_placed, hold_conflict, hold_invalid_user, insufficient, overdraft_blocked, Deductions,
  SettleOutcome, hold_settled, not_found, settle_conflict, invalid_state, RechargeOutcome, credited,
  recharge_invalid_user, recharge_conflict, MeteringOutcome, recorded, metering_conflict,
}
use combo.Billing.Rows.{
  max_safe_integer, is_safe, wallet_state_is_safe, wallet_is_safe, to_wallet, safe_option, to_hold,
  net, available_balance, is_held, zero_wallet, wallet_or_zero, set_wallet, wallet_row, lock_wallet,
  read_wallet, find_hold, find_hold_by_turn, is_some, insert_hold, set_hold, may_change,
  update_hold, same_bucket, same_step, same_key, find_entry, has_shape, insert_entry,
}
use combo.Billing.Books.{held_sum, in_bucket, ledger_sum, wallet_of, IsFresh, IsKeyed, IsBalanced}
use combo.Billing.Payments.{
  Call, PaymentState, required, waiting, completed, Payment, FundsState, available, claimed,
  given_back, Funds, AttemptState, running, succeeded, failed_no_charge, unknown, CallAttempt,
  PaymentDb, find_call, find_payment, payment_for_call, is_channel, has_channel, complete,
  has_funds, insert_funds,
}
use combo.Billing.Payments.Release.{
  is_available, is_due_funds, find_due, give_back, release_locked, release_funds, release_found,
  release_call, release_calls, due_funds, insert_funds_by_expiry, sort_funds, calls_of,
  release_expired_funds,
}

-- The available funds of a user.
unfoldable pub funds_sum : ℕ → List Funds → ℕ
funds_sum u [] = 0
funds_sum u (f ∷ fs) =
    (if f.user_id == u && is_available f.state then f.amount else 0) + funds_sum u fs

abbrev pub IsFreshFunds : ℕ → List Funds → Type 0
IsFreshFunds i fs = All (λ f. (f.payment_id == i) ≡ false) fs

-- The primary key of v2_payment_fund_reservations.
abbrev pub IsKeyedFunds : List Funds → Type 0
IsKeyedFunds [] = Unit
IsKeyedFunds (f ∷ fs) = IsFreshFunds f.payment_id fs × IsKeyedFunds fs

-- Every wallet is backed by the rows of its user.
pub record IsFunded (db : PaymentDb) : Type 0 where
  pub backs_held :
      (u : ℕ)
      → (wallet_of u db.billing).held_amount ≡ held_sum u db.billing.holds + funds_sum u db.funds
  pub backs_principal :
      (u : ℕ)
      → (wallet_of u db.billing).principal_balance ≡ ledger_sum u principal db.billing.ledger
  pub backs_bonus :
      (u : ℕ) → (wallet_of u db.billing).bonus_balance ≡ ledger_sum u bonus db.billing.ledger
  pub is_keyed : IsKeyedFunds db.funds

pub has_funds-IsFreshFunds :
    (i call : ℕ) (fs : List Funds) → has_funds i call fs ≡ false → IsFreshFunds i fs
unfolding has_funds
has_funds-IsFreshFunds i call [] h = tt
has_funds-IsFreshFunds i call (f ∷ fs) h =
    (ground arith, has_funds-IsFreshFunds i call fs (ground arith))

IsFreshFunds-give_back :
    (i j : ℕ) (fs : List Funds) → IsFreshFunds i fs → IsFreshFunds i (give_back j fs)
unfolding give_back
IsFreshFunds-give_back i j [] h = tt
IsFreshFunds-give_back i j (f ∷ fs) (h, hs) = elim (Bool-cases (f.payment_id == j)) [
  | inl e ↦ rw e (h, hs)
  | inr e ↦ rw e (h, IsFreshFunds-give_back i j fs hs)
]

pub IsKeyedFunds-give_back :
    (j : ℕ) (fs : List Funds) → IsKeyedFunds fs → IsKeyedFunds (give_back j fs)
unfolding give_back
IsKeyedFunds-give_back j [] k = tt
IsKeyedFunds-give_back j (f ∷ fs) (h, k) = elim (Bool-cases (f.payment_id == j)) [
  | inl e ↦ rw e (h, k)
  | inr e ↦ rw e (IsFreshFunds-give_back f.payment_id j fs h, IsKeyedFunds-give_back j fs k)
]

find_due-IsFreshFunds :
    (now call i : ℕ) (fs : List Funds) (f : Funds)
    → find_due now call fs ≡ some f
    → IsFreshFunds i fs
    → (i == f.payment_id) ≡ false
unfolding find_due
find_due-IsFreshFunds now call i [] f e h = absurd (ground (arith, e))
find_due-IsFreshFunds now call i (g ∷ gs) f e (h, hs) =
    elim (Bool-cases (g.call_ref == call && is_due_funds now g)) [
      | inl d ↦
          let same : g ≡ f = ground (arith, e, d) in
          subst (λ x. (i == x.payment_id) ≡ false) same (ground arith)
      | inr d ↦ find_due-IsFreshFunds now call i gs f (ground (arith, e, d)) hs
    ]

-- Giving a due row back takes its amount off the sum of its user.
pub funds_sum-give_back :
    (u now call : ℕ) (fs : List Funds) (f : Funds)
    → IsKeyedFunds fs
    → find_due now call fs ≡ some f
    → funds_sum u (give_back f.payment_id fs) + (if f.user_id == u then f.amount else 0)
      ≡ funds_sum u fs
unfolding funds_sum give_back find_due is_due_funds
funds_sum-give_back u now call [] f k e = absurd (ground (arith, e))
funds_sum-give_back u now call (g ∷ gs) f (fresh, k) e =
    elim (Bool-cases (g.call_ref == call && is_due_funds now g)) [
      | inl d ↦
          let same : g ≡ f = ground (arith, e, d) in
          let state : is_available g.state ≡ true = ground (arith, d) in
          subst
            (λ x.
              funds_sum u (give_back x.payment_id (g ∷ gs))
                + (if x.user_id == u then x.amount else 0)
              ≡ funds_sum u (g ∷ gs))
            same (ground (arith, ==_refl g.payment_id, state))
      | inr d ↦
          let later : find_due now call gs ≡ some f = ground (arith, e, d) in
          let other = find_due-IsFreshFunds now call g.payment_id gs f later fresh in
          ground (arith, other, funds_sum-give_back u now call gs f k later)
    ]
