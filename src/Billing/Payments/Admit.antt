-- ===== src/Billing/Payments/Admit.antt =====
-- `admitCall` of apps/billing/src/payment-repo.ts. The new ids and the service's own clock are
-- arguments; the input is one that its schema has parsed.
use combo.Prelude.{
  ltb, ◌==◌, if◌then◌else◌, ℕ, ◌+◌, Bool, true, false, not, ◌&&◌, ◌||◌, Option, none, some, List,
  [], ◌∷◌,
}
use combo.Prelude.Int.{pos, ltb_ℤ}
use combo.Billing.Types.{
  ok, ◌>>=◌, ◌>>◌, require, Wallet, held, Hold, hold_entry, release, claim, hold_key, payment_key,
  Db, Digests, unique_violation, Result,
}
use combo.Billing.Rows.{
  available_balance, set_wallet, lock_wallet, find_hold_by_turn, is_some, insert_hold, insert_entry,
}
use combo.Billing.Hold.{hold_ttl_seconds}
use combo.Billing.Payments.{
  Call, PaymentState, required, completed, Payment, claimed, Funds, failed_no_charge, CallAttempt,
  PaymentDb, find_call, find_payment, payment_for_call,
}
use combo.Billing.Payments.Attempt.{latest_attempt, insert_attempt, same_attempt_state}
use combo.Billing.Payments.Release.{is_available}

-- `CallAdmissionInput`.
pub record AdmissionInput : Type 0 where
  pub user_id : ℕ
  pub agent_id : ℕ
  pub operation_id : ℕ
  pub call_id : ℕ
  pub request_fingerprint : ℕ
  pub pricing_policy_id : ℕ
  pub estimated_amount : ℕ

pub record FreshIds : Type 0 where
  pub call_row : ℕ
  pub hold : ℕ
  pub payment : ℕ
  pub execution : ℕ

pub data AdmissionOutcome : Type 0 where
  call_admitted : (hold_id : ℕ) → (replayed : Bool) → (execution_id : Option ℕ) → AdmissionOutcome
  payment_required : Payment → AdmissionOutcome
  call_not_found call_conflict : AdmissionOutcome

abbrev pub Admission : Type 0
Admission = Result (AdmissionOutcome × PaymentDb)

unfoldable pub find_call_by : (agent_id call_id : ℕ) → List Call → Option Call
find_call_by agent call [] = none
find_call_by agent call (c ∷ cs) =
    if c.agent_id == agent && c.call_id == call then some c else find_call_by agent call cs

-- `matches`.
unfoldable pub matches : Call → AdmissionInput → Bool
matches c input =
    c.user_id == input.user_id
    && c.operation_id == input.operation_id
    && c.request_fingerprint == input.request_fingerprint
    && c.pricing_policy_id == input.pricing_policy_id
    && c.estimated_amount == input.estimated_amount

-- UPDATE v2_billable_calls SET hold_id = $2 WHERE id = $1.
unfoldable pub set_call_hold : (id hold_id : ℕ) → List Call → List Call
set_call_hold i hold [] = []
set_call_hold i hold (c ∷ cs) =
    (if c.id == i then record c { hold_id = some hold } else c) ∷ set_call_hold i hold cs

-- UPDATE … SET state = 'claimed' WHERE payment_id = $1 AND state = 'available'.
unfoldable pub claim_funds : ℕ → List Funds → List Funds
claim_funds i [] = []
claim_funds i (f ∷ fs) =
    (if f.payment_id == i && is_available f.state then record f { state = claimed } else f)
    ∷ claim_funds i fs

abbrev pub call_hold : (hold_id execution_id : ℕ) → Call → Db → Hold
call_hold hold execution c db = record {
  id = hold;
  user_id = c.user_id;
  agent_id = c.agent_id;
  turn_id = execution;
  estimated_amount = c.estimated_amount;
  actual_amount = none;
  status = held;
  expires_at = db.now + hold_ttl_seconds;
}

-- UPDATE v2_wallets SET held_amount = held_amount + $2: no row, no change.
unfoldable pub freeze : ℕ → ℕ → Db → Db
freeze u amount db = elim (db.wallets u) [
  | none ↦ db
  | some w ↦ set_wallet u (record w { held_amount = w.held_amount + amount }) db
]

-- The money of a hold: the funds of its payment, or the wallet's.
unfoldable pub fund_hold : Call → Option ℕ → PaymentDb → Result PaymentDb
fund_hold c none db = ok (record db { billing = freeze c.user_id c.estimated_amount db.billing })
fund_hold c (some payment) db = do
  billing ←
      insert_entry
        (record {
          user_id = c.user_id;
          kind = release;
          bucket = none;
          amount = pos c.estimated_amount;
          ref_id = some payment;
          key = payment_key claim payment;
        })
        db.billing
  ok (record db { billing = billing; funds = claim_funds payment db.funds })

abbrev pub link_hold : Call → ℕ → PaymentDb → PaymentDb
link_hold c hold db = elim c.hold_id [
  | none ↦ record db { calls = set_call_hold c.id hold db.calls }
  | some _ ↦ db
]

-- `createHold` of payment-repo.ts.
unfoldable pub create_call_hold :
    Digests
    → (hold_id : ℕ) → Call
    → (reserved : Option ℕ) → (attempt_no execution_id : ℕ) → PaymentDb
    → Result PaymentDb
create_call_hold digests hold c reserved n execution db = do
  billing ← insert_hold (call_hold hold execution c db.billing) db.billing
  db1 ← fund_hold c reserved (record db { billing = billing })
  billing1 ←
      insert_entry
        (record {
          user_id = c.user_id;
          kind = hold_entry;
          bucket = none;
          amount = pos c.estimated_amount;
          ref_id = some hold;
          key = hold_key (digests.of_turn c.agent_id execution);
        })
        db1.billing
  insert_attempt c.id n hold execution (link_hold c hold (record db1 { billing = billing1 }))

abbrev pub admitted_as : (hold_id execution_id : ℕ) → Result PaymentDb → Admission
admitted_as hold execution placed =
    placed >>= λ db. ok (call_admitted hold false (some execution), db)

-- Another attempt of a call whose last one failed without a charge, with the locked wallet.
unfoldable pub retry_locked :
    Digests → FreshIds → AdmissionInput → Call → CallAttempt → Wallet → PaymentDb → Admission
retry_locked digests fresh input c a w db =
    if ltb_ℤ (available_balance w) (pos input.estimated_amount)
    then ok (call_conflict, db)
    else admitted_as fresh.hold fresh.execution
        (create_call_hold digests fresh.hold c none (a.attempt_no + 1) fresh.execution db)

unfoldable pub retry_call :
    Digests → FreshIds → AdmissionInput → Call → CallAttempt → PaymentDb → Admission
retry_call digests fresh input c a db =
    (lock_wallet input.user_id db.billing >>= λ l.
    retry_locked digests fresh input c a l.0 (record db { billing = l.1 }))

-- A call that has a hold.
unfoldable pub readmit :
    Digests
    → FreshIds
    → AdmissionInput
    → Call
    → (hold_id : ℕ) → Option CallAttempt
    → PaymentDb
    → Admission
readmit digests fresh input c hold none db = ok (call_admitted hold true none, db)
readmit digests fresh input c hold (some a) db =
    if same_attempt_state a.state failed_no_charge && ltb a.attempt_no 20
    then retry_call digests fresh input c a db
    else ok (call_admitted a.hold_id true (some a.execution_id), db)

unfoldable pub find_funds : (call_ref : ℕ) → List Funds → Option Funds
find_funds call [] = none
find_funds call (f ∷ fs) = if f.call_ref == call then some f else find_funds call fs

abbrev payment_ttl_seconds : ℕ
payment_ttl_seconds = 900

abbrev pub is_completed : PaymentState → Bool
is_completed completed = true
is_completed _ = false

abbrev pub new_payment : Digests → FreshIds → Call → Db → Payment
new_payment digests fresh c db = record {
  id = fresh.payment;
  call_ref = c.id;
  user_id = c.user_id;
  amount = c.estimated_amount;
  token_digest = digests.of_token (digests.issue_token fresh.payment);
  state = required;
  channel_transaction_id = none;
  expires_at = db.now + payment_ttl_seconds;
}

unfoldable pub has_token : (token_digest : ℕ) → List Payment → Bool
has_token t [] = false
has_token t (p ∷ ps) = p.token_digest == t || has_token t ps

-- INSERT INTO v2_payment_requests, with its primary key and the unique token; the call has no payment.
unfoldable pub ask_payment : Digests → FreshIds → Call → PaymentDb → Admission
ask_payment digests fresh c db = do
  require (not (is_some (find_payment fresh.payment db.payments))) unique_violation
  let p = new_payment digests fresh c db.billing
  require (not (has_token p.token_digest db.payments)) unique_violation
  ok (payment_required p, record db { payments = p ∷ db.payments })

-- By the wallet and the payment, where no funds are available.
unfoldable pub admit_unfunded :
    Digests → FreshIds → (clock : ℕ) → Call → Option Payment → Wallet → PaymentDb → Admission
admit_unfunded digests fresh clock c (some p) w db =
    if not (is_completed p.state)
    then ok (if ltb clock p.expires_at then payment_required p else call_conflict, db)
    else if ltb_ℤ (available_balance w) (pos c.estimated_amount)
    then ok (call_conflict, db)
    else admitted_as fresh.hold c.call_id
        (create_call_hold digests fresh.hold c none 1 c.call_id db)
admit_unfunded digests fresh clock c none w db =
    if ltb_ℤ (available_balance w) (pos c.estimated_amount)
    then ask_payment digests fresh c db
    else admitted_as fresh.hold c.call_id
        (create_call_hold digests fresh.hold c none 1 c.call_id db)

-- By the funds of the call.
unfoldable pub admit_funded :
    Digests → FreshIds → (clock : ℕ) → Call → Option Funds → Wallet → PaymentDb → Admission
admit_funded digests fresh clock c none w db =
    admit_unfunded digests fresh clock c (payment_for_call c.id db.payments) w db
admit_funded digests fresh clock c (some f) w db =
    if not (is_available f.state)
    then admit_unfunded digests fresh clock c (payment_for_call c.id db.payments) w db
    else if ltb clock f.expires_at
    then admitted_as fresh.hold c.call_id
        (create_call_hold digests fresh.hold c (some f.payment_id) 1 c.call_id db)
    else ok (call_conflict, db)

-- From the read of the payment and its funds; the call has the user and the estimate of the input.
unfoldable pub admit_new : Digests → FreshIds → (clock : ℕ) → Call → PaymentDb → Admission
admit_new digests fresh clock c db =
    (lock_wallet c.user_id db.billing >>= λ l.
    admit_funded digests fresh clock c (find_funds c.id db.funds) l.0 (record db { billing = l.1 }))

abbrev pub new_call : FreshIds → AdmissionInput → Call
new_call fresh input = record {
  id = fresh.call_row;
  user_id = input.user_id;
  agent_id = input.agent_id;
  operation_id = input.operation_id;
  call_id = input.call_id;
  request_fingerprint = input.request_fingerprint;
  pricing_policy_id = input.pricing_policy_id;
  estimated_amount = input.estimated_amount;
  hold_id = none;
}

-- The view of the hold endpoint, which sees the new row.
abbrev pub with_billable : Call → Db → Db
with_billable c db = record db {
  billable = λ a t. (a == c.agent_id && t == c.call_id) || db.billable a t;
}

-- INSERT INTO v2_billable_calls, with its primary key; the agent and the call have no row.
unfoldable pub insert_call : Call → PaymentDb → Result (Call × PaymentDb)
insert_call c db = do
  require (not (is_some (find_call c.id db.calls))) unique_violation
  ok (c, record db { calls = c ∷ db.calls; billing = with_billable c db.billing })

unfoldable pub ensure_call :
    FreshIds → AdmissionInput → Option Call → PaymentDb → Result (Call × PaymentDb)
ensure_call fresh input (some c) db = ok (c, db)
ensure_call fresh input none db = insert_call (new_call fresh input) db

-- A call without a hold, from the look for a hold of the other endpoint.
unfoldable pub admit_call_row :
    Digests → FreshIds → (clock : ℕ) → AdmissionInput → Option Call → PaymentDb → Admission
admit_call_row digests fresh clock input c db =
    if is_some (find_hold_by_turn input.agent_id input.call_id db.billing.holds)
    then ok (call_conflict, db)
    else if not (db.billing.users input.user_id)
    then ok (call_not_found, db)
    else (ensure_call fresh input c db >>= λ r. admit_new digests fresh clock r.0 r.1)

-- By the row of the call.
unfoldable pub admit_found :
    Digests → FreshIds → (clock : ℕ) → AdmissionInput → Option Call → PaymentDb → Admission
admit_found digests fresh clock input none db = admit_call_row digests fresh clock input none db
admit_found digests fresh clock input (some c) db =
    if not (matches c input) then ok (call_conflict, db) else elim c.hold_id [
      | some hold ↦ readmit digests fresh input c hold (latest_attempt c.id db.attempts) db
      | none ↦ admit_call_row digests fresh clock input (some c) db
    ]

-- `admitCall`.
unfoldable pub admit_call :
    Digests → FreshIds → (clock : ℕ) → AdmissionInput → PaymentDb → Admission
admit_call digests fresh clock input db =
    admit_found digests fresh clock input (find_call_by input.agent_id input.call_id db.calls) db
