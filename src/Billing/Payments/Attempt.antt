-- ===== src/Billing/Payments/Attempt.antt =====
-- apps/billing/src/payment-attempts.ts: the attempts of a call, and how they end.
use combo.Prelude.{
  ltb, leb, ◌==◌, if◌then◌else◌, same_option, ℕ, ◌-◌, Bool, true, false, not, ◌&&◌, ◌||◌, Option,
  none, some, List, [], ◌∷◌,
}
use combo.Billing.Types.{
  ok, ◌>>=◌, ◌>>◌, require, Status, settled, Hold, Kind, consume, Entry, Metering, unique_violation,
  check_violation, trigger_violation, Result,
}
use combo.Billing.Rows.{find_hold, is_some}
use combo.Billing.Payments.{
  Call, AttemptState, running, succeeded, failed_no_charge, unknown, CallAttempt, PaymentDb,
  find_call,
}

-- The later of an attempt and those of the rest.
abbrev pub later_attempt : CallAttempt → Option CallAttempt → CallAttempt
later_attempt a none = a
later_attempt a (some b) = if ltb a.attempt_no b.attempt_no then b else a

-- `latestAttempt`.
unfoldable pub latest_attempt : (call_ref : ℕ) → List CallAttempt → Option CallAttempt
latest_attempt call [] = none
latest_attempt call (a ∷ rest) =
    let latest = latest_attempt call rest in
    if a.call_ref == call then some (later_attempt a latest) else latest

unfoldable pub has_attempt : (call_ref attempt_no : ℕ) → List CallAttempt → Bool
has_attempt call n [] = false
has_attempt call n (a ∷ rest) = (a.call_ref == call && a.attempt_no == n) || has_attempt call n rest

abbrev pub new_attempt : (call_ref attempt_no hold_id execution_id : ℕ) → CallAttempt
new_attempt call n hold execution = record {
  call_ref = call;
  attempt_no = n;
  hold_id = hold;
  execution_id = execution;
  state = running;
  failure_reason = none;
}

unfoldable pub find_attempt : (hold_id : ℕ) → List CallAttempt → Option CallAttempt
find_attempt hold [] = none
find_attempt hold (a ∷ rest) = if a.hold_id == hold then some a else find_attempt hold rest

abbrev pub same_attempt_state : AttemptState → AttemptState → Bool
same_attempt_state running running = true
same_attempt_state succeeded succeeded = true
same_attempt_state failed_no_charge failed_no_charge = true
same_attempt_state unknown unknown = true
same_attempt_state _ _ = false

abbrev pub is_settled : Status → Bool
is_settled settled = true
is_settled _ = false

unfoldable pub has_usage : (hold_id : ℕ) → List Metering → Bool
has_usage hold [] = false
has_usage hold (m ∷ ms) = same_option m.hold_id (some hold) || has_usage hold ms

-- What an outcome asks of the hold and its usage.
unfoldable pub allows_outcome : AttemptState → Hold → List Metering → Bool
allows_outcome succeeded h ms = is_settled h.status
allows_outcome failed_no_charge h ms =
    is_settled h.status && same_option h.actual_amount (some 0) && not (has_usage h.id ms)
allows_outcome _ h ms = true

abbrev is_consume : Kind → Bool
is_consume consume = true
is_consume _ = false

unfoldable pub has_charge : (hold_id : ℕ) → List Entry → Bool
has_charge hold [] = false
has_charge hold (e ∷ es) =
    (is_consume e.kind && same_option e.ref_id (some hold)) || has_charge hold es

-- A reason stands with a failure, and with no other state.
abbrev pub fits_reason : AttemptState → Option ℕ → Bool
fits_reason failed_no_charge (some _) = true
fits_reason failed_no_charge none = false
fits_reason _ none = true
fits_reason _ (some _) = false

-- enforce_v2_call_attempt, for a row that is inserted or updated: the hold is one of the call.
abbrev pub fits_call : CallAttempt → Call → Hold → Bool
fits_call a c h =
    h.user_id == c.user_id
    && h.agent_id == c.agent_id
    && h.turn_id == a.execution_id
    && h.estimated_amount == c.estimated_amount

-- The rest of that trigger and the CHECK on the reason.
unfoldable pub may_be_kept : CallAttempt → PaymentDb → Bool
may_be_kept a db = elim (find_call a.call_ref db.calls) [
  | none ↦ false
  | some c ↦ elim (find_hold a.hold_id db.billing.holds) [
    | none ↦ false
    | some h ↦
        fits_reason a.state a.failure_reason
        && fits_call a c h
        && allows_outcome a.state h db.billing.metering
        && not (same_attempt_state a.state failed_no_charge && has_charge h.id db.billing.ledger)
  ]
]

unfoldable pub find_attempt_no : (call_ref attempt_no : ℕ) → List CallAttempt → Option CallAttempt
find_attempt_no call n [] = none
find_attempt_no call n (a ∷ rest) =
    if a.call_ref == call && a.attempt_no == n then some a else find_attempt_no call n rest

-- The trigger on a new row: the first attempt has the call's own hold, and a later one follows a
-- failure.
unfoldable pub may_follow : CallAttempt → PaymentDb → Bool
may_follow a db =
    if a.attempt_no == 1
    then elim (find_call a.call_ref db.calls) [
      | none ↦ false
      | some c ↦ same_option c.hold_id (some a.hold_id) && a.execution_id == c.call_id
    ]
    else elim (find_attempt_no a.call_ref (a.attempt_no - 1) db.attempts) [
      | none ↦ false
      | some before ↦ same_attempt_state before.state failed_no_charge
    ]

-- `insertAttempt`: the CHECK on the number, the trigger, and the keys of v2_call_attempts, by call and
-- number and by hold.
unfoldable pub insert_attempt :
    (call_ref attempt_no hold_id execution_id : ℕ) → PaymentDb → Result PaymentDb
insert_attempt call n hold execution db = do
  let a = new_attempt call n hold execution
  require (may_be_kept a db && may_follow a db) trigger_violation
  require (leb 1 n && leb n 20) check_violation
  require (not (has_attempt call n db.attempts || is_some (find_attempt hold db.attempts)))
      unique_violation
  ok (record db { attempts = a ∷ db.attempts })

unfoldable pub find_call_of_hold : (hold_id : ℕ) → List Call → Option Call
find_call_of_hold hold [] = none
find_call_of_hold hold (c ∷ cs) =
    let rest = find_call_of_hold hold cs in
    elim c.hold_id [ none ↦ rest | some h ↦ if h == hold then some c else rest ]

-- The call that has the hold, or that an attempt with the hold belongs to.
abbrev pub call_of_hold : (hold_id : ℕ) → PaymentDb → Option Call
call_of_hold hold db = elim (find_call_of_hold hold db.calls) [
  | some c ↦ some c
  | none ↦ elim (find_attempt hold db.attempts) [
    | none ↦ none
    | some a ↦ find_call a.call_ref db.calls
  ]
]

-- `CallAttemptResult`.
pub record AttemptResult : Type 0 where
  pub hold_id : ℕ
  pub outcome : AttemptState
  pub failure_reason : Option ℕ

pub data FinishOutcome : Type 0 where
  attempt_recorded attempt_conflict attempt_not_found : FinishOutcome

-- UPDATE v2_call_attempts … WHERE hold_id = $1.
unfoldable pub finish : AttemptResult → List CallAttempt → List CallAttempt
finish input [] = []
finish input (a ∷ rest) =
    (if a.hold_id == input.hold_id
      then record a { state = input.outcome; failure_reason = input.failure_reason }
      else a)
    ∷ finish input rest

-- The row as the UPDATE leaves it.
abbrev pub ended_as : AttemptResult → CallAttempt → CallAttempt
ended_as input a = record a { state = input.outcome; failure_reason = input.failure_reason }

-- The UPDATE, with its trigger and the CHECK on the reason.
unfoldable pub update_attempt : AttemptResult → PaymentDb → Result PaymentDb
update_attempt input db = do
  require
      (elim (find_attempt input.hold_id db.attempts) [
        | none ↦ true
        | some a ↦ may_be_kept (ended_as input a) db
      ])
      trigger_violation
  ok (record db { attempts = finish input db.attempts })

-- A call of before the attempts were kept gets its first one.
unfoldable pub ensure_attempt :
    AttemptResult → Call → Option CallAttempt → PaymentDb → Option (Result PaymentDb)
ensure_attempt input c (some a) db = some (ok db)
ensure_attempt input c none db =
    if same_option c.hold_id (some input.hold_id)
      && same_attempt_state input.outcome failed_no_charge
    then some (insert_attempt c.id 1 input.hold_id c.call_id db)
    else none

abbrev pub record_attempt :
    AttemptResult → Option (Result PaymentDb) → PaymentDb → Result (FinishOutcome × PaymentDb)
record_attempt input none db = ok (attempt_conflict, db)
record_attempt input (some ensured) db =
    ensured >>= λ db1. (update_attempt input db1 >>= λ db2. ok (attempt_recorded, db2))

-- From the read of the hold.
unfoldable pub finish_running :
    AttemptResult → Call → Option CallAttempt → PaymentDb → Result (FinishOutcome × PaymentDb)
finish_running input c attempt db = elim (find_hold input.hold_id db.billing.holds) [
  | none ↦ ok (attempt_not_found, db)
  | some h ↦
      if not (allows_outcome input.outcome h db.billing.metering)
      then ok (attempt_conflict, db)
      else record_attempt input (ensure_attempt input c attempt db) db
]

-- An attempt that has ended keeps its end.
unfoldable pub finish_found :
    AttemptResult → Call → Option CallAttempt → PaymentDb → Result (FinishOutcome × PaymentDb)
finish_found input c none db = finish_running input c none db
finish_found input c (some a) db =
    if same_attempt_state a.state running
    then finish_running input c (some a) db
    else ok (
      if same_attempt_state a.state input.outcome
            && same_option a.failure_reason input.failure_reason
          then attempt_recorded
          else attempt_conflict,
      db,
    )

-- `finishAttempt`.
unfoldable pub finish_attempt : AttemptResult → PaymentDb → Result (FinishOutcome × PaymentDb)
finish_attempt input db = elim (call_of_hold input.hold_id db) [
  | none ↦ ok (attempt_not_found, db)
  | some c ↦ finish_found input c (find_attempt input.hold_id db.attempts) db
]
