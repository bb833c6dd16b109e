-- ===== src/Billing/Payments/Ended.antt =====
-- `finishAttempt` of apps/billing/src/payment-attempts.ts, when the same end arrives again.
use combo.Prelude.{
  ◌==◌, if◌then◌else◌, ==_iff, ==_refl, Bool-cases, Option-cases, same_option, ℕ, ◌≡◌, refl, sym,
  ap, subst, inl, inr, true, false, ◌&&◌, Option, none, some, List, [], ◌∷◌, arith,
}
use combo.Billing.Types.{ok}
use combo.Billing.Payments.{
  Call, AttemptState, running, succeeded, failed_no_charge, unknown, CallAttempt, PaymentDb,
  find_call,
}
use combo.Billing.Payments.Attempt.{
  new_attempt, find_attempt, same_attempt_state, insert_attempt, find_call_of_hold, call_of_hold,
  AttemptResult, FinishOutcome, attempt_recorded, attempt_conflict, finish, ended_as,
  update_attempt, ensure_attempt, finish_running, finish_found, finish_attempt,
}

same_attempt_state_eq : (s t : AttemptState) → same_attempt_state s t ≡ true → s ≡ t
same_attempt_state_eq running running h = refl
same_attempt_state_eq running succeeded h = absurd (ground (arith, h))
same_attempt_state_eq running failed_no_charge h = absurd (ground (arith, h))
same_attempt_state_eq running unknown h = absurd (ground (arith, h))
same_attempt_state_eq succeeded running h = absurd (ground (arith, h))
same_attempt_state_eq succeeded succeeded h = refl
same_attempt_state_eq succeeded failed_no_charge h = absurd (ground (arith, h))
same_attempt_state_eq succeeded unknown h = absurd (ground (arith, h))
same_attempt_state_eq failed_no_charge running h = absurd (ground (arith, h))
same_attempt_state_eq failed_no_charge succeeded h = absurd (ground (arith, h))
same_attempt_state_eq failed_no_charge failed_no_charge h = refl
same_attempt_state_eq failed_no_charge unknown h = absurd (ground (arith, h))
same_attempt_state_eq unknown running h = absurd (ground (arith, h))
same_attempt_state_eq unknown succeeded h = absurd (ground (arith, h))
same_attempt_state_eq unknown failed_no_charge h = absurd (ground (arith, h))
same_attempt_state_eq unknown unknown h = refl

same_option_eq : (x y : Option ℕ) → same_option x y ≡ true → x ≡ y
same_option_eq none none h = refl
same_option_eq (some a) (some b) h = ap some ((==_iff a b).0 h)
same_option_eq none (some b) h = absurd (ground (arith, h))
same_option_eq (some a) none h = absurd (ground (arith, h))

find_attempt-finish :
    (input : AttemptResult) (rows : List CallAttempt) (a : CallAttempt)
    → find_attempt input.hold_id rows ≡ some a
    → find_attempt input.hold_id (finish input rows) ≡ some (ended_as input a)
unfolding find_attempt finish
find_attempt-finish input [] a e = absurd (ground (arith, e))
find_attempt-finish input (b ∷ rest) a e = elim (Bool-cases (b.hold_id == input.hold_id)) [
  | inl h ↦
      let same : b ≡ a = ground (arith, e, h) in rw (h, h) (ap (λ x. some (ended_as input x)) same)
  | inr h ↦ rw (h, h) (find_attempt-finish input rest a (ground (arith, e, h)))
]

-- The call of a hold depends on the call of the attempt alone.
call_of_hold-kept :
    (hold : ℕ) (db after : PaymentDb) (c : Call) (a b : CallAttempt)
    → call_of_hold hold db ≡ some c
    → after.calls ≡ db.calls
    → find_attempt hold db.attempts ≡ some a
    → find_attempt hold after.attempts ≡ some b
    → b.call_ref ≡ a.call_ref
    → call_of_hold hold after ≡ some c
call_of_hold-kept hold db after c a b e calls old new call =
    elim (Option-cases (find_call_of_hold hold db.calls)) [
      | inr (d, direct) ↦
          let direct1 = subst (λ cs. find_call_of_hold hold cs ≡ some d) (sym calls) direct in
          ground (arith, e, direct, direct1)
      | inl other ↦
          let other1 = subst (λ cs. find_call_of_hold hold cs ≡ none) (sym calls) other in
          let row : find_call a.call_ref db.calls ≡ some c = ground (arith, e, other, old) in
          let row1 : find_call b.call_ref after.calls ≡ some c =
            subst (λ cs. find_call b.call_ref cs ≡ some c) (sym calls)
              (subst (λ i. find_call i db.calls ≡ some c) (sym call) row) in
          ground (arith, other1, new, row1)
    ]

-- What a later result is answered, by the end of the attempt.
abbrev answer_to : AttemptResult → AttemptState → Option ℕ → FinishOutcome
answer_to later state reason =
    if same_attempt_state state later.outcome && same_option reason later.failure_reason
    then attempt_recorded
    else attempt_conflict

ended_attempt_final :
    (later : AttemptResult) (db : PaymentDb) (c : Call) (a : CallAttempt)
    → same_attempt_state a.state running ≡ false
    → call_of_hold later.hold_id db ≡ some c
    → find_attempt later.hold_id db.attempts ≡ some a
    → finish_attempt later db ≡ ok (answer_to later a.state a.failure_reason, db)
unfolding finish_attempt finish_found
ended_attempt_final later db c a ended e there = ground (arith, ended, e, there)

finish_running_rows :
    (input : AttemptResult) (c : Call) (a : CallAttempt) (db after : PaymentDb)
    → finish_running input c (some a) db ≡ ok (attempt_recorded, after)
    → (after.calls ≡ db.calls) × (after.attempts ≡ finish input db.attempts)
unfolding finish_running ensure_attempt update_attempt
finish_running_rows input c a db after h = (ground (arith, h), ground (arith, h))

finish_first_rows :
    (input : AttemptResult) (c : Call) (db after : PaymentDb)
    → finish_running input c none db ≡ ok (attempt_recorded, after)
    → (after.calls ≡ db.calls)
      × (after.attempts ≡ finish input (new_attempt c.id 1 input.hold_id c.call_id ∷ db.attempts))
unfolding finish_running ensure_attempt insert_attempt update_attempt
finish_first_rows input c db after h = (ground (arith, h), ground (arith, h))

final_by :
    (input later : AttemptResult) (db : PaymentDb) (c : Call) (a : CallAttempt)
    → same_attempt_state input.outcome running ≡ false
    → later.hold_id ≡ input.hold_id
    → call_of_hold input.hold_id db ≡ some c
    → find_attempt input.hold_id db.attempts ≡ some (ended_as input a)
    → finish_attempt later db ≡ ok (answer_to later input.outcome input.failure_reason, db)
final_by input later db c a outcome hold e there =
    ended_attempt_final later db c (ended_as input a) outcome
      (subst (λ i. call_of_hold i db ≡ some c) (sym hold) e)
      (subst (λ i. find_attempt i db.attempts ≡ some (ended_as input a)) (sym hold) there)

call_of_hold-first :
    (hold : ℕ) (db after : PaymentDb) (c : Call)
    → call_of_hold hold db ≡ some c
    → find_attempt hold db.attempts ≡ none
    → after.calls ≡ db.calls
    → call_of_hold hold after ≡ some c
call_of_hold-first hold db after c e new calls =
    elim (Option-cases (find_call_of_hold hold db.calls)) [
      | inl other ↦ absurd (ground (arith, e, new, other))
      | inr (d, direct) ↦
          let direct1 = subst (λ cs. find_call_of_hold hold cs ≡ some d) (sym calls) direct in
          ground (arith, e, direct, direct1)
    ]

-- The end of an attempt that is not kept yet.
first_final :
    (input later : AttemptResult) (db after : PaymentDb) (c : Call)
    → same_attempt_state input.outcome running ≡ false
    → later.hold_id ≡ input.hold_id
    → call_of_hold input.hold_id db ≡ some c
    → find_attempt input.hold_id db.attempts ≡ none
    → finish_running input c none db ≡ ok (attempt_recorded, after)
    → finish_attempt later after ≡ ok (answer_to later input.outcome input.failure_reason, after)
unfolding find_attempt
first_final input later db after c outcome hold e new h =
    let row = new_attempt c.id 1 input.hold_id c.call_id in
    let (calls, attempts) = finish_first_rows input c db after h in
    let here : find_attempt input.hold_id (row ∷ db.attempts) ≡ some row =
      rw (==_refl input.hold_id) refl in
    final_by input later after c row outcome hold
      (call_of_hold-first input.hold_id db after c e new calls)
      (subst (λ rows. find_attempt input.hold_id rows ≡ some (ended_as input row)) (sym attempts)
        (find_attempt-finish input (row ∷ db.attempts) row here))

-- The end of an attempt that runs.
running_final :
    (input later : AttemptResult) (db after : PaymentDb) (c : Call) (a : CallAttempt)
    → same_attempt_state input.outcome running ≡ false
    → later.hold_id ≡ input.hold_id
    → call_of_hold input.hold_id db ≡ some c
    → find_attempt input.hold_id db.attempts ≡ some a
    → finish_running input c (some a) db ≡ ok (attempt_recorded, after)
    → finish_attempt later after ≡ ok (answer_to later input.outcome input.failure_reason, after)
running_final input later db after c a outcome hold e there h =
    let (calls, attempts) = finish_running_rows input c a db after h in
    let there1 : find_attempt input.hold_id after.attempts ≡ some (ended_as input a) =
      subst (λ rows. find_attempt input.hold_id rows ≡ some (ended_as input a)) (sym attempts)
        (find_attempt-finish input db.attempts a there) in
    final_by input later after c a outcome hold
      (call_of_hold-kept input.hold_id db after c a (ended_as input a) e calls there there1 refl)
      there1

-- An attempt that had ended that way before.
again_final :
    (input later : AttemptResult) (db after : PaymentDb) (c : Call) (a : CallAttempt)
    → same_attempt_state a.state running ≡ false
    → later.hold_id ≡ input.hold_id
    → call_of_hold input.hold_id db ≡ some c
    → find_attempt input.hold_id db.attempts ≡ some a
    → finish_attempt input db ≡ ok (attempt_recorded, after)
    → finish_attempt later after ≡ ok (answer_to later input.outcome input.failure_reason, after)
again_final input later db after c a ended hold e there h =
    let first = ended_attempt_final input db c a ended e there in
    let answered : answer_to input a.state a.failure_reason ≡ attempt_recorded =
      ground (arith, first, h) in
    let is_db : db ≡ after = ground (arith, first, h) in
    let state = same_attempt_state_eq a.state input.outcome (ground (arith, answered)) in
    let reason = same_option_eq a.failure_reason input.failure_reason (ground (arith, answered)) in
    subst (λ x. finish_attempt later x ≡ ok (answer_to later input.outcome input.failure_reason, x))
      is_db
      (subst (λ r. finish_attempt later db ≡ ok (answer_to later input.outcome r, db)) reason
        (subst (λ t. finish_attempt later db ≡ ok (answer_to later t a.failure_reason, db)) state
          (ended_attempt_final later db c a ended
            (subst (λ i. call_of_hold i db ≡ some c) (sym hold) e)
            (subst (λ i. find_attempt i db.attempts ≡ some a) (sym hold) there))))

-- An end that was recorded for an attempt is final: the same result is recorded again and any other
-- is refused, without a change of the tables. The result is not `running`, as its schema asks.
pub finish_attempt_final :
    (input later : AttemptResult) (db after : PaymentDb)
    → same_attempt_state input.outcome running ≡ false
    → later.hold_id ≡ input.hold_id
    → finish_attempt input db ≡ ok (attempt_recorded, after)
    → finish_attempt later after
      ≡ ok (
        if same_attempt_state input.outcome later.outcome
              && same_option input.failure_reason later.failure_reason
            then attempt_recorded
            else attempt_conflict,
        after,
      )
unfolding finish_attempt finish_found
finish_attempt_final input later db after outcome hold h =
    elim (Option-cases (call_of_hold input.hold_id db)) [
      | inl none_found ↦ absurd (ground (arith, h, none_found))
      | inr (c, e) ↦ elim (Option-cases (find_attempt input.hold_id db.attempts)) [
        | inl new ↦
            first_final input later db after c outcome hold e new (ground (arith, h, e, new))
        | inr (a, there) ↦ elim (Bool-cases (same_attempt_state a.state running)) [
          | inl going ↦
              running_final input later db after c a outcome hold e there
                (ground (arith, h, e, there, going))
          | inr ended ↦ again_final input later db after c a ended hold e there h
        ]
      ]
    ]
