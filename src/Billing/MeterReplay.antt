-- ===== src/Billing/MeterReplay.antt =====
-- Repeating a request to `insertMeteringEvent` of apps/billing/src/repo.ts.
use combo.Prelude.{
  if◌then◌else◌, ==_refl, Option-cases, same_option, ℕ, ◌≤◌, ◌≡◌, refl, ◌≢◌, inl, inr, Bool, true,
  false, Option, none, some, ◌∷◌, arith,
}
use combo.Billing.Types.{
  ok, ◌>>=◌, >>=-eq-ok, Source, gateway, agent_report, estimated, reported_key, Metering, Db,
  Digests, Result, Mismatch, idempotency_mismatch, MeteringOutcome, recorded, metering_conflict,
}
use combo.Billing.Rows.{max_safe_integer, safe_option}
use combo.Billing.Metering.{
  MeteringInput, same_source, find_metering, insert_metering, metering_matches, check_hold,
  new_metering, add_metering, insert_metering_event,
}

same_option_refl : (o : Option ℕ) → same_option o o ≡ true
same_option_refl none = refl
same_option_refl (some n) = ==_refl n

same_source_refl : (s : Source) → same_source s s ≡ true
same_source_refl gateway = refl
same_source_refl agent_report = refl
same_source_refl estimated = refl

new_metering_matches :
    (digests : Digests) (i : ℕ) (input : MeteringInput)
    → input.quantity ≤ max_safe_integer
    → safe_option input.unit_cost ≡ true
    → metering_matches (new_metering digests i input) input ≡ ok true
unfolding metering_matches
new_metering_matches digests i input quantity unit_cost = ground (
  arith,
  ==_refl input.agent_id,
  ==_refl input.user_id,
  ==_refl input.turn_id,
  ==_refl input.dimension,
  ==_refl input.quantity,
  same_option_refl input.hold_id,
  same_option_refl input.model,
  same_option_refl input.unit_cost,
  same_source_refl input.source,
)

add_metering_row :
    (digests : Digests) (i : ℕ) (input : MeteringInput) (refused : Option Mismatch) (db : Db)
    (k : ℕ) (db1 : Db)
    → add_metering digests i input refused db ≡ ok (recorded k false, db1)
    → (k ≡ i)
      × (db1.metering ≡ new_metering digests i input ∷ db.metering)
      × (input.quantity ≤ max_safe_integer)
      × (safe_option input.unit_cost ≡ true)
unfolding insert_metering
add_metering_row digests i input none db k db1 e =
    (ground arith, ground arith, ground arith, ground arith)
add_metering_row digests i input (some reason) db k db1 e = absurd cc

replay_answer : Metering → Db → Bool → Result (MeteringOutcome × Db)
replay_answer m db matches =
    ok (if matches then recorded m.id true else metering_conflict idempotency_mismatch, db)

replay_answer_replayed :
    (m : Metering) (db : Db) (matches : Bool) (k : ℕ) (db1 : Db)
    → replay_answer m db matches ≢ ok (recorded k false, db1)
unfolding replay_answer
replay_answer_replayed m db true k db1 e = cc
replay_answer_replayed m db false k db1 e = cc

insert_metering_event_row :
    (digests : Digests) (i : ℕ) (input : MeteringInput) (db : Db) (k : ℕ) (db1 : Db)
    → insert_metering_event digests i input db ≡ ok (recorded k false, db1)
    → (k ≡ i)
      × (db1.metering ≡ new_metering digests i input ∷ db.metering)
      × (input.quantity ≤ max_safe_integer)
      × (safe_option input.unit_cost ≡ true)
unfolding insert_metering_event replay_answer
insert_metering_event_row digests i input db k db1 e =
    elim (Option-cases
      (find_metering (reported_key (digests.of_text input.idempotency_key)) db.metering)) [
        | inr (m, old) ↦
            let found : (metering_matches m input >>= replay_answer m db)
                ≡ ok (recorded k false, db1) =
              ground arith in
            let x = >>=-eq-ok (metering_matches m input) (replay_answer m db) found in
            absurd (replay_answer_replayed m db x.0 k db1 x.2)
        | inl new ↦
            let x =
              >>=-eq-ok (check_hold input.hold_id input db)
                (λ refused. add_metering digests i input refused db)
                {answer = (recorded k false, db1)} (ground arith) in
            add_metering_row digests i input x.0 db k db1 x.2
      ]

-- Repeating a request that recorded an event returns the same id, marked as replayed, and changes nothing.
pub insert_metering_event_replay :
    (digests : Digests) (i j : ℕ) (input : MeteringInput) (db : Db) (k : ℕ) (db1 : Db)
    → insert_metering_event digests i input db ≡ ok (recorded k false, db1)
    → insert_metering_event digests j input db1 ≡ ok (recorded k true, db1)
unfolding insert_metering_event find_metering
insert_metering_event_replay digests i j input db k db1 e =
    let (same, rows, quantity, unit_cost) = insert_metering_event_row digests i input db k db1 e in
    let matches = new_metering_matches digests i input quantity unit_cost in
    rw (rows, same) (ground (arith, matches, ==_refl (digests.of_text input.idempotency_key)))
