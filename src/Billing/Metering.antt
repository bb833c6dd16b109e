-- ===== src/Billing/Metering.antt =====
-- `insertMeteringEvent` of apps/billing/src/repo.ts, and the INSERT INTO v2_metering_events that it
-- shares with `settleHold`. The id of a new row is an argument.
use combo.Prelude.{
  ltb, leb, ◌==◌, if◌then◌else◌, same_option, ℕ, Bool, true, false, not, ◌&&◌, Option, none, some,
  List, [], ◌∷◌,
}
use combo.Billing.Types.{
  ok, ◌>>=◌, ◌>>◌, require, Hold, Source, gateway, agent_report, estimated, MeterKey, reported_key,
  estimated_key, Metering, Db, Digests, unsafe_range, unique_violation, check_violation,
  trigger_violation, Result, Mismatch, idempotency_mismatch, hold_scope_mismatch, hold_not_active,
  MeteringOutcome, recorded, metering_conflict,
}
use combo.Billing.Rows.{max_safe_integer, safe_option, to_hold, is_held, find_hold, is_some}

pub record MeteringInput : Type 0 where
  pub agent_id : ℕ
  pub user_id : ℕ
  pub turn_id : ℕ
  pub hold_id : Option ℕ
  pub dimension : ℕ
  pub quantity : ℕ
  pub model : Option ℕ
  pub unit_cost : Option ℕ
  pub source : Source
  pub idempotency_key : ℕ

abbrev pub same_meter_key : MeterKey → MeterKey → Bool
same_meter_key (reported_key a) (reported_key b) = a == b
same_meter_key (estimated_key a) (estimated_key b) = a == b
same_meter_key _ _ = false

abbrev pub same_source : Source → Source → Bool
same_source gateway gateway = true
same_source agent_report agent_report = true
same_source estimated estimated = true
same_source _ _ = false

-- `findMeteringByIdempotencyKey`.
unfoldable pub find_metering : MeterKey → List Metering → Option Metering
find_metering k [] = none
find_metering k (m ∷ ms) = if same_meter_key m.key k then some m else find_metering k ms

-- The scope of a hold: its user, agent and turn.
abbrev pub in_scope : Hold → ℕ → ℕ → ℕ → Bool
in_scope h u a t = h.user_id == u && (h.agent_id == a && h.turn_id == t)

-- enforce_v2_metering_active_hold.
abbrev active_hold : Metering → Option ℕ → List Hold → Bool
active_hold m none holds = true
active_hold m (some i) holds = elim (find_hold i holds) [
  | none ↦ false
  | some h ↦ in_scope h m.user_id m.agent_id m.turn_id && is_held h.status
]

-- ck_v2_metering_estimated.
abbrev pub fits_source : Source → Option ℕ → Bool
fits_source estimated none = true
fits_source gateway (some _) = true
fits_source agent_report (some _) = true
fits_source _ _ = false

-- The INSERT: ck_v2_metering_quantity, ck_v2_metering_safe_integer_range, ck_v2_metering_estimated and
-- the key that trg_v2_metering_idempotency_domain leaves.
unfoldable pub insert_metering : Metering → Db → Result Db
insert_metering m db = do
  require (active_hold m m.hold_id db.holds) trigger_violation
  require (ltb 0 m.quantity && leb m.quantity max_safe_integer && safe_option m.unit_cost)
      check_violation
  require (fits_source m.source m.dimension) check_violation
  require (not (is_some (find_metering m.key db.metering))) unique_violation
  ok (record db { metering = m ∷ db.metering })

-- `meteringMatches`: a row is compared field by field, and an amount out of range throws when its
-- turn comes.
unfoldable pub metering_matches : Metering → MeteringInput → Result Bool
metering_matches m input =
    if not (
      m.agent_id == input.agent_id
      && (m.user_id == input.user_id
          && (m.turn_id == input.turn_id
              && (same_option m.hold_id input.hold_id
                  && same_option m.dimension (some input.dimension)))))
    then ok false
    else do
      require (leb m.quantity max_safe_integer) unsafe_range
      (if not (m.quantity == input.quantity && same_option m.model input.model)
          then ok false
          else do
            require (safe_option m.unit_cost) unsafe_range
            ok (same_option m.unit_cost input.unit_cost && same_source m.source input.source))

-- The hold that the input names, or why it may not be charged to.
unfoldable pub check_hold : Option ℕ → MeteringInput → Db → Result (Option Mismatch)
check_hold none input db = ok none
check_hold (some i) input db = elim (find_hold i db.holds) [
  | none ↦ ok (some hold_scope_mismatch)
  | some row ↦ do
    h ← to_hold row
    (if not (in_scope h input.user_id input.agent_id input.turn_id)
        then ok (some hold_scope_mismatch)
        else if not (is_held h.status)
        then ok (some hold_not_active)
        else ok none)
]

abbrev pub new_metering : Digests → ℕ → MeteringInput → Metering
new_metering digests i input = record {
  id = i;
  agent_id = input.agent_id;
  user_id = input.user_id;
  turn_id = input.turn_id;
  hold_id = input.hold_id;
  dimension = some input.dimension;
  quantity = input.quantity;
  model = input.model;
  unit_cost = input.unit_cost;
  source = input.source;
  key = reported_key (digests.of_text input.idempotency_key);
}

abbrev pub add_metering :
    Digests → ℕ → MeteringInput → Option Mismatch → Db → Result (MeteringOutcome × Db)
add_metering digests i input (some reason) db = ok (metering_conflict reason, db)
add_metering digests i input none db = do
  db1 ← insert_metering (new_metering digests i input) db
  ok (recorded i false, db1)

unfoldable pub insert_metering_event :
    Digests → ℕ → MeteringInput → Db → Result (MeteringOutcome × Db)
insert_metering_event digests i input db =
    elim (find_metering (reported_key (digests.of_text input.idempotency_key)) db.metering) [
      | some m ↦ do
        matches ← metering_matches m input
        ok (if matches then recorded m.id true else metering_conflict idempotency_mismatch, db)
      | none ↦ do
        refused ← check_hold input.hold_id input db
        add_metering digests i input refused db
    ]
