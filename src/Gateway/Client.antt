-- ===== src/Gateway/Client.antt =====
-- apps/llm-gateway/src/billing.ts: the client of the billing service. What the service answers to a
-- request is an argument, with `none` for a request that fails or times out; so are the test of
-- UUID_PATTERN and SHA-256 of a key's JSON text.
use combo.Prelude.{
  ltb, leb, ◌==◌, if◌then◌else◌, ℕ, Bool, true, false, not, ◌&&◌, ◌||◌, Option, none, some, List,
  [], ◌∷◌,
}
use combo.Gateway.Json.{Number, Json, json_boolean, json_text, get_field}
use combo.Gateway.Pricing.{ModelPrice, TokenUsage}

pub data Dimension : Type 0 where
  llm_token_in llm_token_out : Dimension

pub record MeteringEvent : Type 0 where
  pub agent_id : ℕ
  pub user_id : ℕ
  pub turn_id : ℕ
  pub hold_id : Option ℕ
  pub dimension : Dimension
  pub quantity : ℕ
  pub model : ℕ
  pub unit_cost : Number
  pub idempotency_key : ℕ

-- The user, agent and turn of a call, of `PlatformContext`.
pub record Platform : Type 0 where
  pub user_id : ℕ
  pub agent_id : ℕ
  pub turn_id : ℕ

-- The three POSTs of the client.
pub data Request : Type 0 where
  hold_request : Platform → (estimated_amount : ℕ) → Request
  settle_request : (hold_id actual_amount : ℕ) → Request
  metering_request : MeteringEvent → Request

-- `none` is a body that is no JSON.
pub record Response : Type 0 where
  pub status : ℕ
  pub body : Option Json

abbrev pub Billing : Type 0
Billing = Request → Option Response

-- BillingUnavailableError with its status, and BillingProtocolError.
pub data ClientError : Type 0 where
  unavailable : Option ℕ → ClientError
  protocol : ClientError

pub data Reply {ℓ} (A : Type ℓ) : Type ℓ where
  done : A → Reply A
  thrown : ClientError → Reply A

pub data CreateHoldResult : Type 0 where
  hold_created : (hold_id : ℕ) → (replayed : Bool) → CreateHoldResult
  hold_rejected : (status : ℕ) → (body : Option Json) → CreateHoldResult

abbrev pub data_name : ℕ
data_name = 7

abbrev pub hold_id_name : ℕ
hold_id_name = 8

abbrev pub status_name : ℕ
status_name = 9

abbrev pub replayed_name : ℕ
replayed_name = 10

-- The text 'held'.
abbrev pub held_text : ℕ
held_text = 11

abbrev pub is_held_text : Option Json → Bool
is_held_text (some (json_text t)) = t == held_text
is_held_text _ = false

abbrev pub as_text : Option Json → Option ℕ
as_text (some (json_text t)) = some t
as_text _ = none

abbrev pub as_boolean : Option Json → Option Bool
as_boolean (some (json_boolean b)) = some b
as_boolean _ = none

-- The checks on a success response: its `hold_id`, whether its `status` is 'held', and `replayed`.
abbrev pub check_hold_data :
    (ℕ → Bool) → (status : ℕ) → Option ℕ → Bool → Option Bool → Reply CreateHoldResult
check_hold_data is_uuid status none is_held replayed = thrown protocol
check_hold_data is_uuid status (some hold_id) is_held none = thrown protocol
check_hold_data is_uuid status (some hold_id) is_held (some replayed) =
    if not (is_uuid hold_id)
      || not is_held
      || (status == 201 && replayed)
      || (status == 200 && not replayed)
    then thrown protocol
    else done (hold_created hold_id replayed)

unfoldable pub decode_hold : (ℕ → Bool) → (status : ℕ) → Option Json → Reply CreateHoldResult
decode_hold is_uuid status none = thrown protocol
decode_hold is_uuid status (some body) = elim (get_field data_name body) [
  | none ↦ thrown protocol
  | some v ↦
      check_hold_data is_uuid status (as_text (get_field hold_id_name v))
        (is_held_text (get_field status_name v)) (as_boolean (get_field replayed_name v))
]

-- `createHold`.
unfoldable pub create_hold : (ℕ → Bool) → Billing → Platform → ℕ → Reply CreateHoldResult
create_hold is_uuid billing platform amount = elim (billing (hold_request platform amount)) [
  | none ↦ thrown (unavailable none)
  | some r ↦
      if leb 400 r.status && ltb r.status 500
      then done (hold_rejected r.status r.body)
      else if r.status == 200 || r.status == 201
      then decode_hold is_uuid r.status r.body
      else if leb 500 r.status
      then thrown (unavailable (some r.status))
      else thrown protocol
]

-- `usageToMeteringEvents`; the events of no quantity are left out.
abbrev pub usage_event :
    (Option ℕ → Platform → Dimension → ℕ)
    → Option ℕ
    → Platform
    → ℕ
    → Dimension
    → ℕ
    → Number
    → MeteringEvent
usage_event key hold_id platform model dimension quantity unit_cost = record {
  agent_id = platform.agent_id;
  user_id = platform.user_id;
  turn_id = platform.turn_id;
  hold_id = hold_id;
  dimension = dimension;
  quantity = quantity;
  model = model;
  unit_cost = unit_cost;
  idempotency_key = key hold_id platform dimension;
}

unfoldable pub with_quantity : List MeteringEvent → List MeteringEvent
with_quantity [] = []
with_quantity (e ∷ es) = let rest = with_quantity es in if ltb 0 e.quantity then e ∷ rest else rest

unfoldable pub usage_to_metering_events :
    (Option ℕ → Platform → Dimension → ℕ)
    → TokenUsage
    → ModelPrice
    → ℕ
    → Platform
    → Option ℕ
    → List MeteringEvent
usage_to_metering_events key usage price model platform hold_id = with_quantity (
    usage_event key hold_id platform model llm_token_in usage.prompt_tokens price.input
    ∷ usage_event key hold_id platform model llm_token_out usage.completion_tokens price.output
    ∷ [])

abbrev pub is_accepted : Option Response → Bool
is_accepted none = false
is_accepted (some r) = r.status == 200 || r.status == 201

-- `reportUsage`: the requests that are sent, and whether none of them throws.
unfoldable pub report_usage : Billing → List MeteringEvent → List Request × Bool
report_usage billing [] = ([], true)
report_usage billing (e ∷ es) =
    let rest = report_usage billing es in
    if is_accepted (billing (metering_request e))
    then (metering_request e ∷ rest.0, rest.1)
    else (metering_request e ∷ [], false)
