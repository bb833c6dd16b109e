-- ===== src/Gateway/Turn.antt =====
-- The orchestration of apps/llm-gateway/src/service.ts: check-and-hold, and the end of a turn. Each
-- operation gives the requests that it sends to billing, in their order; the log lines are left out.
use combo.Prelude.{ℕ, Bool, true, false, Option, none, some, List, [], ◌∷◌, ◌++◌}
use combo.Gateway.Json.{Number, Json}
use combo.Gateway.Pricing.{ModelPrice, estimate_hold_amount, TokenUsage, amount_from_usage}
use combo.Gateway.Client.{
  Dimension, MeteringEvent, Platform, Request, hold_request, settle_request, Billing, unavailable,
  protocol, Reply, done, thrown, CreateHoldResult, hold_created, hold_rejected, create_hold,
  usage_to_metering_events, report_usage,
}

-- The body of a refusal: passed on from billing, or one of the gateway's own.
pub data Body : Type 0 where
  passed_on : Option Json → Body
  null_body billing_unavailable turn_already_admitted : Body

pub data HoldOutcome : Type 0 where
  held : (hold_id estimated_amount : ℕ) → (execution_id : Option ℕ) → HoldOutcome
  rejected : (status : ℕ) → Body → HoldOutcome
  fail_open : (estimated_amount : ℕ) → HoldOutcome

-- What `checkAndHold` makes of the client's answer.
abbrev pub admit : ℕ → Reply CreateHoldResult → HoldOutcome
admit amount (thrown protocol) = rejected 503 billing_unavailable
admit amount (thrown (unavailable _)) = rejected 503 null_body
admit amount (done (hold_rejected status body)) = rejected status (passed_on body)
admit amount (done (hold_created i true)) = rejected 409 turn_already_admitted
admit amount (done (hold_created i false)) = held i amount none

-- `checkAndHold`.
unfoldable pub check_and_hold :
    (ℕ → Bool)
    → Billing
    → Platform
    → ModelPrice
    → (max_tokens fixed_cost_cents : Number) → List Request × HoldOutcome
check_and_hold is_uuid billing platform price max_tokens fixed_cost_cents =
    elim (estimate_hold_amount price max_tokens fixed_cost_cents) [
      | none ↦ ([], rejected 503 billing_unavailable)
      | some amount ↦ (
        hold_request platform amount ∷ [],
        admit amount (create_hold is_uuid billing platform amount),
      )
    ]

-- The amount that a hold is settled with.
unfoldable pub actual_amount : ℕ → Option TokenUsage → ModelPrice → Option ℕ
actual_amount estimated none price = some estimated
actual_amount estimated (some usage) price = amount_from_usage usage price

-- The events that the end of a turn reports.
unfoldable pub turn_events :
    (Option ℕ → Platform → Dimension → ℕ)
    → Option ℕ
    → Platform
    → ℕ
    → ModelPrice
    → Option TokenUsage
    → List MeteringEvent
turn_events key hold_id platform model price none = []
turn_events key hold_id platform model price (some usage) =
    usage_to_metering_events key usage price model platform hold_id

-- The two guards of a held turn: an amount out of range sends nothing, and the settlement follows
-- only when every event is reported.
unfoldable pub settle_after : Option ℕ → List Request × Bool → ℕ → List Request
settle_after none (sent, reported) hold_id = []
settle_after (some amount) (sent, true) hold_id = sent ++ settle_request hold_id amount ∷ []
settle_after (some amount) (sent, false) hold_id = sent

-- `finalizeTurn`.
unfoldable pub finalize_turn :
    (Option ℕ → Platform → Dimension → ℕ)
    → Billing
    → HoldOutcome
    → Platform
    → ℕ
    → ModelPrice
    → Option TokenUsage
    → List Request
finalize_turn key billing (held i estimated _) platform model price usage =
    settle_after (actual_amount estimated usage price)
      (report_usage billing (turn_events key (some i) platform model price usage)) i
finalize_turn key billing (rejected _ _) platform model price usage =
    (report_usage billing (turn_events key none platform model price usage)).0
finalize_turn key billing (fail_open _) platform model price usage =
    (report_usage billing (turn_events key none platform model price usage)).0

-- `releaseHold`.
unfoldable pub release_hold : HoldOutcome → List Request
release_hold (held i _ _) = settle_request i 0 ∷ []
release_hold _ = []
