-- ===== src/Gateway/Closing.antt =====
-- What `finalizeTurn` of apps/llm-gateway/src/service.ts sends to billing.
use combo.Prelude.{
  Bool-cases, Option-cases, All, ℕ, ◌≡◌, refl, ◌⊎◌, inl, inr, Bool, true, false, Option, none, some,
  List, [], ◌∷◌, ◌++◌, map, arith,
}
use combo.Gateway.Pricing.{ModelPrice, TokenUsage}
use combo.Gateway.Client.{
  Dimension, MeteringEvent, Platform, Request, hold_request, settle_request, metering_request,
  Billing, is_accepted, report_usage,
}
use combo.Gateway.Turn.{
  HoldOutcome, held, rejected, fail_open, actual_amount, turn_events, settle_after, finalize_turn,
}

unfoldable pub settlements : List Request → List Request
settlements [] = []
settlements (settle_request i a ∷ rs) = settle_request i a ∷ settlements rs
settlements (hold_request _ _ ∷ rs) = settlements rs
settlements (metering_request _ ∷ rs) = settlements rs

abbrev pub AllAccepted : Billing → List MeteringEvent → Type 0
AllAccepted billing es = All (λ e. is_accepted (billing (metering_request e)) ≡ true) es

report_usage-done :
    (billing : Billing) (es : List MeteringEvent)
    → (report_usage billing es).1 ≡ true
    → AllAccepted billing es × ((report_usage billing es).0 ≡ map metering_request es)
unfolding report_usage
report_usage-done billing [] h = (tt, refl)
report_usage-done billing (e ∷ es) h =
    elim (Bool-cases (is_accepted (billing (metering_request e)))) [
      | inl ha ↦
          let rest : (report_usage billing es).1 ≡ true = ground arith in
          let (all, same) = report_usage-done billing es rest in ((ha, all), rw (ha, same) refl)
      | inr ha ↦ absurd (ground arith)
    ]

report_usage_accepted :
    (billing : Billing) (es : List MeteringEvent)
    → AllAccepted billing es
    → report_usage billing es ≡ (map metering_request es, true)
unfolding report_usage
report_usage_accepted billing [] h = refl
report_usage_accepted billing (e ∷ es) (ha, h) = rw (ha, report_usage_accepted billing es h) refl

report_usage-settlements :
    (billing : Billing) (es : List MeteringEvent) → settlements (report_usage billing es).0 ≡ []
unfolding report_usage settlements
report_usage-settlements billing [] = refl
report_usage-settlements billing (e ∷ es) =
    elim (Bool-cases (is_accepted (billing (metering_request e)))) [
      | inl ha ↦ rw ha (report_usage-settlements billing es)
      | inr ha ↦ rw ha refl
    ]

-- The end of a held turn whose amount is in range and whose events billing accepts sends exactly
-- those events, in their order, and then one settlement of that amount.
pub finalize_turn_complete :
    (key : Option ℕ → Platform → Dimension → ℕ) (billing : Billing) (i estimated : ℕ) (x : Option ℕ)
    (platform : Platform) (model : ℕ) (price : ModelPrice) (usage : Option TokenUsage) (a : ℕ)
    → actual_amount estimated usage price ≡ some a
    → AllAccepted billing (turn_events key (some i) platform model price usage)
    → finalize_turn key billing (held i estimated x) platform model price usage
      ≡ map metering_request (turn_events key (some i) platform model price usage)
        ++ settle_request i a ∷ []
unfolding finalize_turn settle_after
finalize_turn_complete key billing i estimated x platform model price usage a amount all =
    rw
      (
        amount,
        report_usage_accepted billing (turn_events key (some i) platform model price usage) all,
      )
      refl

settle_after_failed :
    (a i : ℕ) (sent : List Request × Bool) → sent.1 ≡ false → settle_after (some a) sent i ≡ sent.0
unfolding settle_after
settle_after_failed a i (rs, true) h = absurd cc
settle_after_failed a i (rs, false) h = refl

-- The end of a turn settles nothing, or it settles once, last, the hold that the turn holds, with
-- the amount of its usage, after billing has accepted every event of that usage.
pub finalize_turn_settles :
    (key : Option ℕ → Platform → Dimension → ℕ) (billing : Billing) (hold : HoldOutcome)
    (platform : Platform) (model : ℕ) (price : ModelPrice) (usage : Option TokenUsage)
    → let sent = finalize_turn key billing hold platform model price usage in
      (settlements sent ≡ [])
      ⊎ ((i : ℕ) × (e : ℕ) × (x : Option ℕ) × (a : ℕ) × (hold ≡ held i e x)
          × (actual_amount e usage price ≡ some a)
          × AllAccepted billing (turn_events key (some i) platform model price usage)
          × (sent
              ≡ map metering_request (turn_events key (some i) platform model price usage)
                ++ settle_request i a ∷ []))
unfolding finalize_turn settle_after settlements
finalize_turn_settles key billing (rejected s b) platform model price usage =
    inl (report_usage-settlements billing (turn_events key none platform model price usage))
finalize_turn_settles key billing (fail_open e) platform model price usage =
    inl (report_usage-settlements billing (turn_events key none platform model price usage))
finalize_turn_settles key billing (held i e x) platform model price usage =
    let events = turn_events key (some i) platform model price usage in
    elim (Option-cases (actual_amount e usage price)) [
      | inl unsafe ↦ inl (rw unsafe refl)
      | inr (a, amount) ↦ elim (Bool-cases (report_usage billing events).1) [
        | inl reported ↦
            let (all, same) = report_usage-done billing events reported in
            let sent = report_usage_accepted billing events all in
            inr (i, e, x, a, refl, amount, all, rw (amount, sent) refl)
        | inr failed ↦ inl (
            rw (amount, settle_after_failed a i (report_usage billing events) failed)
              (report_usage-settlements billing events))
      ]
    ]
