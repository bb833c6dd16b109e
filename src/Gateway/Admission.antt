-- ===== src/Gateway/Admission.antt =====
-- When `checkAndHold` of apps/llm-gateway/src/service.ts admits a call.
use combo.Prelude.{
  ◌==◌, Option-cases, ℕ, ◌≡◌, subst, ◌≢◌, inl, inr, Bool, true, false, ◌||◌, Option, none, some, [],
  ◌∷◌, arith,
}
use combo.Gateway.Json.{Number, Json, get_field}
use combo.Gateway.Pricing.{ModelPrice, estimate_hold_amount}
use combo.Gateway.Client.{
  Platform, hold_request, Response, Billing, unavailable, protocol, Reply, done, thrown,
  CreateHoldResult, hold_created, hold_rejected, data_name, hold_id_name, status_name,
  replayed_name, is_held_text, as_text, as_boolean, check_hold_data, decode_hold, create_hold,
}
use combo.Gateway.Turn.{held, fail_open, admit, check_and_hold}

-- An answer that grants a new hold: 201, and data with the hold's UUID, the status `held` and no replay.
abbrev pub Grants : (ℕ → Bool) → Response → ℕ → Type 0
Grants is_uuid r i =
    (r.status ≡ 201)
    × (is_uuid i ≡ true)
    × ((body : Json) × (inner : Json) × (r.body ≡ some body)
        × (get_field data_name body ≡ some inner)
        × (as_text (get_field hold_id_name inner) ≡ some i)
        × (is_held_text (get_field status_name inner) ≡ true)
        × (as_boolean (get_field replayed_name inner) ≡ some false))

check_hold_data_fresh :
    (is_uuid : ℕ → Bool) (status : ℕ) (hold_id : Option ℕ) (is_held : Bool) (replayed : Option Bool)
    (i : ℕ)
    → check_hold_data is_uuid status hold_id is_held replayed ≡ done (hold_created i false)
    → ((status == 200) ≡ false)
      × (is_uuid i ≡ true)
      × (hold_id ≡ some i)
      × (is_held ≡ true)
      × (replayed ≡ some false)
check_hold_data_fresh is_uuid status none is_held replayed i e = absurd cc
check_hold_data_fresh is_uuid status (some h) is_held none i e = absurd cc
check_hold_data_fresh is_uuid status (some h) is_held (some replayed) i e =
    (ground arith, ground arith, ground arith, ground arith, ground arith)

decode_hold_fresh :
    (is_uuid : ℕ → Bool) (r : Response) (i : ℕ)
    → ((r.status == 200) || (r.status == 201)) ≡ true
    → decode_hold is_uuid r.status r.body ≡ done (hold_created i false)
    → Grants is_uuid r i
unfolding decode_hold
decode_hold_fresh is_uuid r i success e = elim (Option-cases r.body) [
  | inl none_there ↦ absurd (ground arith)
  | inr (body, hb) ↦ elim (Option-cases (get_field data_name body)) [
    | inl hv ↦ absurd (ground arith)
    | inr (v, hv) ↦
        let (other, uuid, hold, is_held, replayed) =
          check_hold_data_fresh is_uuid r.status (as_text (get_field hold_id_name v))
            (is_held_text (get_field status_name v)) (as_boolean (get_field replayed_name v)) i
            (ground arith) in
        (ground arith, uuid, (body, v, hb, hv, hold, is_held, replayed))
  ]
]

create_hold_fresh :
    (is_uuid : ℕ → Bool) (billing : Billing) (platform : Platform) (amount i : ℕ)
    → create_hold is_uuid billing platform amount ≡ done (hold_created i false)
    → (r : Response) × (billing (hold_request platform amount) ≡ some r) × Grants is_uuid r i
unfolding create_hold
create_hold_fresh is_uuid billing platform amount i e =
    elim (Option-cases (billing (hold_request platform amount))) [
      | inl hr ↦ absurd (ground arith)
      | inr (r, hr) ↦
          let decoded : decode_hold is_uuid r.status r.body ≡ done (hold_created i false) =
            ground arith in
          let success : ((r.status == 200) || (r.status == 201)) ≡ true = ground arith in
          (r, hr, decode_hold_fresh is_uuid r i success decoded)
    ]

admit-held :
    (amount : ℕ) (reply : Reply CreateHoldResult) (i e : ℕ) (x : Option ℕ)
    → admit amount reply ≡ held i e x
    → (reply ≡ done (hold_created i false)) × (amount ≡ e)
admit-held amount (thrown protocol) i e x h = absurd cc
admit-held amount (thrown (unavailable s)) i e x h = absurd cc
admit-held amount (done (hold_rejected s b)) i e x h = absurd cc
admit-held amount (done (hold_created j true)) i e x h = absurd cc
admit-held amount (done (hold_created j false)) i e x h = (ground arith, ground arith)

admit-fail_open :
    (amount : ℕ) (reply : Reply CreateHoldResult) (e : ℕ) → admit amount reply ≢ fail_open e
admit-fail_open amount (thrown protocol) e h = cc
admit-fail_open amount (thrown (unavailable s)) e h = cc
admit-fail_open amount (done (hold_rejected s b)) e h = cc
admit-fail_open amount (done (hold_created j true)) e h = cc
admit-fail_open amount (done (hold_created j false)) e h = cc

-- A call is admitted only with a hold of the estimate, for which billing was asked once and answered
-- 201 with a body whose data has that hold's UUID, the status `held` and `replayed` false.
pub check_and_hold_admits :
    (is_uuid : ℕ → Bool) (billing : Billing) (platform : Platform) (price : ModelPrice)
    (max_tokens fixed_cost_cents : Number) (i e : ℕ) (x : Option ℕ)
    → (check_and_hold is_uuid billing platform price max_tokens fixed_cost_cents).1 ≡ held i e x
    → (estimate_hold_amount price max_tokens fixed_cost_cents ≡ some e)
      × ((check_and_hold is_uuid billing platform price max_tokens fixed_cost_cents).0
          ≡ hold_request platform e ∷ [])
      × ((r : Response) × (billing (hold_request platform e) ≡ some r) × Grants is_uuid r i)
unfolding check_and_hold
check_and_hold_admits is_uuid billing platform price max_tokens fixed_cost_cents i e x h =
    elim (Option-cases (estimate_hold_amount price max_tokens fixed_cost_cents)) [
      | inl unsafe ↦ absurd (ground arith)
      | inr (amount, he) ↦
          let admitted : admit amount (create_hold is_uuid billing platform amount) ≡ held i e x =
            ground arith in
          let (fresh, same) =
            admit-held amount (create_hold is_uuid billing platform amount) i e x admitted in
          (
            ground arith,
            ground arith,
            subst
                (λ a.
                  (r : Response) × (billing (hold_request platform a) ≡ some r)
                  × Grants is_uuid r i)
                same (create_hold_fresh is_uuid billing platform amount i fresh),
          )
    ]

-- Check-and-hold never answers `fail_open`.
pub check_and_hold_fail_closed :
    (is_uuid : ℕ → Bool) (billing : Billing) (platform : Platform) (price : ModelPrice)
    (max_tokens fixed_cost_cents : Number) (e : ℕ)
    → (check_and_hold is_uuid billing platform price max_tokens fixed_cost_cents).1 ≢ fail_open e
unfolding check_and_hold
check_and_hold_fail_closed is_uuid billing platform price max_tokens fixed_cost_cents e h =
    elim (Option-cases (estimate_hold_amount price max_tokens fixed_cost_cents)) [
      | inl unsafe ↦ ground arith
      | inr (amount, he) ↦
          admit-fail_open amount (create_hold is_uuid billing platform amount) e (ground arith)
    ]
