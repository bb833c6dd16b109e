-- ===== src/Gateway/Bounds.antt =====
-- The amounts of apps/llm-gateway/src/pricing.ts against the exact costs.
use combo.Prelude.{ℕ, ◌+◌, ◌*◌, ◌≤◌, ◌<◌, ◌≡◌, some, arith}
use combo.Gateway.Json.{Number, safe_natural}
use combo.Gateway.Pricing.{
  ModelPrice, million, safe_cents, ceil_div, estimate_hold_amount, TokenUsage, amount_from_usage,
}

pub million-ceil_div :
    (n : ℕ) → (n ≤ ceil_div n million * million) × (ceil_div n million * million < n + million)
unfolding ceil_div
million-ceil_div n = (omega arith, omega arith)

ceil_div_mono : (m n : ℕ) → m ≤ n → ceil_div m million ≤ ceil_div n million
unfolding ceil_div
ceil_div_mono m n le = omega arith

amount_from_usage_value :
    (usage : TokenUsage) (price : ModelPrice) (i o a : ℕ)
    → safe_natural price.input ≡ some i
    → safe_natural price.output ≡ some o
    → amount_from_usage usage price ≡ some a
    → a ≡ ceil_div (usage.prompt_tokens * i + usage.completion_tokens * o) million
unfolding amount_from_usage safe_natural
amount_from_usage_value usage price i o a hi ho e = let opened = rw (hi, ho) at e in ground arith

-- At a price of two safe naturals, an amount is the exact cost in cents, rounded up and by less
-- than a cent.
pub amount_from_usage_exact :
    (usage : TokenUsage) (price : ModelPrice) (i o a : ℕ)
    → safe_natural price.input ≡ some i
    → safe_natural price.output ≡ some o
    → amount_from_usage usage price ≡ some a
    → let cost = usage.prompt_tokens * i + usage.completion_tokens * o in
      (cost ≤ a * million) × (a * million < cost + million)
amount_from_usage_exact usage price i o a hi ho e =
    rw (amount_from_usage_value usage price i o a hi ho e)
      (million-ceil_div (usage.prompt_tokens * i + usage.completion_tokens * o))

estimate_hold_amount_value :
    (price : ModelPrice) (max_tokens fixed_cost_cents : Number) (m o f e : ℕ)
    → safe_natural max_tokens ≡ some m
    → safe_natural price.output ≡ some o
    → safe_natural fixed_cost_cents ≡ some f
    → estimate_hold_amount price max_tokens fixed_cost_cents ≡ some e
    → e ≡ ceil_div (m * o) million + f
unfolding estimate_hold_amount
estimate_hold_amount_value price max_tokens fixed_cost_cents m o f e hm ho hf h =
    let value : safe_cents (ceil_div (m * o) million + f) ≡ some e = rw (hm, ho, hf) at h in
    ground arith

ceil_div_add : (n f : ℕ) → ceil_div (n + f * million) million ≡ ceil_div n million + f
unfolding ceil_div
ceil_div_add n f = omega arith

tokens_mono : (c m o : ℕ) → c ≤ m → c * o ≤ m * o
tokens_mono c m o le = grind arith

-- The estimate covers the amount of every usage whose completion stays within the limit of tokens
-- and whose prompt costs at most the fixed cost, at the same price.
pub estimate_hold_amount_covers :
    (usage : TokenUsage) (price : ModelPrice) (max_tokens fixed_cost_cents : Number)
    (i o m f a e : ℕ)
    → safe_natural price.input ≡ some i
    → safe_natural price.output ≡ some o
    → safe_natural max_tokens ≡ some m
    → safe_natural fixed_cost_cents ≡ some f
    → usage.completion_tokens ≤ m
    → usage.prompt_tokens * i ≤ f * million
    → amount_from_usage usage price ≡ some a
    → estimate_hold_amount price max_tokens fixed_cost_cents ≡ some e
    → a ≤ e
estimate_hold_amount_covers usage price max_tokens fixed_cost_cents i o m f a e hi ho hm hf within
      cheap amount estimate =
    let cost = amount_from_usage_value usage price i o a hi ho amount in
    let held =
      estimate_hold_amount_value price max_tokens fixed_cost_cents m o f e hm ho hf estimate in
    let more = tokens_mono usage.completion_tokens m o within in
    let bound =
      ceil_div_mono (usage.prompt_tokens * i + usage.completion_tokens * o) (m * o + f * million)
        (omega (arith, more, cheap)) in
    omega (arith, cost, held, bound, ceil_div_add (m * o) f)
