-- ===== src/Gateway/Pricing.antt =====
-- apps/llm-gateway/src/pricing.ts: the table of prices, in cents for a million tokens, and the two
-- amounts. BigInt is ℕ; a RangeError is `none`.
use combo.Prelude.Int.{pos}
use combo.Prelude.{
  leb, if◌then◌else◌, ℕ, ◌+◌, ◌-◌, ◌*◌, ◌/◌, Bool, true, false, ◌&&◌, Option, none, some,
}
use combo.Billing.Rows.{max_safe_integer}
use combo.Gateway.Json.{
  Number, integer, no_integer, safe_natural, Json, json_object, Fields, no_field, field, find_field,
  get_field, as_number,
}

pub record ModelPrice : Type 0 where
  pub input : Number
  pub output : Number

abbrev pub is_safe_natural : Number → Bool
is_safe_natural n = elim (safe_natural n) [ none ↦ false | some _ ↦ true ]

abbrev pub input_name : ℕ
input_name = 1

abbrev pub output_name : ℕ
output_name = 2

abbrev pub default_name : ℕ
default_name = 3

abbrev pub price_of : Json → ModelPrice
price_of v = record {
  input = as_number (get_field input_name v);
  output = as_number (get_field output_name v);
}

-- `isPrice`.
unfoldable pub is_price : Json → Bool
is_price v = is_safe_natural (price_of v).input && is_safe_natural (price_of v).output

abbrev pub is_price_option : Option Json → Bool
is_price_option none = false
is_price_option (some v) = is_price v

abbrev pub all_prices : Fields → Bool
all_prices no_field = true
all_prices (field name v rest) = is_price v && all_prices rest

pub data PricingError : Type 0 where
  must_be_json must_be_object default_required entry_invalid : PricingError

pub data ParsedPricing : Type 0 where
  table : Fields → ParsedPricing
  invalid : PricingError → ParsedPricing

-- `parsePricingTable`, of what JSON.parse gives for the text; `none` where it throws.
unfoldable pub parse_pricing_table : Option Json → ParsedPricing
parse_pricing_table none = invalid must_be_json
parse_pricing_table (some (json_object fields)) =
    if is_price_option (find_field default_name fields)
    then if all_prices fields then table fields else invalid entry_invalid
    else invalid default_required
parse_pricing_table (some _) = invalid must_be_object

-- A property that a plain object inherits is no price: its two fields are undefined.
abbrev pub undefined_price : ModelPrice
undefined_price = record { input = no_integer; output = no_integer }

abbrev pub default_price : Option Json → ModelPrice
default_price none = undefined_price
default_price (some v) = price_of v

-- `priceFor`: pricing[model] ?? pricing.default. `inherited` are the names of Object.prototype.
unfoldable pub price_for : (ℕ → Bool) → Fields → ℕ → ModelPrice
price_for inherited fields model = elim (find_field model fields) [
  | some v ↦ price_of v
  | none ↦
      if inherited model then undefined_price else default_price (find_field default_name fields)
]

abbrev pub million : ℕ
million = 1000000

abbrev pub safe_cents : ℕ → Option ℕ
safe_cents n = if leb n max_safe_integer then some n else none

unfoldable pub ceil_div : ℕ → ℕ → ℕ
ceil_div numerator denominator = (numerator + denominator - 1) / denominator

infixl 5 ◌>>=◌
abbrev pub ◌>>=◌ {ℓ κ} : {A : Type ℓ} {B : Type κ} → Option A → (A → Option B) → Option B
none >>= f = none
some a >>= f = f a

-- `estimateHoldAmount`.
unfoldable pub estimate_hold_amount : ModelPrice → Number → Number → Option ℕ
estimate_hold_amount price max_tokens fixed_cost_cents = do
  tokens ← safe_natural max_tokens
  output_price ← safe_natural price.output
  fixed ← safe_natural fixed_cost_cents
  safe_cents (ceil_div (tokens * output_price) million + fixed)

pub record TokenUsage : Type 0 where
  pub prompt_tokens : ℕ
  pub completion_tokens : ℕ

-- `amountFromUsage`.
unfoldable pub amount_from_usage : TokenUsage → ModelPrice → Option ℕ
amount_from_usage usage price = do
  prompt ← safe_natural (integer (pos usage.prompt_tokens))
  completion ← safe_natural (integer (pos usage.completion_tokens))
  input_price ← safe_natural price.input
  output_price ← safe_natural price.output
  safe_cents (ceil_div (prompt * input_price + completion * output_price) million)
