-- ===== src/Gateway/Prices.antt =====
-- The prices that apps/llm-gateway/src/pricing.ts finds in a table that it has parsed.
use combo.Prelude.{
  ◌==◌, if◌then◌else◌, Bool-cases, Option-cases, ℕ, ◌≡◌, inl, inr, Bool, true, false, Option, none,
  some, arith,
}
use combo.Gateway.Json.{
  Number, safe_natural, Json, json_null, json_boolean, json_number, json_text, json_array,
  json_object, Fields, no_field, field, find_field,
}
use combo.Gateway.Pricing.{
  ModelPrice, is_safe_natural, default_name, price_of, is_price, is_price_option, all_prices, table,
  parse_pricing_table, undefined_price, default_price, price_for, estimate_hold_amount,
}

is_safe_natural-some : (n : Number) → is_safe_natural n ≡ true → (k : ℕ) × (safe_natural n ≡ some k)
is_safe_natural-some n h = elim (Option-cases (safe_natural n)) [
  | inl unsafe ↦ absurd (ground arith)
  | inr found ↦ found
]

-- Both numbers of a price are safe naturals.
abbrev pub IsPriced : ModelPrice → Type 0
IsPriced p =
    ((i : ℕ) × (safe_natural p.input ≡ some i)) × ((o : ℕ) × (safe_natural p.output ≡ some o))

is_price-IsPriced : (v : Json) → is_price v ≡ true → IsPriced (price_of v)
unfolding is_price
is_price-IsPriced v h = (
  is_safe_natural-some (price_of v).input (ground arith),
  is_safe_natural-some (price_of v).output (ground arith),
)

all_prices-find_field :
    (fields : Fields) (k : ℕ) (v : Json)
    → all_prices fields ≡ true
    → find_field k fields ≡ some v
    → is_price v ≡ true
all_prices-find_field no_field k v h f = absurd cc
all_prices-find_field (field name w rest) k v h f = elim (Bool-cases (name == k)) [
  | inl here ↦ ground arith
  | inr there ↦ all_prices-find_field rest k v (ground arith) (ground arith)
]

parse_pricing_table_lem :
    (text : Option Json) (fields : Fields)
    → parse_pricing_table text ≡ table fields
    → (is_price_option (find_field default_name fields) ≡ true) × (all_prices fields ≡ true)
unfolding parse_pricing_table
parse_pricing_table_lem none fields h = absurd cc
parse_pricing_table_lem (some (json_object fs)) fields h = (ground arith, ground arith)
parse_pricing_table_lem (some json_null) fields h = absurd cc
parse_pricing_table_lem (some (json_boolean _)) fields h = absurd cc
parse_pricing_table_lem (some (json_number _)) fields h = absurd cc
parse_pricing_table_lem (some (json_text _)) fields h = absurd cc
parse_pricing_table_lem (some json_array) fields h = absurd cc

-- The three ways of `price_for`.
price_for_own :
    (inherited : ℕ → Bool) (fields : Fields) (model : ℕ) (v : Json)
    → find_field model fields ≡ some v
    → price_for inherited fields model ≡ price_of v
unfolding price_for
price_for_own inherited fields model v found = ground arith

price_for_missing :
    (inherited : ℕ → Bool) (fields : Fields) (model : ℕ)
    → find_field model fields ≡ none
    → price_for inherited fields model ≡ (
        if inherited model then undefined_price else default_price (find_field default_name fields))
unfolding price_for
price_for_missing inherited fields model missing = ground arith

-- In a table that parses, every model that Object.prototype does not name has a price of two safe
-- naturals, its own or the default.
pub price_for-IsPriced :
    (inherited : ℕ → Bool) (text : Option Json) (fields : Fields) (model : ℕ)
    → parse_pricing_table text ≡ table fields
    → inherited model ≡ false
    → IsPriced (price_for inherited fields model)
unfolding price_for
price_for-IsPriced inherited text fields model parsed own =
    let (has_default, all) = parse_pricing_table_lem text fields parsed in
    elim (Option-cases (find_field model fields)) [
      | inr (v, found) ↦
          rw (price_for_own inherited fields model v found)
            (is_price-IsPriced v (all_prices-find_field fields model v all found))
      | inl missing ↦ elim (Option-cases (find_field default_name fields)) [
        | inl without ↦ absurd (ground arith)
        | inr (v, found) ↦
            rw (price_for_missing inherited fields model missing, own, found)
              (is_price-IsPriced v (all_prices-find_field fields default_name v all found))
      ]
    ]

-- A model that Object.prototype names and the table does not gets a price of no numbers, which no
-- call can be estimated at.
pub price_for_inherited :
    (inherited : ℕ → Bool) (fields : Fields) (model : ℕ) (max_tokens fixed_cost_cents : Number)
    → find_field model fields ≡ none
    → inherited model ≡ true
    → estimate_hold_amount (price_for inherited fields model) max_tokens fixed_cost_cents ≡ none
unfolding price_for estimate_hold_amount safe_natural
price_for_inherited inherited fields model max_tokens fixed_cost_cents missing name =
    rw (price_for_missing inherited fields model missing, name) (ground arith)
