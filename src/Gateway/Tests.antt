-- ===== src/Gateway/Tests.antt =====
-- A turn that is estimated, held, streamed in two chunks, metered and settled.
use combo.Prelude.Texts.{Text, is_space, trim}
use combo.Prelude.{
  ◌==◌, if◌then◌else◌, ℕ, ◌+◌, ◌*◌, ◌≤◌, ◌<◌, ◌≡◌, refl, ◌≢◌, ◌⊎◌, Bool, true, false, Option, none,
  some, List, [], ◌∷◌, ◌++◌, map, arith,
}
use combo.Prelude.Int.{pos}
use combo.Gateway.Json.{
  Number, integer, safe_natural, Json, json_boolean, json_number, json_text, json_object, Fields,
  no_field, field,
}
use combo.Gateway.Pricing.{
  ModelPrice, input_name, output_name, default_name, is_price, parse_pricing_table, price_for,
  million, ceil_div, estimate_hold_amount, TokenUsage, amount_from_usage,
}
use combo.Gateway.Bounds.{amount_from_usage_exact, estimate_hold_amount_covers}
use combo.Gateway.Prices.{IsPriced, price_for-IsPriced, price_for_inherited}
use combo.Gateway.Usage.{
  prompt_tokens_name, completion_tokens_name, usage_name, normalize_usage, read_line, cut_line,
  new_extractor, drain, push,
}
use combo.Gateway.Chunks.{flatten, push_all, push_all-flatten}
use combo.Gateway.Client.{
  Dimension, llm_token_in, llm_token_out, Platform, hold_request, settle_request, metering_request,
  Response, Billing, data_name, hold_id_name, status_name, replayed_name, held_text, decode_hold,
  create_hold, with_quantity, usage_to_metering_events,
}
use combo.Gateway.Turn.{held, fail_open, check_and_hold, actual_amount, turn_events, finalize_turn}
use combo.Gateway.Admission.{Grants, check_and_hold_admits, check_and_hold_fail_closed}
use combo.Gateway.Closing.{settlements, AllAccepted, finalize_turn_complete, finalize_turn_settles}

abbrev natural : ℕ → Number
natural n = integer (pos n)

abbrev small_price : ModelPrice
small_price = record { input = natural 100; output = natural 400 }

abbrev short_usage : TokenUsage
short_usage = record { prompt_tokens = 1500; completion_tokens = 2501 }

abbrev caller : Platform
caller = record { user_id = 1; agent_id = 2; turn_id = 3 }

abbrev price_json : Json
price_json = json_object (
    field input_name (json_number (natural 100))
      (field output_name (json_number (natural 400)) no_field))

abbrev prices : Fields
prices = field default_name price_json no_field

-- The name 90 stands for `constructor`.
abbrev inherited_names : ℕ → Bool
inherited_names n = n == 90

amount_works : amount_from_usage short_usage small_price ≡ some 2
unfolding amount_from_usage safe_natural ceil_div
amount_works = refl

estimate_works : estimate_hold_amount small_price (natural 4096) (natural 5) ≡ some 7
unfolding estimate_hold_amount safe_natural ceil_div
estimate_works = refl

amount_from_usage_exact_example : (1150400 ≤ 2 * million) × (2 * million < 1150400 + million)
unfolding safe_natural
amount_from_usage_exact_example =
    amount_from_usage_exact short_usage small_price 100 400 2 refl refl amount_works

estimate_hold_amount_covers_example : 2 ≤ 7
unfolding safe_natural
estimate_hold_amount_covers_example =
    estimate_hold_amount_covers short_usage small_price (natural 4096) (natural 5) 100 400 4096 5 2
      7 refl refl refl refl (omega arith) (omega arith) amount_works estimate_works

price_for-IsPriced_example : IsPriced (price_for inherited_names prices 50)
unfolding parse_pricing_table is_price safe_natural
price_for-IsPriced_example =
    price_for-IsPriced inherited_names (some (json_object prices)) prices 50 refl refl

price_for_inherited_example :
    estimate_hold_amount (price_for inherited_names prices 90) (natural 10) (natural 0) ≡ none
price_for_inherited_example =
    price_for_inherited inherited_names prices 90 (natural 10) (natural 0) refl refl

-- A service that answers 201 to everything, with a fresh hold 7.
abbrev fresh_body : Json
fresh_body = json_object (
    field data_name
      (json_object (
        field hold_id_name (json_text 7) (
          field status_name (json_text held_text)
            (field replayed_name (json_boolean false) no_field))))
      no_field)

abbrev accepting : Billing
accepting _ = some (record { status = 201; body = some fresh_body })

abbrev any_uuid : ℕ → Bool
any_uuid _ = true

abbrev plain_key : Option ℕ → Platform → Dimension → ℕ
plain_key _ _ llm_token_in = 0
plain_key _ _ llm_token_out = 1

check_and_hold_admits_example :
    (estimate_hold_amount small_price (natural 4096) (natural 5) ≡ some 7)
    × ((check_and_hold any_uuid accepting caller small_price (natural 4096) (natural 5)).0
        ≡ hold_request caller 7 ∷ [])
    × ((r : Response) × (accepting (hold_request caller 7) ≡ some r) × Grants any_uuid r 7)
unfolding check_and_hold estimate_hold_amount safe_natural ceil_div create_hold decode_hold
check_and_hold_admits_example =
    check_and_hold_admits any_uuid accepting caller small_price (natural 4096) (natural 5) 7 7 none
      refl

-- A service that is down.
abbrev silent : Billing
silent _ = none

check_and_hold_fail_closed_example :
    (check_and_hold any_uuid silent caller small_price (natural 4096) (natural 5)).1 ≢ fail_open 7
check_and_hold_fail_closed_example =
    check_and_hold_fail_closed any_uuid silent caller small_price (natural 4096) (natural 5) 7

finalize_turn_complete_example :
    finalize_turn plain_key accepting (held 7 7 none) caller 4 small_price (some short_usage)
    ≡ map metering_request (turn_events plain_key (some 7) caller 4 small_price (some short_usage))
      ++ settle_request 7 2 ∷ []
unfolding actual_amount turn_events usage_to_metering_events with_quantity
finalize_turn_complete_example =
    finalize_turn_complete plain_key accepting 7 7 none caller 4 small_price (some short_usage) 2
      amount_works (refl, (refl, tt))

finalize_turn_settles_example :
    (settlements
        (finalize_turn plain_key accepting (held 7 7 none) caller 4 small_price (some short_usage))
      ≡ [])
    ⊎ ((i : ℕ) × (e : ℕ) × (x : Option ℕ) × (a : ℕ) × (held 7 7 none ≡ held i e x)
        × (actual_amount e (some short_usage) small_price ≡ some a)
        × AllAccepted accepting
            (turn_events plain_key (some i) caller 4 small_price (some short_usage))
        × (finalize_turn plain_key accepting (held 7 7 none) caller 4 small_price (some short_usage)
            ≡ map metering_request
                (turn_events plain_key (some i) caller 4 small_price (some short_usage))
              ++ settle_request i a ∷ []))
finalize_turn_settles_example =
    finalize_turn_settles plain_key accepting (held 7 7 none) caller 4 small_price
      (some short_usage)

abbrev usage_json : Json
usage_json = json_object (
    field usage_name
      (json_object (
        field prompt_tokens_name (json_number (natural 3))
          (field completion_tokens_name (json_number (natural 4)) no_field)))
      no_field)

-- A parser that takes every text that begins with the digit 7 to an object with a usage.
abbrev parse_seven : Text → Option Json
parse_seven [] = none
parse_seven (c ∷ cs) = if c == 55 then some usage_json else none

-- 'dat' and 'a: 7\n'.
abbrev two_chunks : List Text
two_chunks = (100 ∷ 97 ∷ 116 ∷ []) ∷ (97 ∷ 58 ∷ 32 ∷ 55 ∷ 10 ∷ []) ∷ []

stream_works :
    push_all parse_seven two_chunks new_extractor
    ≡ record { buffer = []; usage = some (record { prompt_tokens = 3; completion_tokens = 4 }) }
unfolding push_all push drain cut_line read_line trim is_space normalize_usage safe_natural
stream_works = refl

push_all-flatten_example :
    push_all parse_seven two_chunks new_extractor
    ≡ push parse_seven (flatten two_chunks) new_extractor
push_all-flatten_example = push_all-flatten parse_seven two_chunks
