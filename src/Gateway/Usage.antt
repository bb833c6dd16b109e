-- ===== src/Gateway/Usage.antt =====
-- apps/llm-gateway/src/usage.ts: the extractor of the last usage in a provider's stream. A text is
-- the list of its UTF-16 code units. JSON.parse is an argument, with `none` where it throws.
use combo.Prelude.Texts.{Text, trim, after_prefix, same_text}
use combo.Prelude.{◌==◌, if◌then◌else◌, length, ℕ, zero, suc, Option, none, some, [], ◌∷◌, ◌++◌}
use combo.Gateway.Json.{safe_natural, Json, json_array, json_object, get_field, as_number}
use combo.Gateway.Pricing.{◌>>=◌, TokenUsage}

abbrev pub prompt_tokens_name : ℕ
prompt_tokens_name = 4

abbrev pub completion_tokens_name : ℕ
completion_tokens_name = 5

abbrev pub usage_name : ℕ
usage_name = 6

abbrev usage_of : Json → Option TokenUsage
usage_of v = do
  p ← safe_natural (as_number (get_field prompt_tokens_name v))
  c ← safe_natural (as_number (get_field completion_tokens_name v))
  some (record { prompt_tokens = p; completion_tokens = c })

-- `normalizeUsage`; the fields of an array are undefined.
unfoldable pub normalize_usage : Option Json → Option TokenUsage
normalize_usage (some (json_object fields)) = usage_of (json_object fields)
normalize_usage (some json_array) = usage_of json_array
normalize_usage _ = none

-- parsed.usage, which throws for null.
abbrev usage_field : Json → Option Json
usage_field v = get_field usage_name v

abbrev pub newline : ℕ
newline = 10

-- The five code units of the data prefix, and the payload that ends a stream.
abbrev pub data_prefix : Text
data_prefix = 100 ∷ 97 ∷ 116 ∷ 97 ∷ 58 ∷ []

abbrev pub done_mark : Text
done_mark = 91 ∷ 68 ∷ 79 ∷ 78 ∷ 69 ∷ 93 ∷ []

-- The usage after a line is read: the body of the loop.
unfoldable pub read_line : (Text → Option Json) → Text → Option TokenUsage → Option TokenUsage
read_line parse line usage = elim (after_prefix data_prefix (trim line)) [
  | none ↦ usage
  | some rest ↦ if same_text (trim rest) done_mark then usage else elim (parse (trim rest)) [
    | none ↦ usage
    | some v ↦ elim (normalize_usage (usage_field v)) [ none ↦ usage | some u ↦ some u ]
  ]
]

-- buffer.slice(0, newline) and buffer.slice(newline + 1), where buffer.indexOf('\n') finds one.
unfoldable pub cut_line : Text → Option (Text × Text)
cut_line [] = none
cut_line (c ∷ cs) =
    let rest = cut_line cs in
    if c == newline
    then some ([], cs)
    else elim rest [ none ↦ none | some (line, later) ↦ some (c ∷ line, later) ]

-- The buffer and the usage that the extractor keeps.
pub record Extractor : Type 0 where
  pub buffer : Text
  pub usage : Option TokenUsage

abbrev pub new_extractor : Extractor
new_extractor = record { buffer = []; usage = none }

-- The while loop: each pass takes a line off the buffer, so its length is fuel enough.
unfoldable pub drain : (Text → Option Json) → (fuel : ℕ) → Extractor → Extractor
drain parse zero s = s
drain parse (suc fuel) s = elim (cut_line s.buffer) [
  | none ↦ s
  | some (line, later) ↦
      drain parse fuel (record { buffer = later; usage = read_line parse line s.usage })
]

unfoldable pub push : (Text → Option Json) → Text → Extractor → Extractor
push parse text s =
    let buffer = s.buffer ++ text in drain parse (length buffer) (record s { buffer = buffer })
