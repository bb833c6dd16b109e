-- ===== src/Gateway/Json.antt =====
-- The values that JSON.parse returns, and the numbers of JavaScript, as apps/llm-gateway/src reads
-- them. Texts and field names are only compared, and stand as numbers.
use combo.Prelude.{leb, ◌==◌, if◌then◌else◌, ℕ, Bool, Option, none, some}
use combo.Prelude.Int.{ℤ, pos, negsuc}
use combo.Billing.Rows.{max_safe_integer}

-- `no_integer` is a fraction, an infinity, NaN, or a value that is no number at all.
pub data Number : Type 0 where
  integer : ℤ → Number
  no_integer : Number

-- Number.isSafeInteger(n) && n >= 0, with the number.
unfoldable pub safe_natural : Number → Option ℕ
safe_natural (integer (pos n)) = if leb n max_safe_integer then some n else none
safe_natural (integer (negsuc n)) = none
safe_natural no_integer = none

-- The source reads no element of an array.
mutual
  pub data Json : Type 0 where
    json_null : Json
    json_boolean : Bool → Json
    json_number : Number → Json
    json_text : ℕ → Json
    json_array : Json
    json_object : Fields → Json

  pub data Fields : Type 0 where
    no_field : Fields
    field : (name : ℕ) → Json → Fields → Fields

abbrev pub find_field : ℕ → Fields → Option Json
find_field k no_field = none
find_field k (field name value rest) =
    let later = find_field k rest in if name == k then some value else later

-- v.name for a value that may be undefined; `none` is undefined.
abbrev pub get_field : ℕ → Json → Option Json
get_field k (json_object fields) = find_field k fields
get_field k _ = none

abbrev pub as_number : Option Json → Number
as_number (some (json_number n)) = n
as_number _ = no_integer
