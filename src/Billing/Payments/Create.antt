-- ===== src/Billing/Payments/Create.antt =====
-- `createPayment` of apps/billing/src/payment-repo.ts, with a parsed body.
use combo.Prelude.{
  leb, ◌==◌, if◌then◌else◌, ℕ, Bool, true, false, not, ◌&&◌, Option, none, some, List, [], ◌∷◌,
}
use combo.Billing.Types.{Digests}
use combo.Billing.Payments.{PaymentState, required, waiting, Payment, RequestKey, PaymentDb}

pub record CreateInput : Type 0 where
  pub user_id : ℕ
  pub payment_token : ℕ
  pub request_key : ℕ

pub data CreateOutcome : Type 0 where
  payment_created : Payment → (replayed : Bool) → CreateOutcome
  create_not_found create_conflict : CreateOutcome

-- WHERE user_id = $1 AND token_digest = $2.
unfoldable pub find_token : (user_id token_digest : ℕ) → List Payment → Option Payment
find_token u t [] = none
find_token u t (p ∷ ps) =
    if p.user_id == u && p.token_digest == t then some p else find_token u t ps

unfoldable pub find_key : (user_id request_key : ℕ) → List RequestKey → Option RequestKey
find_key u key [] = none
find_key u key (k ∷ ks) =
    if k.user_id == u && k.request_key == key then some k else find_key u key ks

abbrev pub is_required : PaymentState → Bool
is_required required = true
is_required _ = false

-- UPDATE v2_payment_requests SET state = 'waiting' WHERE id = $1.
unfoldable pub await_payment : ℕ → List Payment → List Payment
await_payment i [] = []
await_payment i (p ∷ ps) =
    (if p.id == i then record p { state = waiting } else p) ∷ await_payment i ps

-- The row of a new request key.
abbrev pub remember_key : CreateInput → Payment → Option RequestKey → PaymentDb → PaymentDb
remember_key input p (some old) db = db
remember_key input p none db = record db {
  request_keys =
      (record { user_id = input.user_id; request_key = input.request_key; payment_id = p.id })
      ∷ db.request_keys;
}

abbrev pub is_other_payment : Payment → Option RequestKey → Bool
is_other_payment p none = false
is_other_payment p (some k) = not (k.payment_id == p.id)

-- The writes.
unfoldable pub start_payment :
    CreateInput → Payment → Option RequestKey → PaymentDb → CreateOutcome × PaymentDb
start_payment input p old db =
    let db1 = remember_key input p old db in
    if is_required p.state
    then (
      payment_created (record p { state = waiting }) false,
      record db1 { payments = await_payment p.id db1.payments },
    )
    else (payment_created p true, db1)

-- From the look for the key.
unfoldable pub create_found :
    CreateInput → (clock : ℕ) → Payment → Option RequestKey → PaymentDb → CreateOutcome × PaymentDb
create_found input clock p old db =
    if is_other_payment p old
    then (create_conflict, db)
    else if is_required p.state && leb p.expires_at clock
    then (create_conflict, db)
    else start_payment input p old db

-- By the payment of the token.
unfoldable pub create_by_token :
    CreateInput → (clock : ℕ) → Option Payment → PaymentDb → CreateOutcome × PaymentDb
create_by_token input clock none db = (create_not_found, db)
create_by_token input clock (some p) db =
    create_found input clock p (find_key input.user_id input.request_key db.request_keys) db

-- `createPayment`; the service's own clock is an argument.
unfoldable pub create_payment :
    Digests → (clock : ℕ) → CreateInput → PaymentDb → CreateOutcome × PaymentDb
create_payment digests clock input db =
    create_by_token input clock
      (find_token input.user_id (digests.of_token input.payment_token) db.payments) db

-- The rows that a user may read.
unfoldable pub find_shown : (user_id id : ℕ) → List Payment → Option Payment
find_shown u i [] = none
find_shown u i (p ∷ ps) =
    if p.user_id == u && p.id == i && not (is_required p.state) then some p else find_shown u i ps

-- `getPayment`.
abbrev pub get_payment : (user_id id : ℕ) → PaymentDb → Option Payment
get_payment u i db = find_shown u i db.payments

-- `findPayment` of payment-repo.ts.
unfoldable pub find_request : (user_id request_key : ℕ) → PaymentDb → Option Payment
find_request u key db = elim (find_key u key db.request_keys) [
  | none ↦ none
  | some k ↦ find_shown u k.payment_id db.payments
]
