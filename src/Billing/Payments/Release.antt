-- ===== src/Billing/Payments/Release.antt =====
-- `releaseExpiredFunds` of apps/billing/src/payment-repo.ts.
use combo.Prelude.{
  ltb, leb, ◌==◌, if◌then◌else◌, ℕ, zero, suc, ◌+◌, Bool, true, false, ◌&&◌, ◌||◌, Option, none,
  some, List, [], ◌∷◌,
}
use combo.Prelude.Int.{pos}
use combo.Billing.Types.{ok, err, ◌>>=◌, release, expire, payment_key, invalid_limit, Result}
use combo.Billing.Rows.{lock_wallet, insert_entry}
use combo.Billing.Sweep.{unfreeze}
use combo.Billing.Payments.{Call, FundsState, available, given_back, Funds, PaymentDb, find_call}

abbrev pub is_available : FundsState → Bool
is_available available = true
is_available _ = false

unfoldable pub is_due_funds : ℕ → Funds → Bool
is_due_funds now f = is_available f.state && leb f.expires_at now

-- The due row of a call, by the unique call_ref.
unfoldable pub find_due : (now call_ref : ℕ) → List Funds → Option Funds
find_due now call [] = none
find_due now call (f ∷ fs) =
    if f.call_ref == call && is_due_funds now f then some f else find_due now call fs

-- UPDATE … SET state = 'released' WHERE payment_id = $1.
unfoldable pub give_back : ℕ → List Funds → List Funds
give_back i [] = []
give_back i (f ∷ fs) =
    if f.payment_id == i then record f { state = given_back } ∷ fs else f ∷ give_back i fs

-- The writes of one release, after the wallet is locked.
unfoldable pub release_locked : Funds → PaymentDb → Result (ℕ × PaymentDb)
release_locked f db = do
  billing ← unfreeze f.user_id f.amount db.billing
  billing1 ←
      insert_entry
        (record {
          user_id = f.user_id;
          kind = release;
          bucket = none;
          amount = pos f.amount;
          ref_id = some f.payment_id;
          key = payment_key expire f.payment_id;
        })
        billing
  ok (1, record db { billing = billing1; funds = give_back f.payment_id db.funds })

unfoldable pub release_funds : Funds → PaymentDb → Result (ℕ × PaymentDb)
release_funds f db =
    (lock_wallet f.user_id db.billing >>= λ l. release_locked f (record db { billing = l.1 }))

abbrev pub release_found : Option Funds → PaymentDb → Result (ℕ × PaymentDb)
release_found none db = ok (0, db)
release_found (some f) db = release_funds f db

-- The transaction of one candidate.
unfoldable pub release_call : Call → PaymentDb → Result (ℕ × PaymentDb)
release_call c db = release_found (find_due db.billing.now c.id db.funds) db

-- The loop over the candidates: a transaction that throws is rolled back and ends it.
unfoldable pub release_calls : List Call → (count : ℕ) → PaymentDb → Result ℕ × PaymentDb
release_calls [] count db = (ok count, db)
release_calls (c ∷ cs) count db = elim (release_call c db) [
  | err fault ↦ (err fault, db)
  | ok (n, after) ↦ release_calls cs (count + n) after
]

unfoldable pub due_funds : ℕ → List Funds → List Funds
due_funds now [] = []
due_funds now (f ∷ fs) =
    let rest = due_funds now fs in if is_due_funds now f then f ∷ rest else rest

-- ORDER BY f.expires_at.
unfoldable pub insert_funds_by_expiry : Funds → List Funds → List Funds
insert_funds_by_expiry f [] = f ∷ []
insert_funds_by_expiry f (g ∷ gs) =
    if leb f.expires_at g.expires_at then f ∷ g ∷ gs else g ∷ insert_funds_by_expiry f gs

unfoldable pub sort_funds : List Funds → List Funds
sort_funds [] = []
sort_funds (f ∷ fs) = insert_funds_by_expiry f (sort_funds fs)

-- The join with the calls, up to the limit.
unfoldable pub calls_of : (limit : ℕ) → List Call → List Funds → List Call
calls_of zero calls fs = []
calls_of (suc n) calls [] = []
calls_of (suc n) calls (f ∷ fs) = elim (find_call f.call_ref calls) [
  | none ↦ calls_of (suc n) calls fs
  | some c ↦ c ∷ calls_of n calls fs
]

-- `releaseExpiredFunds`.
unfoldable pub release_expired_funds : (limit : ℕ) → PaymentDb → Result ℕ × PaymentDb
release_expired_funds limit db =
    let candidates = calls_of limit db.calls (sort_funds (due_funds db.billing.now db.funds)) in
    let rest = release_calls candidates 0 db in
    if ltb limit 1 || ltb 1000 limit then (err invalid_limit, db) else rest
