-- ===== src/Billing/Payments/Books/Links.antt =====
-- The foreign keys of v2_payment_requests and v2_payment_fund_reservations: each row has the user and
-- the amount of its call.
use combo.Prelude.{
  ◌==◌, ==_refl, Bool-cases, All, ℕ, ◌≡◌, refl, ◌∙◌, subst, inl, inr, false, ◌&&◌, none, some, List,
  [], ◌∷◌, arith,
}
use combo.Billing.Payments.{Call, Payment, Funds, PaymentDb, find_call}
use combo.Billing.Payments.Admit.{find_call_by, set_call_hold}

abbrev pub IsLinked : List Call → (call_ref user_id amount : ℕ) → Type 0
IsLinked cs i u a =
    (c : Call) × (find_call i cs ≡ some c) × (c.user_id ≡ u) × (c.estimated_amount ≡ a)

abbrev pub AllPayments : List Call → List Payment → Type 0
AllPayments cs = All (λ p. IsLinked cs p.call_ref p.user_id p.amount)

abbrev pub AllFunds : List Call → List Funds → Type 0
AllFunds cs = All (λ f. IsLinked cs f.call_ref f.user_id f.amount)

abbrev pub IsFreshCall : ℕ → List Call → Type 0
IsFreshCall i cs = All (λ c. (c.id == i) ≡ false) cs

-- The primary key of v2_billable_calls.
abbrev pub IsKeyedCalls : List Call → Type 0
IsKeyedCalls [] = Unit
IsKeyedCalls (c ∷ cs) = IsFreshCall c.id cs × IsKeyedCalls cs

pub record IsConnected (db : PaymentDb) : Type 0 where
  pub keyed : IsKeyedCalls db.calls
  pub payments_linked : AllPayments db.calls db.payments
  pub funds_linked : AllFunds db.calls db.funds

pub find_call-IsFreshCall : (i : ℕ) (cs : List Call) → find_call i cs ≡ none → IsFreshCall i cs
unfolding find_call
find_call-IsFreshCall i [] h = tt
find_call-IsFreshCall i (c ∷ cs) h =
    (ground (arith, h), find_call-IsFreshCall i cs (ground (arith, h)))

find_call_by-IsFreshCall :
    (a t i : ℕ) (cs : List Call) (c : Call)
    → find_call_by a t cs ≡ some c
    → IsFreshCall i cs
    → (i == c.id) ≡ false
unfolding find_call_by
find_call_by-IsFreshCall a t i [] c e h = absurd (ground (arith, e))
find_call_by-IsFreshCall a t i (d ∷ ds) c e (h, hs) =
    elim (Bool-cases (d.agent_id == a && d.call_id == t)) [
      | inl m ↦
          let same : d ≡ c = ground (arith, e, m) in
          subst (λ x. (i == x.id) ≡ false) same (ground arith)
      | inr m ↦ find_call_by-IsFreshCall a t i ds c (ground (arith, e, m)) hs
    ]

-- The row that is found by agent and call is the row of its id.
pub find_call_by-find_call :
    (a t : ℕ) (cs : List Call) (c : Call)
    → IsKeyedCalls cs
    → find_call_by a t cs ≡ some c
    → find_call c.id cs ≡ some c
unfolding find_call_by find_call
find_call_by-find_call a t [] c k e = absurd (ground (arith, e))
find_call_by-find_call a t (d ∷ ds) c (h, k) e =
    elim (Bool-cases (d.agent_id == a && d.call_id == t)) [
      | inl m ↦
          let same : d ≡ c = ground (arith, e, m) in
          subst (λ x. find_call x.id (d ∷ ds) ≡ some x) same (rw (==_refl d.id) refl)
      | inr m ↦
          let later : find_call_by a t ds ≡ some c = ground (arith, e, m) in
          let other = find_call_by-IsFreshCall a t d.id ds c later h in
          let rest = find_call_by-find_call a t ds c k later in rw other rest
    ]

pub IsLinked-∷ :
    (n : Call) (cs : List Call) (i u a : ℕ)
    → find_call n.id cs ≡ none
    → IsLinked cs i u a
    → IsLinked (n ∷ cs) i u a
unfolding find_call
IsLinked-∷ n cs i u a free (c, e, user, amount) =
    let other : (n.id == i) ≡ false = elim (Bool-cases (n.id == i)) [
      | inl h ↦
          let same : n.id ≡ i = ground arith in
          let gone = subst (λ x. find_call x cs ≡ none) same free in
          absurd (ground (arith, e, gone))
      | inr h ↦ h
    ] in
    (c, rw other e, user, amount)

-- A row keeps its user and amount when its hold is set.
find_call-set_call_hold :
    (i j hold : ℕ) (cs : List Call) (c : Call)
    → find_call i cs ≡ some c
    → (d : Call) × (find_call i (set_call_hold j hold cs) ≡ some d)
      × (d.user_id ≡ c.user_id)
      × (d.estimated_amount ≡ c.estimated_amount)
unfolding find_call set_call_hold
find_call-set_call_hold i j hold [] c e = absurd (ground (arith, e))
find_call-set_call_hold i j hold (d ∷ ds) c e = elim (Bool-cases (d.id == i)) [
  | inl h ↦ elim (Bool-cases (d.id == j)) [
    | inl g ↦ (record d { hold_id = some hold }, ground arith, ground arith, ground arith)
    | inr g ↦ (d, ground arith, ground arith, ground arith)
  ]
  | inr h ↦
      let (x, found, user, amount) = find_call-set_call_hold i j hold ds c (ground arith) in
      (x, ground (arith, found), user, amount)
]

pub IsLinked-set_call_hold :
    (j hold : ℕ) (cs : List Call) (i u a : ℕ)
    → IsLinked cs i u a
    → IsLinked (set_call_hold j hold cs) i u a
IsLinked-set_call_hold j hold cs i u a (c, e, user, amount) =
    let (d, found, user1, amount1) = find_call-set_call_hold i j hold cs c e in
    (d, found, user1 ∙ user, amount1 ∙ amount)
