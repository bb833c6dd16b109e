-- ===== src/Billing/Payments/Books/Admits.antt =====
-- `admitCall` of apps/billing/src/payment-repo.ts keeps the books and the foreign keys.
use combo.Prelude.{
  ltb, Bool-cases, Option-cases, ℕ, ◌≡◌, refl, sym, subst, inl, inr, Option, none, some, ◌∷◌, arith,
}
use combo.Prelude.Int.{pos, ltb_ℤ}
use combo.Billing.Types.{ok, >>=-eq-ok, Wallet, Db, Digests}
use combo.Billing.Rows.{available_balance, lock_wallet, find_hold_by_turn, is_some}
use combo.Billing.Payments.{Call, Payment, PaymentDb, find_call, find_payment, payment_for_call}
use combo.Billing.Payments.Attempt.{latest_attempt}
use combo.Billing.Payments.Release.{is_available}
use combo.Billing.Payments.Admit.{
  AdmissionInput, FreshIds, AdmissionOutcome, find_call_by, matches, find_funds, is_completed,
  new_payment, has_token, ask_payment, admit_unfunded, admit_funded, admit_new, new_call,
  ensure_call, admit_call_row, admit_found, admit_call,
}
use combo.Billing.Payments.Books.{IsKeyedFunds}
use combo.Billing.Payments.Books.Links.{find_call_by-find_call}
use combo.Billing.Payments.Books.Connects.{same_calls-IsConnected, insert_call-IsConnected}
use combo.Billing.Payments.Books.Places.{
  IsSound, lock_wallet-IsSound, admitted_as-IsSound, admitted_as-IsSound_claimed, matches_user,
  readmit-IsSound,
}

ask_payment-IsSound :
    (digests : Digests) (fresh : FreshIds) (c : Call) (db : PaymentDb)
    (r : AdmissionOutcome × PaymentDb)
    → IsSound db
    → find_call c.id db.calls ≡ some c
    → ask_payment digests fresh c db ≡ ok r
    → IsSound r.1
unfolding ask_payment
ask_payment-IsSound digests fresh c db r (b, k) there h =
    elim (Option-cases (find_payment fresh.payment db.payments)) [
      | inr (p, taken) ↦ absurd (ground (arith, h, taken))
      | inl free ↦
          let p = new_payment digests fresh c db.billing in
          let after : PaymentDb = record db { payments = p ∷ db.payments } in
          elim (Bool-cases (has_token p.token_digest db.payments)) [
            | inl taken ↦ absurd (ground (arith, h, free, taken))
            | inr other ↦ subst IsSound {x = after} (ground (arith, h, free, other)) (
              record {
                backs_held = b.backs_held;
                backs_principal = b.backs_principal;
                backs_bonus = b.backs_bonus;
                is_keyed = b.is_keyed;
              },
              same_calls-IsConnected db after k refl ((c, there, refl, refl), k.payments_linked)
                  k.funds_linked,
            )
          ]
    ]

admit_unfunded-IsSound :
    (digests : Digests) (fresh : FreshIds) (clock : ℕ) (c : Call) (payment : Option Payment)
    (w : Wallet) (db : PaymentDb) (r : AdmissionOutcome × PaymentDb)
    → IsSound db
    → db.billing.wallets c.user_id ≡ some w
    → find_call c.id db.calls ≡ some c
    → admit_unfunded digests fresh clock c payment w db ≡ ok r
    → IsSound r.1
unfolding admit_unfunded
admit_unfunded-IsSound digests fresh clock c none w db r s here there h =
    elim (Bool-cases (ltb_ℤ (available_balance w) (pos c.estimated_amount))) [
      | inl poor ↦ ask_payment-IsSound digests fresh c db r s there (ground (arith, h, poor))
      | inr rich ↦
          admitted_as-IsSound digests fresh.hold c.call_id 1 c w db r s here
            (ground (arith, h, rich))
    ]
admit_unfunded-IsSound digests fresh clock c (some p) w db r s here there h =
    elim (Bool-cases (is_completed p.state)) [
      | inr unpaid ↦ subst IsSound {x = db} (ground (arith, h, unpaid)) s
      | inl paid ↦ elim (Bool-cases (ltb_ℤ (available_balance w) (pos c.estimated_amount))) [
        | inl poor ↦ subst IsSound {x = db} (ground (arith, h, paid, poor)) s
        | inr rich ↦
            admitted_as-IsSound digests fresh.hold c.call_id 1 c w db r s here
              (ground (arith, h, paid, rich))
      ]
    ]

admit_funded-IsSound :
    (digests : Digests) (fresh : FreshIds) (clock : ℕ) (c : Call) (w : Wallet) (db : PaymentDb)
    (r : AdmissionOutcome × PaymentDb)
    → IsSound db
    → db.billing.wallets c.user_id ≡ some w
    → find_call c.id db.calls ≡ some c
    → admit_funded digests fresh clock c (find_funds c.id db.funds) w db ≡ ok r
    → IsSound r.1
unfolding admit_funded
admit_funded-IsSound digests fresh clock c w db r s here there h =
    let unfunded =
      admit_unfunded-IsSound digests fresh clock c (payment_for_call c.id db.payments) w db r s here
        there in
    elim (Option-cases (find_funds c.id db.funds)) [
      | inl gone ↦ unfunded (ground (arith, h, gone))
      | inr (f, e) ↦ elim (Bool-cases (is_available f.state)) [
        | inr spent ↦ unfunded (ground (arith, h, e, spent))
        | inl free ↦ elim (Bool-cases (ltb clock f.expires_at)) [
          | inr late ↦ subst IsSound {x = db} (ground (arith, h, e, free, late)) s
          | inl early ↦
              admitted_as-IsSound_claimed digests fresh.hold c.call_id 1 c f db r s there e free
                (ground (arith, h, e, free, early))
        ]
      ]
    ]

admit_new-IsSound :
    (digests : Digests) (fresh : FreshIds) (clock : ℕ) (c : Call) (db : PaymentDb)
    (r : AdmissionOutcome × PaymentDb)
    → IsSound db
    → find_call c.id db.calls ≡ some c
    → admit_new digests fresh clock c db ≡ ok r
    → IsSound r.1
unfolding admit_new
admit_new-IsSound digests fresh clock c db r s there h =
    let (l, locked, rest) =
      >>=-eq-ok (lock_wallet c.user_id db.billing)
        (λ (l : Wallet × Db).
          admit_funded digests fresh clock c (find_funds c.id db.funds) l.0
            (record db { billing = l.1 }))
        h in
    let (s1, here) = lock_wallet-IsSound c.user_id db l s locked in
    admit_funded-IsSound digests fresh clock c l.0 (record db { billing = l.1 }) r s1 here there
      rest

ensure_call-IsSound :
    (fresh : FreshIds) (input : AdmissionInput) (row : Option Call) (db : PaymentDb)
    (r : Call × PaymentDb)
    → IsSound db
    → find_call_by input.agent_id input.call_id db.calls ≡ row
    → ensure_call fresh input row db ≡ ok r
    → IsSound r.1 × (find_call r.0.id r.1.calls ≡ some r.0)
unfolding ensure_call
ensure_call-IsSound fresh input (some c) db r (b, k) e h =
    let is_call : c ≡ r.0 = ground (arith, h) in
    let is_db : db ≡ r.1 = ground (arith, h) in
    let there = find_call_by-find_call input.agent_id input.call_id db.calls c k.keyed e in
    (
      subst IsSound is_db (b, k),
      subst (λ x. find_call r.0.id x.calls ≡ some r.0) is_db
          (subst (λ x. find_call x.id db.calls ≡ some x) is_call there),
    )
ensure_call-IsSound fresh input none db (d, after) (b, k) e h =
    let (k1, is_call, there, funds, payments, billing) =
      insert_call-IsConnected (new_call fresh input) d db after k h in
    (
      (
        record {
          backs_held = λ v. ground (arith, b.backs_held v, funds, billing);
          backs_principal = λ v. ground (arith, b.backs_principal v, billing);
          backs_bonus = λ v. ground (arith, b.backs_bonus v, billing);
          is_keyed = subst IsKeyedFunds (sym funds) b.is_keyed;
        },
        k1,
      ),
      subst (λ x. find_call x.id after.calls ≡ some x) (sym is_call) there,
    )

admit_call_row-IsSound :
    (digests : Digests) (fresh : FreshIds) (clock : ℕ) (input : AdmissionInput) (row : Option Call)
    (db : PaymentDb) (r : AdmissionOutcome × PaymentDb)
    → IsSound db
    → find_call_by input.agent_id input.call_id db.calls ≡ row
    → admit_call_row digests fresh clock input row db ≡ ok r
    → IsSound r.1
unfolding admit_call_row
admit_call_row-IsSound digests fresh clock input row db r s e h =
    elim (Bool-cases (is_some (find_hold_by_turn input.agent_id input.call_id db.billing.holds))) [
      | inl taken ↦ subst IsSound {x = db} (ground (arith, h, taken)) s
      | inr free ↦ elim (Bool-cases (db.billing.users input.user_id)) [
        | inr stranger ↦ subst IsSound {x = db} (ground (arith, h, free, stranger)) s
        | inl user ↦
            let (x, made, rest) =
              >>=-eq-ok (ensure_call fresh input row db)
                (λ (x : Call × PaymentDb). admit_new digests fresh clock x.0 x.1)
                (ground (arith, h, free, user)) in
            let (s1, there) = ensure_call-IsSound fresh input row db x s e made in
            admit_new-IsSound digests fresh clock x.0 x.1 r s1 there rest
      ]
    ]

pub admit_call-IsSound :
    (digests : Digests) (fresh : FreshIds) (clock : ℕ) (input : AdmissionInput) (db : PaymentDb)
    (r : AdmissionOutcome × PaymentDb)
    → IsSound db
    → admit_call digests fresh clock input db ≡ ok r
    → IsSound r.1
unfolding admit_call admit_found
admit_call-IsSound digests fresh clock input db r s h =
    elim (Option-cases (find_call_by input.agent_id input.call_id db.calls)) [
      | inl new ↦
          admit_call_row-IsSound digests fresh clock input none db r s new (ground (arith, h, new))
      | inr (c, e) ↦ elim (Bool-cases (matches c input)) [
        | inr other ↦ subst IsSound {x = db} (ground (arith, h, e, other)) s
        | inl same ↦
            let user : c.user_id ≡ input.user_id = matches_user c input same in
            elim (Option-cases c.hold_id) [
              | inl unheld ↦
                  admit_call_row-IsSound digests fresh clock input (some c) db r s e
                    (ground (arith, h, e, same, unheld))
              | inr (hold, placed) ↦
                  readmit-IsSound digests fresh input c hold (latest_attempt c.id db.attempts) db r
                    s user (ground (arith, h, e, same, placed))
            ]
      ]
    ]
