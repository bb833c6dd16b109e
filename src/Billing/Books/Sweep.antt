-- ===== src/Billing/Books/Sweep.antt =====
-- What a sweep of apps/billing/src/repo.ts touches, and that it does so once.
use combo.Billing.Books.{IsKeyed}
use combo.Billing.Sweep.{is_due, select_expired, expire_hold, expire_holds, sweep_expired_holds}
use combo.Billing.Rows.{is_held, find_hold, set_hold}
use combo.Billing.Types.{ok, >>=-eq-ok, Status, held, settled, released, expired, Hold, Db}
use combo.Prelude.{
  ◌==◌, Bool-cases, length, All, All-map, ℕ, ◌≤◌, ◌≡◌, refl, subst, inl, inr, Bool, true, false,
  Option, none, some, List, [], ◌∷◌, arith,
}
use combo.Billing.Books.Expire.{
  is_due-All, IsCurrent, IsCurrent-set_hold, expire_hold_lem, select_expired-All,
  length-select_expired, select_expired-IsCurrent,
}

abbrev is_expired : Status → Bool
is_expired expired = true
is_expired _ = false

-- The row with an id is in the table, and is expired.
abbrev pub IsExpiredIn : List Hold → ℕ → Type 0
IsExpiredIn hs i = (g : Hold) × (find_hold i hs ≡ some g) × (g.status ≡ expired)

set_hold-IsExpiredIn :
    (i : ℕ) (hs : List Hold) (g : Hold)
    → find_hold i hs ≡ some g
    → IsExpiredIn (set_hold i expired none hs) i
unfolding find_hold set_hold
set_hold-IsExpiredIn i [] g f = absurd (cc)
set_hold-IsExpiredIn i (h ∷ hs) g f = elim (Bool-cases (h.id == i)) [
  | inl e ↦ (record h { status = expired; actual_amount = none }, ground arith, refl)
  | inr e ↦
      let (k, found, done) = set_hold-IsExpiredIn i hs g (ground arith) in (k, ground arith, done)
]

find_hold-set_hold_ne :
    (j i : ℕ) (st : Status) (actual : Option ℕ) (hs : List Hold)
    → (i == j) ≡ false
    → find_hold j (set_hold i st actual hs) ≡ find_hold j hs
unfolding find_hold set_hold
find_hold-set_hold_ne j i st actual [] n = refl
find_hold-set_hold_ne j i st actual (h ∷ hs) n = elim (Bool-cases (h.id == i)) [
  | inl e ↦ ground arith
  | inr e ↦ ground (arith, find_hold-set_hold_ne j i st actual hs n)
]

-- The trigger keeps an expired row from being expired again.
expire_hold-IsExpiredIn :
    (j : ℕ) (row : Hold) (db db1 : Db)
    → expire_hold row db ≡ ok db1
    → IsExpiredIn db.holds j
    → IsExpiredIn db1.holds j
expire_hold-IsExpiredIn j row db db1 h (g, found, done) =
    let (may, holds, wallets, sums) = expire_hold_lem row db db1 h in
    elim (Bool-cases (row.id == j)) [
      | inl e ↦ absurd (ground arith)
      | inr e ↦ (g, rw (holds, find_hold-set_hold_ne j row.id expired none db.holds e) found, done)
    ]

expire_holds-IsExpiredIn :
    (j : ℕ) (rows : List Hold) (db db1 : Db)
    → expire_holds rows db ≡ ok db1
    → IsExpiredIn db.holds j
    → IsExpiredIn db1.holds j
unfolding expire_holds
expire_holds-IsExpiredIn j [] db db1 h x =
    let same : db ≡ db1 = ground arith in subst (λ (d : Db). IsExpiredIn d.holds j) same x
expire_holds-IsExpiredIn j (row ∷ rows) db db1 h x =
    let (db2, first, rest) = >>=-eq-ok (expire_hold row db) _ h in
    expire_holds-IsExpiredIn j rows db2 db1 rest (expire_hold-IsExpiredIn j row db db2 first x)

expire_holds-All :
    (rows : List Hold) (db db1 : Db)
    → All (IsCurrent db.holds) rows
    → expire_holds rows db ≡ ok db1
    → All (λ row. IsExpiredIn db1.holds row.id) rows
unfolding expire_holds
expire_holds-All [] db db1 a h = tt
expire_holds-All (row ∷ rows) db db1 a h =
    let (db2, first, rest) = >>=-eq-ok (expire_hold row db) _ h in
    let holds = (expire_hold_lem row db db2 first).1 in
    let still = rw (← holds) at (IsCurrent-set_hold row.id expired none db.holds rows a.1) in
    let now = rw (← holds) at (set_hold-IsExpiredIn row.id db.holds a.0.0 a.0.1) in
    (
      expire_holds-IsExpiredIn row.id rows db2 db1 rest now,
      expire_holds-All rows db2 db1 still rest,
    )

is_held-held : (st : Status) → is_held st ≡ true → st ≡ held
is_held-held held h = refl
is_held-held settled h = absurd cc
is_held-held released h = absurd cc
is_held-held expired h = absurd cc

-- A held row past its expiry that no other transaction has locked.
abbrev pub IsDue : (ℕ → Bool) → ℕ → Hold → Type 0
IsDue locked now row = (row.status ≡ held) × (row.expires_at ≤ now) × (locked row.id ≡ false)

is_due-IsDue :
    (locked : ℕ → Bool) (now : ℕ) (row : Hold) → is_due locked now row ≡ true → IsDue locked now row
unfolding is_due
is_due-IsDue locked now row h = (is_held-held row.status (ground arith), ground arith, ground arith)

-- In a table of holds whose ids are distinct, a sweep that succeeds reports at most `limit` rows; each of them was held, past its expiry and not
-- locked when the sweep began, and is expired when it ends.
pub sweep_expired_holds_lem :
    (locked : ℕ → Bool) (limit : ℕ) (db : Db) (r : ℕ × Db)
    → IsKeyed db.holds
    → sweep_expired_holds locked limit db ≡ ok r
    → (r.0 ≡ length (select_expired locked limit db))
      × (r.0 ≤ limit)
      × All (IsDue locked db.now) (select_expired locked limit db)
      × All (λ row. IsExpiredIn r.1.holds row.id) (select_expired locked limit db)
unfolding sweep_expired_holds
sweep_expired_holds_lem locked limit db r b h =
    let (db1, swept, last) = >>=-eq-ok (expire_holds (select_expired locked limit db) db) _ h in
    let same : db1 ≡ r.1 = ground arith in
    let count : r.0 ≡ length (select_expired locked limit db) = ground arith in
    (
      count,
      rw count (length-select_expired locked limit db),
      All-map (select_expired locked limit db) (is_due-IsDue locked db.now)
          (select_expired-All _ locked limit db (is_due-All locked db.now db.holds)),
      subst (λ (d : Db). All (λ row. IsExpiredIn d.holds row.id) (select_expired locked limit db))
          same (expire_holds-All _ db db1 (select_expired-IsCurrent locked limit db b) swept),
    )
