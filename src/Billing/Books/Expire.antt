-- ===== src/Billing/Books/Expire.antt =====
-- `sweepExpiredHolds` of apps/billing/src/repo.ts: what it selects, and that it keeps the books
-- balanced.
use combo.Billing.Books.{held_sum, ledger_sum, wallet_of, IsKeyed, IsBalanced}
use combo.Billing.Sweep.{
  is_due, due, insert_by_expiry, sort_by_expiry, limit_to, select_expired, unfreeze, expire_hold,
  expire_holds, sweep_expired_holds,
}
use combo.Billing.Rows.{to_hold, find_hold, set_hold, may_change, update_hold, insert_entry}
use combo.Billing.Types.{ok, >>=-eq-ok, Status, expired, Hold, Bucket, principal, bonus, Db}
use combo.Prelude.{
  leb, ◌==◌, if◌then◌else◌, Bool-cases, length, All, ℕ, zero, suc, ◌-◌, ◌≤◌, ◌≡◌, refl, ap, ◌∙◌,
  subst, inl, inr, Bool, true, Option, none, some, List, [], ◌∷◌, arith,
}
use combo.Billing.Books.Holds.{held_sum-set_hold, IsKeyed-set_hold, find_hold-id, find_hold-IsKeyed}

-- What holds of every row holds of every row that is selected.
module _ (P : Hold → Type 0) where
  due-All : (locked : ℕ → Bool) (now : ℕ) (hs : List Hold) → All P hs → All P (due locked now hs)
  unfolding due
  due-All locked now [] a = tt
  due-All locked now (h ∷ hs) a = elim (Bool-cases (is_due locked now h)) [
    | inl e ↦ rw e (a.0, due-All locked now hs a.1)
    | inr e ↦ rw e (due-All locked now hs a.1)
  ]

  insert_by_expiry-All :
      (h : Hold) (hs : List Hold) → P h → All P hs → All P (insert_by_expiry h hs)
  unfolding insert_by_expiry
  insert_by_expiry-All h [] p a = (p, tt)
  insert_by_expiry-All h (g ∷ gs) p a = elim (Bool-cases (leb h.expires_at g.expires_at)) [
    | inl e ↦ rw e (p, a)
    | inr e ↦ rw e (a.0, insert_by_expiry-All h gs p a.1)
  ]

  sort_by_expiry-All : (hs : List Hold) → All P hs → All P (sort_by_expiry hs)
  unfolding sort_by_expiry
  sort_by_expiry-All [] a = tt
  sort_by_expiry-All (h ∷ hs) a =
      insert_by_expiry-All h (sort_by_expiry hs) a.0 (sort_by_expiry-All hs a.1)

  limit_to-All : (n : ℕ) (hs : List Hold) → All P hs → All P (limit_to n hs)
  unfolding limit_to
  limit_to-All zero hs a = tt
  limit_to-All (suc n) [] a = tt
  limit_to-All (suc n) (h ∷ hs) a = (a.0, limit_to-All n hs a.1)

pub is_due-All :
    (locked : ℕ → Bool) (now : ℕ) (hs : List Hold)
    → All (λ h. is_due locked now h ≡ true) (due locked now hs)
unfolding due
is_due-All locked now [] = tt
is_due-All locked now (h ∷ hs) = elim (Bool-cases (is_due locked now h)) [
  | inl e ↦ rw e (e, is_due-All locked now hs)
  | inr e ↦ rw e (is_due-All locked now hs)
]

length-limit_to : (n : ℕ) (hs : List Hold) → length (limit_to n hs) ≤ n
unfolding limit_to
length-limit_to zero hs = omega arith
length-limit_to (suc n) [] = omega arith
length-limit_to (suc n) (h ∷ hs) = omega (arith, length-limit_to n hs)

-- A row whose identity in the table is what the sweep has read, whatever its status now.
abbrev pub IsCurrent : List Hold → Hold → Type 0
IsCurrent hs row =
    (g : Hold) × (find_hold row.id hs ≡ some g)
    × (g.user_id ≡ row.user_id)
    × (g.estimated_amount ≡ row.estimated_amount)

find_hold-set_hold :
    (j i : ℕ) (st : Status) (actual : Option ℕ) (hs : List Hold) (g : Hold)
    → find_hold j hs ≡ some g
    → (k : Hold) × (find_hold j (set_hold i st actual hs) ≡ some k)
      × (k.user_id ≡ g.user_id)
      × (k.estimated_amount ≡ g.estimated_amount)
unfolding find_hold set_hold
find_hold-set_hold j i st actual [] g f = absurd (cc)
find_hold-set_hold j i st actual (h ∷ hs) g f = elim (Bool-cases (h.id == i)) [
  | inl e ↦ elim (Bool-cases (h.id == j)) [
    | inl d ↦
        (record h { status = st; actual_amount = actual }, ground arith, ground arith, ground arith)
    | inr d ↦ (g, ground arith, refl, refl)
  ]
  | inr e ↦ elim (Bool-cases (h.id == j)) [
    | inl d ↦ (g, ground arith, refl, refl)
    | inr d ↦
        let rest = find_hold-set_hold j i st actual hs g (ground arith) in
        (rest.0, ground arith, rest.2, rest.3)
  ]
]

pub IsCurrent-set_hold :
    (i : ℕ) (st : Status) (actual : Option ℕ) (hs rows : List Hold)
    → All (IsCurrent hs) rows
    → All (IsCurrent (set_hold i st actual hs)) rows
IsCurrent-set_hold i st actual hs [] a = tt
IsCurrent-set_hold i st actual hs (row ∷ rows) a =
    let (g, found, user, estimate) = a.0 in
    let (k, found', user', estimate') = find_hold-set_hold row.id i st actual hs g found in
    ((k, found', user' ∙ user, estimate' ∙ estimate), IsCurrent-set_hold i st actual hs rows a.1)

pub expire_hold_lem :
    (row : Hold) (db db1 : Db)
    → expire_hold row db ≡ ok db1
    → (may_change (find_hold row.id db.holds) ≡ true)
      × (db1.holds ≡ set_hold row.id expired none db.holds)
      × ((v : ℕ)
          → wallet_of v db1 ≡ (
              if row.user_id == v
              then record (wallet_of v db) {
                held_amount = (wallet_of v db).held_amount - row.estimated_amount;
              }
              else wallet_of v db))
      × ((v : ℕ) (c : Bucket) → ledger_sum v c db1.ledger ≡ ledger_sum v c db.ledger)
unfolding expire_hold to_hold update_hold unfreeze insert_entry ledger_sum
expire_hold_lem row db db1 h = (ground arith, ground arith, λ v. ground arith, λ v c. ground arith)

expire_hold-IsBalanced :
    (row : Hold) (db db1 : Db)
    → IsBalanced db
    → IsCurrent db.holds row
    → expire_hold row db ≡ ok db1
    → IsBalanced db1
expire_hold-IsBalanced row db db1 b (g, found, user, estimate) h =
    let (may, holds, wallets, sums) = expire_hold_lem row db db1 h in
    let here : find_hold g.id db.holds ≡ some g =
      ground (arith, find_hold-id row.id db.holds g found) in
    record {
      backs_held = λ v. ground (
        arith,
        b.backs_held v,
        wallets v,
        ap (held_sum v) holds,
        held_sum-set_hold v row.id expired none db.holds g found,
      );
      backs_principal = λ v. ground (arith, b.backs_principal v, wallets v, sums v principal);
      backs_bonus = λ v. ground (arith, b.backs_bonus v, wallets v, sums v bonus);
      is_keyed = rw holds (IsKeyed-set_hold row.id expired none db.holds b.is_keyed);
    }

expire_holds-IsBalanced :
    (rows : List Hold) (db db1 : Db)
    → IsBalanced db
    → All (IsCurrent db.holds) rows
    → expire_holds rows db ≡ ok db1
    → IsBalanced db1
unfolding expire_holds
expire_holds-IsBalanced [] db db1 b a h = subst IsBalanced (ground arith) b
expire_holds-IsBalanced (row ∷ rows) db db1 b a h =
    let (db2, first, rest) = >>=-eq-ok (expire_hold row db) _ h in
    let holds = (expire_hold_lem row db db2 first).1 in
    let still = rw (← holds) at (IsCurrent-set_hold row.id expired none db.holds rows a.1) in
    expire_holds-IsBalanced rows db2 db1 (expire_hold-IsBalanced row db db2 b a.0 first) still rest

IsCurrent-keyed :
    (hs gs : List Hold) → All (λ h. find_hold h.id hs ≡ some h) gs → All (IsCurrent hs) gs
IsCurrent-keyed hs [] a = tt
IsCurrent-keyed hs (g ∷ gs) a = ((g, a.0, refl, refl), IsCurrent-keyed hs gs a.1)

pub select_expired-All :
    (P : Hold → Type 0) (locked : ℕ → Bool) (limit : ℕ) (db : Db)
    → All P (due locked db.now db.holds)
    → All P (select_expired locked limit db)
unfolding select_expired
select_expired-All P locked limit db a = limit_to-All P limit _ (sort_by_expiry-All P _ a)

pub length-select_expired :
    (locked : ℕ → Bool) (limit : ℕ) (db : Db) → length (select_expired locked limit db) ≤ limit
unfolding select_expired
length-select_expired locked limit db = length-limit_to limit _

pub select_expired-IsCurrent :
    (locked : ℕ → Bool) (limit : ℕ) (db : Db)
    → IsKeyed db.holds
    → All (IsCurrent db.holds) (select_expired locked limit db)
select_expired-IsCurrent locked limit db keyed_holds =
    let keyed = IsCurrent-keyed db.holds db.holds (find_hold-IsKeyed db.holds keyed_holds) in
    select_expired-All (IsCurrent db.holds) locked limit db
      (due-All (IsCurrent db.holds) locked db.now db.holds keyed)

-- A sweep that succeeds keeps balanced books, whatever rows other transactions have locked.
pub sweep_expired_holds-IsBalanced :
    (locked : ℕ → Bool) (limit : ℕ) (db : Db) (r : ℕ × Db)
    → IsBalanced db
    → sweep_expired_holds locked limit db ≡ ok r
    → IsBalanced r.1
unfolding sweep_expired_holds
sweep_expired_holds-IsBalanced locked limit db r b h =
    let (db1, swept, last) = >>=-eq-ok (expire_holds (select_expired locked limit db) db) _ h in
    let current = select_expired-IsCurrent locked limit db b.is_keyed in
    let same : db1 ≡ r.1 = ground arith in
    subst IsBalanced same (expire_holds-IsBalanced _ db db1 b current swept)
