-- ===== src/Authz/Limits.antt =====
-- How many requests the limits of apps/authz/src/rate-limit.ts let through.
use combo.Prelude.{
  ltb, ◌==◌, Bool-cases, All, ℕ, suc, ◌+◌, ◌*◌, ◌≤◌, ◌<◌, ◌≡◌, refl, sym, ap, ◌∙◌, subst, ◌⊎◌, inl,
  inr, true, false, Option, none, some, arith,
}
use combo.Authz.Limit.{
  Operation, challenge, verification, RuleName, client_hour, target_cooldown, target_hour,
  client_window, target_window, LimitRule, rules_for, Key, same_operation, same_name, same_key,
  key_of, Counter, Counters, bump, set,
}

-- The limit and the window of each name.
unfoldable pub limit_of : RuleName → ℕ
limit_of client_hour = 20
limit_of target_cooldown = 1
limit_of target_hour = 5
limit_of client_window = 50
limit_of target_window = 10

unfoldable pub window_of : RuleName → ℕ
window_of client_hour = 3600
window_of target_cooldown = 60
window_of target_hour = 3600
window_of client_window = 600
window_of target_window = 600

same_name_eq : (a b : RuleName) → same_name a b ≡ true → a ≡ b
same_name_eq client_hour client_hour e = refl
same_name_eq target_cooldown target_cooldown e = refl
same_name_eq target_hour target_hour e = refl
same_name_eq client_window client_window e = refl
same_name_eq target_window target_window e = refl
same_name_eq _ _ e = absurd cc

-- A rule with the limit and the window of its name.
abbrev pub IsStandard : LimitRule → Type 0
IsStandard rule = (rule.limit ≡ limit_of rule.name) × (rule.window_seconds ≡ window_of rule.name)

pub rules_for-IsStandard :
    (operation : Operation) (target client : ℕ)
    → IsStandard (rules_for operation target client).0
      × All IsStandard (rules_for operation target client).1
unfolding rules_for limit_of window_of
rules_for-IsStandard challenge target client = ((refl, refl), ((refl, refl), ((refl, refl), tt)))
rules_for-IsStandard verification target client = ((refl, refl), ((refl, refl), tt))

abbrev count_in : Option Counter → ℕ
count_in none = 0
count_in (some c) = c.count

abbrev pub counter : (count expires_at : ℕ) → Counter
counter m e = record { count = m; expires_at = some e }

pub bump_live :
    (w now m e : ℕ) → ltb now e ≡ true → 1 ≤ m → bump w now (some (counter m e)) ≡ counter (m + 1) e
unfolding bump
bump_live w now m e alive one =
    let more : (m + 1 == 1) ≡ false = ground arith in rw (alive, more) refl

bump_expired :
    (w now m e : ℕ)
    → ltb now e ≡ false
    → bump w now (some (counter m e)) ≡ counter 1 (now + w * 1000)
unfolding bump
bump_expired w now m e dead = rw dead refl

same_operation_eq : (a b : Operation) → same_operation a b ≡ true → a ≡ b
same_operation_eq challenge challenge e = refl
same_operation_eq verification verification e = refl
same_operation_eq _ _ e = absurd cc

abbrev key : Operation → RuleName → ℕ → Key
key operation name digest = record { operation = operation; name = name; digest = digest }

same_key_eq : (a b : Key) → same_key a b ≡ true → a ≡ b
same_key_eq a b e =
    let operation = same_operation_eq a.operation b.operation (ground arith) in
    let name = same_name_eq a.name b.name (ground arith) in
    let digest : a.digest ≡ b.digest = ground arith in
    ap (λ x. key x a.name a.digest) operation
    ∙ ap (λ x. key b.operation x a.digest) name
    ∙ ap (key b.operation b.name) digest

-- One key, from a time at which it has no live counter.
module _ (k : Key) (start : ℕ) where
  abbrev pub until : ℕ
  until = start + window_of k.name * 1000

  -- A counter of at least `n`, that lives until the window ends.
  abbrev pub Counted : ℕ → Option Counter → Type 0
  Counted n c =
      (m : ℕ) × (e : ℕ) × (c ≡ some (record { count = m; expires_at = some e }))
      × (until ≤ e)
      × (n ≤ m)
      × (1 ≤ m)

  abbrev pub IsDead : Option Counter → Type 0
  IsDead c =
      (c ≡ none)
      ⊎ ((m : ℕ) × (e : ℕ) × (c ≡ some (record { count = m; expires_at = some e })) × (e ≤ start))

  abbrev pub Allows : ℕ → Option Counter → Type 0
  Allows n c = ((n ≡ 0) × IsDead c) ⊎ Counted n c

  bump-Counted :
      (n now : ℕ) (c : Option Counter)
      → start ≤ now
      → now < until
      → Allows n c
      → Counted (suc n) (some (bump (window_of k.name) now c))
  unfolding bump
  bump-Counted n now c after before (inl (unused, inl gone)) =
      rw gone (1, now + window_of k.name * 1000, refl, omega arith, omega arith, omega arith)
  bump-Counted n now c after before (inl (unused, inr (m, e, gone, expired))) = (
    1,
    now + window_of k.name * 1000,
    ap (λ x. some (bump (window_of k.name) now x)) gone
        ∙ ap some (bump_expired (window_of k.name) now m e (ground arith)),
    omega arith,
    omega arith,
    omega arith,
  )
  bump-Counted n now c after before (inr (m, e, here, alive, enough, one)) = (
    m + 1,
    e,
    ap (λ x. some (bump (window_of k.name) now x)) here
        ∙ ap some (bump_live (window_of k.name) now m e (ground arith) one),
    alive,
    omega arith,
    omega arith,
  )

  weaker : (n : ℕ) (c : Option Counter) → Counted (suc n) c → Allows n c
  weaker n c (m, e, here, alive, enough, one) = inr (m, e, here, alive, omega arith, one)

  rule_bump-Counted :
      (n now : ℕ) (operation : Operation) (rule : LimitRule) (counters : Counters)
      → start ≤ now
      → now < until
      → IsStandard rule
      → key_of operation rule ≡ k
      → Allows n (counters k)
      → Counted (suc n) (some (bump rule.window_seconds now (counters (key_of operation rule))))
  rule_bump-Counted n now operation rule counters after before (_, window) same allows =
      let window1 = window ∙ ap (λ x. window_of x.name) same in
      subst (λ c. Counted (suc n) (some (bump rule.window_seconds now c))) (sym (ap counters same))
        (subst (λ w. Counted (suc n) (some (bump w now (counters k)))) (sym window1)
          (bump-Counted n now (counters k) after before allows))

  -- Counting one rule: the key's counter stays, or it counts one more.
  abbrev pub counted_rule : ℕ → Operation → LimitRule → Counters → Counters
  counted_rule now operation rule counters =
      set (key_of operation rule) (bump rule.window_seconds now (counters (key_of operation rule)))
        counters

  pub counted_rule-Allows :
      (n now : ℕ) (operation : Operation) (rule : LimitRule) (counters : Counters)
      → start ≤ now
      → now < until
      → IsStandard rule
      → Allows n (counters k)
      → Allows n (counted_rule now operation rule counters k)
  counted_rule-Allows n now operation rule counters after before standard allows =
      elim (Bool-cases (same_key (key_of operation rule) k)) [
        | inl h ↦
            let counted =
              rule_bump-Counted n now operation rule counters after before standard
                (same_key_eq (key_of operation rule) k h) allows in
            let old = weaker n _ counted in rw h old
        | inr h ↦ rw h allows
      ]

  -- Counting the key's own rule below its limit.
  pub counted_rule-Counted :
      (n now : ℕ) (operation : Operation) (rule : LimitRule) (counters : Counters)
      → start ≤ now
      → now < until
      → IsStandard rule
      → same_key (key_of operation rule) k ≡ true
      → Allows n (counters k)
      → ltb rule.limit (bump rule.window_seconds now (counters (key_of operation rule))).count
        ≡ false
      → (suc n ≤ limit_of k.name) × Allows (suc n) (counted_rule now operation rule counters k)
  counted_rule-Counted n now operation rule counters after before standard h allows below =
      let same = same_key_eq (key_of operation rule) k h in
      let (m, e, here, alive, enough, one) =
        rule_bump-Counted n now operation rule counters after before standard same allows in
      let count : (bump rule.window_seconds now (counters (key_of operation rule))).count ≡ m =
        ap count_in here in
      let limit = standard.0 ∙ ap (λ x. limit_of x.name) same in
      (ground (arith, limit, count, below), rw h (inr (m, e, here, alive, enough, one)))
