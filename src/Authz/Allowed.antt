-- ===== src/Authz/Allowed.antt =====
-- The requests that apps/authz/src/rate-limit.ts lets through, in any order of operations, targets and
-- clients.
use combo.Prelude.{
  ltb, ◌==◌, if◌then◌else◌, Bool-cases, All, ℕ, suc, ◌+◌, ◌-◌, ◌≤◌, ◌<◌, ◌≡◌, refl, ap, ◌∙◌, ◌⊎◌,
  inl, inr, Bool, true, false, ◌&&◌, ◌||◌, some, List, [], ◌∷◌, arith,
}
use combo.Prelude.Outcomes.{Outcome, err, ok}
use combo.Authz.Limit.{
  Operation, LimitRule, rules_for, Key, same_key, key_of, Counter, Counters, bump, ttl, Answer,
  limit_answer, count_rules, consume_script, OtpRateLimitResult, LimitFault, invalid_response,
  read_answer, consume,
}
use combo.Authz.Limits.{
  limit_of, IsStandard, rules_for-IsStandard, counter, bump_live, until, IsDead, Allows,
  counted_rule, counted_rule-Allows, counted_rule-Counted,
}

abbrev pub has_key : Key → Operation → List LimitRule → Bool
has_key k operation [] = false
has_key k operation (rule ∷ rules) = same_key (key_of operation rule) k || has_key k operation rules

-- Whether a request counts at a key.
abbrev pub uses_key : Key → Operation → (target client : ℕ) → Bool
uses_key k operation target client =
    let (rule, rules) = rules_for operation target client in has_key k operation (rule ∷ rules)

limit_answer-limited :
    (seconds : ℕ → ℕ) (now limit : ℕ) (c : Counter) (answer : Answer)
    → (ltb limit c.count ≡ true) ⊎ (answer.limited ≡ true)
    → (limit_answer seconds now limit c answer).limited ≡ true
unfolding limit_answer
limit_answer-limited seconds now limit c answer over = elim (Bool-cases (ltb limit c.count)) [
  | inl l ↦ rw l refl
  | inr l ↦ elim over [ inl h ↦ absurd (ground (arith, h, l)) | inr h ↦ rw l h ]
]

count_rules-limited :
    (seconds : ℕ → ℕ) (now : ℕ) (operation : Operation) (rules : List LimitRule) (answer : Answer)
    (counters : Counters)
    → answer.limited ≡ true
    → (count_rules seconds now operation rules answer counters).0.limited ≡ true
unfolding count_rules
count_rules-limited seconds now operation [] answer counters h = h
count_rules-limited seconds now operation (rule ∷ rules) answer counters h =
    let c = bump rule.window_seconds now (counters (key_of operation rule)) in
    count_rules-limited seconds now operation rules _ _
      (limit_answer-limited seconds now rule.limit c answer (inr h))

module _ (k : Key) (start : ℕ) (seconds : ℕ → ℕ) (now : ℕ) (after : start ≤ now)
    (before : now < until k start) (operation : Operation) where
  count_rules-Allows :
      (n : ℕ) (rules : List LimitRule) (answer : Answer) (counters : Counters)
      → All IsStandard rules
      → Allows k start n (counters k)
      → Allows k start n ((count_rules seconds now operation rules answer counters).1 k)
  unfolding count_rules
  count_rules-Allows n [] answer counters all a = a
  count_rules-Allows n (rule ∷ rules) answer counters (standard, all) a =
      count_rules-Allows n rules _ (counted_rule k start now operation rule counters) all
        (counted_rule-Allows k start n now operation rule counters after before standard a)

  count_rules-Counted :
      (n : ℕ) (rules : List LimitRule) (answer : Answer) (counters : Counters)
      → All IsStandard rules
      → has_key k operation rules ≡ true
      → (count_rules seconds now operation rules answer counters).0.limited ≡ false
      → Allows k start n (counters k)
      → (suc n ≤ limit_of k.name)
        × Allows k start (suc n) ((count_rules seconds now operation rules answer counters).1 k)
  unfolding count_rules
  count_rules-Counted n [] answer counters all has open_ a = absurd (ground (arith, has))
  count_rules-Counted n (rule ∷ rules) answer counters (standard, all) has passed a =
      let counters1 = counted_rule k start now operation rule counters in
      let c = bump rule.window_seconds now (counters (key_of operation rule)) in
      elim (Bool-cases (same_key (key_of operation rule) k)) [
        | inl h ↦ elim (Bool-cases (ltb rule.limit c.count)) [
          | inl l ↦
              let over =
                count_rules-limited seconds now operation rules
                  (limit_answer seconds now rule.limit c answer) counters1
                  (limit_answer-limited seconds now rule.limit c answer (inl l)) in
              absurd (ground (arith, over, passed))
          | inr l ↦
              let (fits, a1) =
                counted_rule-Counted k start n now operation rule counters after before standard h a
                  l in
              (fits, count_rules-Allows (suc n) rules _ counters1 all a1)
        ]
        | inr h ↦
            count_rules-Counted n rules _ counters1 all (ground (arith, has, h)) passed
              (counted_rule-Allows k start n now operation rule counters after before standard a)
      ]

-- A request, at a time in milliseconds.
pub record Attempt : Type 0 where
  pub now : ℕ
  pub operation : Operation
  pub target : ℕ
  pub client : ℕ

abbrev pub is_allowed : Outcome LimitFault OtpRateLimitResult → Bool
is_allowed (err _) = false
is_allowed (ok r) = r.allowed

-- How many of the requests at a key are let through.
unfoldable pub allowed_count : (ℕ → ℕ) → Key → List Attempt → Counters → ℕ
allowed_count seconds k [] counters = 0
allowed_count seconds k (a ∷ xs) counters =
    let (answer, counters1) = consume seconds a.now a.operation a.target a.client counters in
    (if is_allowed answer && uses_key k a.operation a.target a.client then 1 else 0)
    + allowed_count seconds k xs counters1

read_answer_allowed : (a : Answer) → is_allowed (read_answer a) ≡ true → a.limited ≡ false
unfolding read_answer
read_answer_allowed a h = elim (Bool-cases a.limited) [
  | inl t ↦ absurd (ground (arith, h, t))
  | inr f ↦ f
]

consume-Counted :
    (k : Key) (start : ℕ) (seconds : ℕ → ℕ) (a : Attempt) (n : ℕ) (counters : Counters)
    → start ≤ a.now
    → a.now < until k start
    → Allows k start n (counters k)
    → let r = consume seconds a.now a.operation a.target a.client counters in
      (((is_allowed r.0 && uses_key k a.operation a.target a.client) ≡ true)
        → (suc n ≤ limit_of k.name) × Allows k start (suc n) (r.1 k))
      × Allows k start n (r.1 k)
unfolding consume consume_script
consume-Counted k start seconds a n counters after before allows =
    let (rule, rules) = rules_for a.operation a.target a.client in
    let (standard, all) = rules_for-IsStandard a.operation a.target a.client in
    let c = bump rule.window_seconds a.now (counters (key_of a.operation rule)) in
    let counters1 = counted_rule k start a.now a.operation rule counters in
    let kept =
      counted_rule-Allows k start n a.now a.operation rule counters after before standard allows in
    elim (Bool-cases (ltb rule.limit c.count)) [
      | inl l ↦ rw l (
        λ q.
            let open_ =
              read_answer_allowed (record { limited = true; retry_after = ttl seconds a.now c })
                (ground (arith, q)) in
            absurd cc,
        kept,
      )
      | inr l ↦
          let idle : Answer = record { limited = false; retry_after = 0 } in
          let answer = (count_rules seconds a.now a.operation rules idle counters1).0 in
          rw l (
            λ q.
                let passed = read_answer_allowed answer (ground (arith, q)) in
                elim (Bool-cases (same_key (key_of a.operation rule) k)) [
                  | inl h ↦
                      let (fits, more) =
                        counted_rule-Counted k start n a.now a.operation rule counters after before
                          standard h allows l in
                      (
                        fits,
                        count_rules-Allows k start seconds a.now after before a.operation (suc n)
                            rules idle counters1 all more,
                      )
                  | inr h ↦
                      count_rules-Counted k start seconds a.now after before a.operation n rules
                        idle counters1 all (ground (arith, q, h)) passed kept
                ],
            count_rules-Allows k start seconds a.now after before a.operation n rules idle counters1
                all kept,
          )
    ]

abbrev pub IsDuring : Key → ℕ → Attempt → Type 0
IsDuring k start a = (start ≤ a.now) × (a.now < until k start)

allowed_count_more :
    (k : Key) (start : ℕ) (seconds : ℕ → ℕ) (xs : List Attempt) (n : ℕ) (counters : Counters)
    → n ≤ limit_of k.name
    → All (IsDuring k start) xs
    → Allows k start n (counters k)
    → n + allowed_count seconds k xs counters ≤ limit_of k.name
unfolding allowed_count
allowed_count_more k start seconds [] n counters fits during allows = omega arith
allowed_count_more k start seconds (a ∷ xs) n counters fits ((after, before), during) allows =
    let (more, kept) = consume-Counted k start seconds a n counters after before allows in
    let r = consume seconds a.now a.operation a.target a.client counters in
    elim (Bool-cases (is_allowed r.0 && uses_key k a.operation a.target a.client)) [
      | inl h ↦
          let (fits1, counted) = more h in
          let rest = allowed_count_more k start seconds xs (suc n) r.1 fits1 during counted in
          rw h (omega arith)
      | inr h ↦
          let rest = allowed_count_more k start seconds xs n r.1 fits during kept in
          rw h (omega arith)
    ]

-- Among any requests within one window of a key, from a time at which the key is absent or has
-- expired, at most the key's limit are let through, whatever other operations, targets and clients
-- come between and however Redis rounds a remaining time.
pub allowed_count_limit :
    (k : Key) (start : ℕ) (seconds : ℕ → ℕ) (xs : List Attempt) (counters : Counters)
    → IsDead k start (counters k)
    → All (IsDuring k start) xs
    → allowed_count seconds k xs counters ≤ limit_of k.name
allowed_count_limit k start seconds xs counters dead during =
    let bound =
      allowed_count_more k start seconds xs 0 counters (omega arith) during (inl (refl, dead)) in
    omega arith

abbrev pub client_rule : Attempt → LimitRule
client_rule a = (rules_for a.operation a.target a.client).0

-- A request of a client that is over its limit is refused with the seconds to wait, and it is an error
-- where Redis rounds these to none.
pub consume_over_limit :
    (seconds : ℕ → ℕ) (a : Attempt) (m e : ℕ) (counters : Counters)
    → counters (key_of a.operation (client_rule a)) ≡ some (counter m e)
    → a.now < e
    → (client_rule a).limit ≤ m
    → 1 ≤ m
    → (consume seconds a.now a.operation a.target a.client counters).0 ≡ (
        if seconds (e - a.now) == 0
        then err invalid_response
        else ok (record { allowed = false; retry_after_seconds = seconds (e - a.now) }))
unfolding consume consume_script read_answer
consume_over_limit seconds a m e counters here alive over one =
    let rule = client_rule a in
    let bumped : bump rule.window_seconds a.now (counters (key_of a.operation rule))
        ≡ counter (m + 1) e =
      ap (bump rule.window_seconds a.now) here
      ∙ bump_live rule.window_seconds a.now m e (ground arith) one in
    let more : ltb rule.limit (m + 1) ≡ true = ground arith in
    rw (bumped, more)
      (elim (Bool-cases (seconds (e - a.now) == 0)) [ inl z ↦ rw z refl | inr z ↦ rw z refl ])
