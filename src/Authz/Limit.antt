-- ===== src/Authz/Limit.antt =====
-- apps/authz/src/rate-limit.ts: the limits on one-time codes, with the script that Redis runs. Time is
-- in milliseconds. How Redis rounds a remaining time to seconds is an argument, `seconds`.
use combo.Prelude.{
  ltb, ◌==◌, if◌then◌else◌, ℕ, ◌+◌, ◌-◌, ◌*◌, Bool, true, false, not, ◌&&◌, ◌||◌, Option, none,
  some, List, [], ◌∷◌,
}
use combo.Prelude.Outcomes.{Outcome, err, ok}

pub data Operation : Type 0 where
  challenge verification : Operation

-- `name` of a rule.
pub data RuleName : Type 0 where
  client_hour target_cooldown target_hour client_window target_window : RuleName

pub record LimitRule : Type 0 where
  pub name : RuleName
  pub digest : ℕ
  pub limit : ℕ
  pub window_seconds : ℕ

-- `rulesFor`, the client's rule apart from those that follow it.
unfoldable pub rules_for : Operation → (target client : ℕ) → LimitRule × List LimitRule
rules_for challenge target client = (
  record { name = client_hour; digest = client; limit = 20; window_seconds = 3600 },
  record { name = target_cooldown; digest = target; limit = 1; window_seconds = 60 }
      ∷ record { name = target_hour; digest = target; limit = 5; window_seconds = 3600 }
      ∷ [],
)
rules_for verification target client = (
  record { name = client_window; digest = client; limit = 50; window_seconds = 600 },
  record { name = target_window; digest = target; limit = 10; window_seconds = 600 } ∷ [],
)

-- A key of Redis: the operation, the rule's name and its digest.
pub record Key : Type 0 where
  pub operation : Operation
  pub name : RuleName
  pub digest : ℕ

abbrev pub same_operation : Operation → Operation → Bool
same_operation challenge challenge = true
same_operation verification verification = true
same_operation _ _ = false

abbrev pub same_name : RuleName → RuleName → Bool
same_name client_hour client_hour = true
same_name target_cooldown target_cooldown = true
same_name target_hour target_hour = true
same_name client_window client_window = true
same_name target_window target_window = true
same_name _ _ = false

abbrev pub same_key : Key → Key → Bool
same_key a b =
    same_operation a.operation b.operation && (same_name a.name b.name && a.digest == b.digest)

abbrev pub key_of : Operation → LimitRule → Key
key_of operation rule = record { operation = operation; name = rule.name; digest = rule.digest }

-- A counter, and when it expires, if it does.
pub record Counter : Type 0 where
  pub count : ℕ
  pub expires_at : Option ℕ

abbrev pub Counters : Type 0
Counters = Key → Option Counter

abbrev pub is_live : ℕ → Counter → Bool
is_live now c = elim c.expires_at [ none ↦ true | some t ↦ ltb now t ]

-- What a command sees: an expired key is not there.
abbrev pub live : ℕ → Option Counter → Option Counter
live now none = none
live now (some c) = if is_live now c then some c else none

-- The expiry after EXPIRE where the count is 1 or the key has no expiry.
abbrev pub keep_expiry : (count expiry : ℕ) → Option ℕ → ℕ
keep_expiry count expiry none = expiry
keep_expiry count expiry (some t) = if count == 1 then expiry else t

abbrev pub increment : ℕ → Option Counter → Counter
increment expiry none = record { count = 1; expires_at = some expiry }
increment expiry (some c) = record {
  count = c.count + 1;
  expires_at = some (keep_expiry (c.count + 1) expiry c.expires_at);
}

-- INCR and EXPIRE: the counter that is left.
unfoldable pub bump : (window_seconds now : ℕ) → Option Counter → Counter
bump window_seconds now c = increment (now + window_seconds * 1000) (live now c)

abbrev pub set : Key → Counter → Counters → Counters
set k c counters = λ j. if same_key k j then some c else counters j

-- TTL of a key with an expiry.
abbrev pub ttl : (ℕ → ℕ) → ℕ → Counter → ℕ
ttl seconds now c = elim c.expires_at [ none ↦ 0 | some t ↦ seconds (t - now) ]

-- What the script answers: whether it is limited, and the seconds to wait.
pub record Answer : Type 0 where
  pub limited : Bool
  pub retry_after : ℕ

abbrev pub longer : ℕ → ℕ → ℕ
longer a b = if ltb a b then b else a

-- The answer after a key is counted.
unfoldable pub limit_answer : (ℕ → ℕ) → (now limit : ℕ) → Counter → Answer → Answer
limit_answer seconds now limit c answer =
    if ltb limit c.count
    then record { limited = true; retry_after = longer answer.retry_after (ttl seconds now c) }
    else answer

-- The loop over the keys after the client's.
unfoldable pub count_rules :
    (ℕ → ℕ) → ℕ → Operation → List LimitRule → Answer → Counters → Answer × Counters
count_rules seconds now operation [] answer counters = (answer, counters)
count_rules seconds now operation (rule ∷ rules) answer counters =
    let c = bump rule.window_seconds now (counters (key_of operation rule)) in
    count_rules seconds now operation rules (limit_answer seconds now rule.limit c answer)
      (set (key_of operation rule) c counters)

-- CONSUME_SCRIPT.
unfoldable pub consume_script :
    (ℕ → ℕ) → ℕ → Operation → (target client : ℕ) → Counters → Answer × Counters
consume_script seconds now operation target client counters =
    let (rule, rules) = rules_for operation target client in
    let c = bump rule.window_seconds now (counters (key_of operation rule)) in
    let counters1 = set (key_of operation rule) c counters in
    let rest =
      count_rules seconds now operation rules (record { limited = false; retry_after = 0 })
        counters1 in
    if ltb rule.limit c.count
    then (record { limited = true; retry_after = ttl seconds now c }, counters1)
    else rest

pub record OtpRateLimitResult : Type 0 where
  pub allowed : Bool
  pub retry_after_seconds : ℕ

pub data LimitFault : Type 0 where
  invalid_response : LimitFault

-- The check of the script's answer.
unfoldable pub read_answer : Answer → Outcome LimitFault OtpRateLimitResult
read_answer a =
    if (a.limited && a.retry_after == 0) || (not a.limited && not (a.retry_after == 0))
    then err invalid_response
    else ok (record { allowed = not a.limited; retry_after_seconds = a.retry_after })

-- `consume`: the counters are kept whether or not the answer is accepted.
unfoldable pub consume :
    (ℕ → ℕ)
    → ℕ
    → Operation
    → (target client : ℕ) → Counters
    → Outcome LimitFault OtpRateLimitResult × Counters
consume seconds now operation target client counters =
    let (answer, counters1) = consume_script seconds now operation target client counters in
    (read_answer answer, counters1)
