-- ===== src/Authz/Checks.antt =====
-- How many codes the routes of apps/authz/src/app.ts check for one target.
use combo.Authz.Crypto.{normalize_email}
use combo.Prelude.{
  ◌==◌, if◌then◌else◌, Bool-cases, Option-cases, All, ℕ, ◌+◌, ◌≤◌, ◌≡◌, inl, inr, Bool, true, false,
  ◌&&◌, Option, none, some, List, [], ◌∷◌, arith,
}
use combo.Authz.Service.{Deps}
use combo.Authz.Limit.{verification}
use combo.Authz.Limits.{limit_of, IsDead}
use combo.Authz.Allowed.{allowed_count_limit}
use combo.Authz.App.{
  HttpRequest, post_challenge, post_verification, post_logout, Arrival, AppState, verification_body,
  limiter_call, serve,
}
use combo.Authz.Limited.{
  tells_code, same_call, limited_count, attempts_of, target_key, limited_count-allowed_count,
  ArrivesDuring, attempts_of-IsDuring,
}

-- The target under which `verifyOtp` looks for the code of a verification: that of the normal form of
-- the address that the route hands over.
abbrev pub checked_target : Deps → HttpRequest → Option ℕ
checked_target deps (post_verification body fresh) = elim (verification_body deps body) [
  | none ↦ none
  | some (email, code) ↦ elim (normalize_email deps.to_lower_case deps.domain_to_ascii email) [
    | none ↦ none
    | some e ↦ some (deps.digest_email_target e)
  ]
]
checked_target deps (post_challenge body i code) = none
checked_target deps (post_logout is_empty_body cookie) = none

-- The normal form of the address of a verification is its own normal form.
abbrev pub IsFixed : Deps → HttpRequest → Type 0
IsFixed deps (post_verification body fresh) = elim (verification_body deps body) [
  | none ↦ Unit
  | some (email, code) ↦ normalize_email deps.to_lower_case deps.domain_to_ascii email ≡ some email
]
IsFixed deps (post_challenge body i code) = Unit
IsFixed deps (post_logout is_empty_body cookie) = Unit

abbrev pub same_target : Option ℕ → ℕ → Bool
same_target none target = false
same_target (some t) target = t == target

-- The verifications that look for a code of the target and whose reply tells whether it was right.
unfoldable pub checked_count :
    Deps → (ℕ → ℕ) → (target : ℕ) → List (Arrival × HttpRequest) → AppState → ℕ
checked_count deps seconds target [] state = 0
checked_count deps seconds target ((arrival, request) ∷ rs) state =
    let (answer, after) = serve deps seconds arrival request state in
    (if same_target (checked_target deps request) target && tells_code answer then 1 else 0)
    + checked_count deps seconds target rs after

-- The limiter is asked about the target whose code is checked.
checked_call :
    (deps : Deps) (request : HttpRequest) (target : ℕ)
    → IsFixed deps request
    → same_target (checked_target deps request) target ≡ true
    → same_call (limiter_call deps request) verification target ≡ true
unfolding limiter_call
checked_call deps (post_challenge body i code) target fixed h = absurd cc
checked_call deps (post_logout is_empty_body cookie) target fixed h = absurd cc
checked_call deps (post_verification body fresh) target fixed h =
    elim (Option-cases (verification_body deps body)) [
      | inl e ↦ absurd (ground (arith, e, h))
      | inr ((email, code), e) ↦
          let normal : normalize_email deps.to_lower_case deps.domain_to_ascii email ≡ some email =
            ground (arith, e, fixed) in
          ground (arith, e, normal, h)
    ]

checked_count-limited_count :
    (deps : Deps) (seconds : ℕ → ℕ) (target : ℕ) (rs : List (Arrival × HttpRequest))
    (state : AppState)
    → All (λ r. IsFixed deps r.1) rs
    → checked_count deps seconds target rs state ≤ limited_count deps seconds target rs state
unfolding checked_count limited_count
checked_count-limited_count deps seconds target [] state fixed = omega arith
checked_count-limited_count deps seconds target ((arrival, request) ∷ rs) state (here, fixed) =
    let done = serve deps seconds arrival request state in
    let rest = checked_count-limited_count deps seconds target rs done.1 fixed in
    elim (Bool-cases (same_target (checked_target deps request) target)) [
      | inl h ↦
          let called = checked_call deps request target here h in
          rw (h, called) (omega (arith, rest))
      | inr h ↦ rw h (omega (arith, rest))
    ]

-- Among requests to all routes within ten minutes, from a time at which the target has no live count of
-- verifications, at most ten verifications that look for a code of the target tell whether it was
-- right, where the normal form of each address is its own normal form.
pub checked_count_limit :
    (deps : Deps) (seconds : ℕ → ℕ) (target start : ℕ) (rs : List (Arrival × HttpRequest))
    (state : AppState)
    → IsDead (target_key target) start (state.counters (target_key target))
    → All (ArrivesDuring (target_key target) start) rs
    → All (λ r. IsFixed deps r.1) rs
    → checked_count deps seconds target rs state ≤ 10
unfolding limit_of
checked_count_limit deps seconds target start rs state dead during fixed =
    let limit =
      allowed_count_limit (target_key target) start seconds (attempts_of deps rs) state.counters
        dead (attempts_of-IsDuring deps (target_key target) start rs during) in
    let fewer = limited_count-allowed_count deps seconds target rs state in
    let counted = checked_count-limited_count deps seconds target rs state fixed in omega arith
