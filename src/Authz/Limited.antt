-- ===== src/Authz/Limited.antt =====
-- What the routes of apps/authz/src/app.ts ask of the limiter, and how often it lets a verification tell.
use combo.Authz.Store.{Db}
use combo.Prelude.{
  ◌==◌, if◌then◌else◌, Bool-cases, Option-cases, All, ℕ, ◌+◌, ◌≤◌, ◌<◌, ◌≡◌, refl, subst, inl, inr,
  Bool, true, false, ◌&&◌, Option, none, some, List, [], ◌∷◌, arith,
}
use combo.Prelude.Outcomes.{Outcome, err, ok}
use combo.Authz.Service.{Deps}
use combo.Authz.Limit.{
  Operation, challenge, verification, target_window, rules_for, Key, same_operation, Counters,
  OtpRateLimitResult, LimitFault, consume,
}
use combo.Authz.Limits.{until}
use combo.Authz.Allowed.{uses_key, Attempt, is_allowed, allowed_count, IsDuring}
use combo.Authz.App.{
  HttpRequest, Arrival, Reply, reply, limited_reply, signed_reply, AppState, when_allowed,
  limiter_call, handle, serve,
}

-- Whether a reply tells that a code was right or wrong.
abbrev pub tells_code : Reply → Bool
tells_code (signed_reply _ _) = true
tells_code (limited_reply _) = false
tells_code (reply status) = status == 401

abbrev pub same_call : Option (Operation × ℕ) → Operation → ℕ → Bool
same_call none operation target = false
same_call (some (o, t)) operation target = same_operation o operation && t == target

-- The verifications that the limiter counts for a target and whose reply tells whether the code was
-- right.
unfoldable pub limited_count :
    Deps → (ℕ → ℕ) → (target : ℕ) → List (Arrival × HttpRequest) → AppState → ℕ
limited_count deps seconds target [] state = 0
limited_count deps seconds target ((arrival, request) ∷ rs) state =
    let (answer, after) = serve deps seconds arrival request state in
    (if same_call (limiter_call deps request) verification target && tells_code answer
      then 1
      else 0)
    + limited_count deps seconds target rs after

abbrev attempt_at : Arrival → Operation → ℕ → Attempt
attempt_at arrival o t = record {
  now = arrival.clock;
  operation = o;
  target = t;
  client = arrival.client;
}

-- The calls of the limiter.
unfoldable pub attempts_of : Deps → List (Arrival × HttpRequest) → List Attempt
attempts_of deps [] = []
attempts_of deps ((arrival, request) ∷ rs) =
    let rest = attempts_of deps rs in
    elim (limiter_call deps request) [ none ↦ rest | some (o, t) ↦ attempt_at arrival o t ∷ rest ]

abbrev pub target_key : ℕ → Key
target_key t = record { operation = verification; name = target_window; digest = t }

uses_target_key :
    (o : Operation) (t target client : ℕ)
    → (same_operation o verification && t == target) ≡ true
    → uses_key (target_key target) o t client ≡ true
unfolding rules_for
uses_target_key challenge t target client h = absurd cc
uses_target_key verification t target client h = ground (arith, h)

when_allowed-counters :
    (r : Outcome LimitFault OtpRateLimitResult × Counters) (db : Db) (f : Db → Reply × Db)
    → (when_allowed r db f).1.counters ≡ r.1
unfolding when_allowed
when_allowed-counters (err fault, counters) db f = refl
when_allowed-counters (ok r, counters) db f = elim (Bool-cases r.allowed) [
  | inl h ↦ rw h refl
  | inr h ↦ rw h refl
]

when_allowed-tells :
    (r : Outcome LimitFault OtpRateLimitResult × Counters) (db : Db) (f : Db → Reply × Db)
    → tells_code (when_allowed r db f).0 ≡ true
    → is_allowed r.0 ≡ true
unfolding when_allowed
when_allowed-tells (err fault, counters) db f h = absurd cc
when_allowed-tells (ok r, counters) db f h = elim (Bool-cases r.allowed) [
  | inl a ↦ a
  | inr a ↦ absurd (ground (arith, h, a))
]

-- A request that calls the limiter.
called_count :
    (deps : Deps) (seconds : ℕ → ℕ) (target : ℕ) (arrival : Arrival) (o : Operation) (t : ℕ)
    (request : HttpRequest) (state : AppState) (checked allowed : ℕ)
    → let r = consume seconds arrival.clock o t arrival.client state.counters in
      let (answer, after) = when_allowed r state.db (handle deps arrival.now request) in
      checked ≤ allowed
      → (if same_call (some (o, t)) verification target && tells_code answer then 1 else 0)
          + checked
        ≤ (if is_allowed r.0 && uses_key (target_key target) o t arrival.client then 1 else 0)
          + allowed
called_count deps seconds target arrival o t request state checked allowed more =
    let r = consume seconds arrival.clock o t arrival.client state.counters in
    let done = when_allowed r state.db (handle deps arrival.now request) in
    elim (Bool-cases (same_call (some (o, t)) verification target && tells_code done.0)) [
      | inr h ↦ rw h (ground (arith, more))
      | inl h ↦
          let tells : tells_code done.0 ≡ true = ground (arith, h) in
          let allowed1 = when_allowed-tells r state.db (handle deps arrival.now request) tells in
          let used = uses_target_key o t target arrival.client (ground (arith, h)) in
          rw (h, allowed1, used) (omega arith)
    ]

pub limited_count-allowed_count :
    (deps : Deps) (seconds : ℕ → ℕ) (target : ℕ) (rs : List (Arrival × HttpRequest))
    (state : AppState)
    → limited_count deps seconds target rs state
      ≤ allowed_count seconds (target_key target) (attempts_of deps rs) state.counters
unfolding limited_count allowed_count attempts_of serve
limited_count-allowed_count deps seconds target [] state = omega arith
limited_count-allowed_count deps seconds target ((arrival, request) ∷ rs) state =
    elim (Option-cases (limiter_call deps request)) [
      | inl h ↦
          let after = record state { db = (handle deps arrival.now request state.db).1 } in
          let rest = limited_count-allowed_count deps seconds target rs after in
          rw (h, serve, attempts_of) (omega arith)
      | inr ((o, t), h) ↦
          let r = consume seconds arrival.clock o t arrival.client state.counters in
          let after = (when_allowed r state.db (handle deps arrival.now request)).1 in
          let rest = limited_count-allowed_count deps seconds target rs after in
          let same = when_allowed-counters r state.db (handle deps arrival.now request) in
          let rest1 =
            subst
              (λ c.
                limited_count deps seconds target rs after
                ≤ allowed_count seconds (target_key target) (attempts_of deps rs) c)
              same rest in
          rw (h, serve, attempts_of)
            (called_count deps seconds target arrival o t request state
              (limited_count deps seconds target rs after)
              (allowed_count seconds (target_key target) (attempts_of deps rs) r.1) rest1)
    ]

abbrev pub ArrivesDuring : Key → ℕ → Arrival × HttpRequest → Type 0
ArrivesDuring k start r = (start ≤ r.0.clock) × (r.0.clock < until k start)

pub attempts_of-IsDuring :
    (deps : Deps) (k : Key) (start : ℕ) (rs : List (Arrival × HttpRequest))
    → All (ArrivesDuring k start) rs
    → All (IsDuring k start) (attempts_of deps rs)
unfolding attempts_of
attempts_of-IsDuring deps k start [] during = tt
attempts_of-IsDuring deps k start ((arrival, request) ∷ rs) (here, during) =
    let rest = attempts_of-IsDuring deps k start rs during in
    elim (Option-cases (limiter_call deps request)) [
      | inl h ↦ rw (h, attempts_of) rest
      | inr (call, h) ↦ rw (h, attempts_of) (here, rest)
    ]
