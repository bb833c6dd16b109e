-- ===== src/Authz/App.antt =====
-- The routes of apps/authz/src/app.ts that request a code, check one and log out. The digest of the
-- client's address, both clocks and what a sign-in needs of random values come with the request.
use combo.Prelude.{leb, if◌then◌else◌, length, ℕ, Bool, not, ◌&&◌, Option, none, some}
use combo.Prelude.Outcomes.{Outcome, err, ok}
use combo.Prelude.Texts.{Text}
use combo.Authz.Crypto.{is_otp_code, normalize_email}
use combo.Authz.Challenge.{StoreFault}
use combo.Authz.Store.{Db}
use combo.Authz.Service.{
  Deps, RequestOtpResult, accepted, invalid_request, unavailable_request, request_otp,
  VerifyOtpResult, signed_in, invalid_input, invalid_code, unavailable, Fresh, verify_otp, logout,
}
use combo.Authz.Limit.{
  Operation, challenge, verification, Counters, OtpRateLimitResult, LimitFault, consume,
}

-- A body that is an object with text fields and no others; `none` for any other body.
pub data HttpRequest : Type 0 where
  post_challenge : (body : Option Text) → (id : ℕ) → (code : Text) → HttpRequest
  post_verification : (body : Option (Text × Text)) → Fresh → HttpRequest
  post_logout : (is_empty_body : Bool) → (cookie : Option Text) → HttpRequest

-- When and from where; `clock` is that of Redis in milliseconds, `now` that of the database.
pub record Arrival : Type 0 where
  pub clock : ℕ
  pub now : ℕ
  pub client : ℕ

pub data Reply : Type 0 where
  reply : (status : ℕ) → Reply
  limited_reply : (retry_after : ℕ) → Reply
  signed_reply : (user_id : ℕ) → (session_cookie : Text) → Reply

pub record AppState : Type 0 where
  pub counters : Counters
  pub db : Db

-- z.string().min(3).max(254).
abbrev pub is_email_field : Text → Bool
is_email_field t = leb 3 (length t) && leb (length t) 254

-- `normalizeEmail` on the body's address, where the schema accepts it.
unfoldable pub body_email : Deps → Text → Option Text
body_email deps t =
    if is_email_field t then normalize_email deps.to_lower_case deps.domain_to_ascii t else none

abbrev pub challenge_email : Deps → Option Text → Option Text
challenge_email deps none = none
challenge_email deps (some t) = body_email deps t

-- The address and the code of a verification.
abbrev pub verification_body : Deps → Option (Text × Text) → Option (Text × Text)
verification_body deps none = none
verification_body deps (some (t, code)) =
    let email = body_email deps t in
    if is_otp_code code then elim email [ none ↦ none | some e ↦ some (e, code) ] else none

unfoldable pub challenge_status : Outcome StoreFault RequestOtpResult → ℕ
challenge_status (err _) = 503
challenge_status (ok (accepted _)) = 202
challenge_status (ok invalid_request) = 400
challenge_status (ok unavailable_request) = 503

unfoldable pub verification_reply : Outcome StoreFault VerifyOtpResult → Reply
verification_reply (err _) = reply 503
verification_reply (ok (signed_in u cookie)) = signed_reply u cookie
verification_reply (ok invalid_input) = reply 400
verification_reply (ok invalid_code) = reply 401
verification_reply (ok unavailable) = reply 503

-- What follows the answer of the limiter.
unfoldable pub when_allowed :
    Outcome LimitFault OtpRateLimitResult × Counters → Db → (Db → Reply × Db) → Reply × AppState
when_allowed (err _, counters) db handle = (reply 503, record { counters = counters; db = db })
when_allowed (ok r, counters) db handle =
    let (answer, after) = handle db in
    if not r.allowed
    then (limited_reply r.retry_after_seconds, record { counters = counters; db = db })
    else (answer, record { counters = counters; db = after })

-- The call of the limiter that a request makes: the operation and the target.
unfoldable pub limiter_call : Deps → HttpRequest → Option (Operation × ℕ)
limiter_call deps (post_challenge body i code) = elim (challenge_email deps body) [
  | none ↦ none
  | some email ↦ some (challenge, deps.digest_email_target email)
]
limiter_call deps (post_verification body fresh) = elim (verification_body deps body) [
  | none ↦ none
  | some (email, code) ↦ some (verification, deps.digest_email_target email)
]
limiter_call deps (post_logout is_empty_body cookie) = none

-- The rest of a handler.
unfoldable pub handle : Deps → ℕ → HttpRequest → Db → Reply × Db
handle deps now (post_challenge body i code) db = elim (challenge_email deps body) [
  | none ↦ (reply 400, db)
  | some email ↦
      let (result, after) = request_otp deps i now code email db in
      (reply (challenge_status result), after)
]
handle deps now (post_verification body fresh) db = elim (verification_body deps body) [
  | none ↦ (reply 400, db)
  | some (email, code) ↦
      let (result, after) = verify_otp deps fresh now email code db in
      (verification_reply result, after)
]
handle deps now (post_logout is_empty_body cookie) db =
    let (after, _) = logout deps now cookie db in
    if is_empty_body then (reply 200, after) else (reply 400, db)

-- A route.
unfoldable pub serve : Deps → (ℕ → ℕ) → Arrival → HttpRequest → AppState → Reply × AppState
serve deps seconds arrival request state = elim (limiter_call deps request) [
  | none ↦
      let (answer, after) = handle deps arrival.now request state.db in
      (answer, record state { db = after })
  | some (operation, target) ↦
      when_allowed (consume seconds arrival.clock operation target arrival.client state.counters)
        state.db (handle deps arrival.now request)
]
