-- ===== src/Authz/Service.antt =====
-- apps/authz/src/service.ts. A secret digest is a number, what the mail provider answers is an
-- argument, and so is what the cache answers, `none` where it throws. `now` is the database's clock.
use combo.Prelude.{
  leb, ◌==◌, if◌then◌else◌, ℕ, Bool, not, ◌&&◌, Option, none, some, List, [], ◌∷◌, ◌++◌,
}
use combo.Prelude.Outcomes.{Outcome, err, ok}
use combo.Prelude.Texts.{Text}
use combo.Authz.Crypto.{is_otp_code, session_cookie, digest_session_cookie_value, normalize_email}
use combo.Authz.Challenge.{Challenge, StoreFault, replace_challenge, consume_challenge}
use combo.Authz.Store.{
  Db, ResolvedSession, find_or_create_email_user, insert_session, find_session, revoke,
}

pub data Delivery : Type 0 where
  delivered transient_failure configuration_failure permanent_rejection : Delivery

-- Node's crypto and URL functions, and the configuration.
pub record Deps : Type 0 where
  pub to_lower_case : Text → Text
  pub domain_to_ascii : Text → Option Text
  pub digest_email_target : Text → ℕ
  pub digest_email_code : ℕ → Text → ℕ
  pub sha256 : Text → ℕ
  pub secret_length : ℕ
  pub mailer : Option (Text → Text → Delivery)
  pub dev_otp_code : Option Text

abbrev pub secrets_ready : Deps → Bool
secrets_ready deps = leb 32 deps.secret_length

pub data Via : Type 0 where
  by_email uniform_rejection dev_code : Via

pub data RequestOtpResult : Type 0 where
  accepted : Via → RequestOtpResult
  invalid_request unavailable_request : RequestOtpResult

-- A stored code, or the fault of the store, with the database that is left.
unfoldable pub stored :
    Via → Outcome StoreFault (List Challenge) → Db → Outcome StoreFault RequestOtpResult × Db
stored via (err fault) db = (err fault, db)
stored via (ok cs) db = (ok (accepted via), record db { challenges = cs })

unfoldable pub after_delivery :
    Deps
    → (id now target : ℕ) → (code : Text) → Delivery
    → Db
    → Outcome StoreFault RequestOtpResult × Db
after_delivery deps i now target code transient_failure db = (ok unavailable_request, db)
after_delivery deps i now target code configuration_failure db = (ok unavailable_request, db)
after_delivery deps i now target code permanent_rejection db = (ok (accepted uniform_rejection), db)
after_delivery deps i now target code delivered db =
    stored by_email
      (replace_challenge i now target (deps.digest_email_code target code) db.challenges) db

unfoldable pub with_dev_code :
    Deps → (id now target : ℕ) → Option Text → Db → Outcome StoreFault RequestOtpResult × Db
with_dev_code deps i now target none db = (ok unavailable_request, db)
with_dev_code deps i now target (some code) db =
    if is_otp_code code
    then stored dev_code
        (replace_challenge i now target (deps.digest_email_code target code) db.challenges) db
    else (ok unavailable_request, db)

-- From `if (deps.mailer)`.
unfoldable pub issue_code :
    Deps
    → (id now : ℕ) → (code email : Text) → Option (Text → Text → Delivery)
    → Db
    → Outcome StoreFault RequestOtpResult × Db
issue_code deps i now code email (some send) db =
    after_delivery deps i now (deps.digest_email_target email) code (send email code) db
issue_code deps i now code email none db =
    with_dev_code deps i now (deps.digest_email_target email) deps.dev_otp_code db

-- `requestOtp`; `code` is what `generateOtpCode` gives.
unfoldable pub request_otp :
    Deps → (id now : ℕ) → (code email : Text) → Db → Outcome StoreFault RequestOtpResult × Db
request_otp deps i now code input db =
    elim (normalize_email deps.to_lower_case deps.domain_to_ascii input) [
      | none ↦ (ok invalid_request, db)
      | some email ↦
          if not (secrets_ready deps)
          then (ok unavailable_request, db)
          else issue_code deps i now code email deps.mailer db
    ]

pub data VerifyOtpResult : Type 0 where
  signed_in : (user_id : ℕ) → (session_cookie : Text) → VerifyOtpResult
  invalid_input invalid_code unavailable : VerifyOtpResult

-- The random text of a cookie, the new ids, and the other first login of the address that
-- commits meanwhile, if one does.
pub record Fresh : Type 0 where
  pub token : Text
  pub user_id : ℕ
  pub session_id : ℕ
  pub raced : Option ℕ

-- From `insertSession`.
unfoldable pub sign_in :
    Deps → Fresh → (now user_id : ℕ) → Db → Outcome StoreFault VerifyOtpResult × Db
sign_in deps fresh now u db =
    let cookie = session_cookie fresh.token in
    elim (digest_session_cookie_value deps.sha256 (some cookie)) [
      | none ↦ (ok unavailable, db)
      | some token ↦ elim (insert_session fresh.session_id now u token db) [
        | err fault ↦ (err fault, db)
        | ok (_, after) ↦ (ok (signed_in u cookie), after)
      ]
    ]

-- From `findOrCreateEmailUser`.
unfoldable pub with_user :
    Deps → Fresh → ℕ → Outcome StoreFault ℕ × Db → Outcome StoreFault VerifyOtpResult × Db
with_user deps fresh now (err fault, db) = (err fault, db)
with_user deps fresh now (ok u, db) = sign_in deps fresh now u db

-- From `consumeChallenge`.
unfoldable pub redeem :
    Deps → Fresh → ℕ → (email code : Text) → Db → Outcome StoreFault VerifyOtpResult × Db
redeem deps fresh now email code db =
    let target = deps.digest_email_target email in
    let (found, cs) =
      consume_challenge now target (deps.digest_email_code target code) db.challenges in
    let db1 = record db { challenges = cs } in
    if found
    then with_user deps fresh now (find_or_create_email_user fresh.user_id email fresh.raced db1)
    else (ok invalid_code, db1)

-- `verifyOtp`.
unfoldable pub verify_otp :
    Deps → Fresh → ℕ → (input code : Text) → Db → Outcome StoreFault VerifyOtpResult × Db
verify_otp deps fresh now input code db =
    elim (normalize_email deps.to_lower_case deps.domain_to_ascii input) [
      | none ↦ (ok invalid_input, db)
      | some email ↦
          if not (is_otp_code code)
          then (ok invalid_input, db)
          else if not (secrets_ready deps)
          then (ok unavailable, db)
          else redeem deps fresh now email code db
    ]

pub data CacheCommand : Type 0 where
  set_cached : ℕ → ResolvedSession → CacheCommand
  delete_cached : ℕ → CacheCommand

abbrev pub same_session : ResolvedSession → ResolvedSession → Bool
same_session a b =
    a.session_id == b.session_id && (a.user_id == b.user_id && a.expires_at == b.expires_at)

-- `cached && cached.expiresAt.getTime() <= Date.now()`, with the service's own clock.
unfoldable pub drop_expired : (clock token : ℕ) → Option ResolvedSession → List CacheCommand
drop_expired clock token none = []
drop_expired clock token (some c) = if leb c.expires_at clock then delete_cached token ∷ [] else []

-- What follows the answer of the store.
unfoldable pub refresh : ℕ → (cached found : Option ResolvedSession) → List CacheCommand
refresh token none none = []
refresh token (some c) none = delete_cached token ∷ []
refresh token none (some s) = set_cached token s ∷ []
refresh token (some c) (some s) = if same_session c s then [] else set_cached token s ∷ []

-- `resolveSession`, with the commands that it sends to the cache.
unfoldable pub resolve_session :
    Deps
    → (clock now : ℕ) → (cookie : Option Text) → (cached : ℕ → Option ResolvedSession) → Db
    → Option ResolvedSession × List CacheCommand
resolve_session deps clock now cookie cached db =
    elim (digest_session_cookie_value deps.sha256 cookie) [
      | none ↦ (none, [])
      | some token ↦
          let found = find_session now token db.sessions in
          (found, drop_expired clock token (cached token) ++ refresh token (cached token) found)
    ]

-- `logout`.
unfoldable pub logout : Deps → ℕ → Option Text → Db → Db × List CacheCommand
logout deps now cookie db = elim (digest_session_cookie_value deps.sha256 cookie) [
  | none ↦ (db, [])
  | some token ↦ (record db { sessions = revoke now token db.sessions }, delete_cached token ∷ [])
]
