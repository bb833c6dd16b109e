-- ===== src/Authz/Login.antt =====
-- What `verifyOtp` of apps/authz/src/service.ts has checked and done when it signs a user in.
use combo.Authz.Steps.{find_or_create_email_user-same, with_user-SignInStep}
use combo.Prelude.{
  ==_refl, Bool-cases, Option-cases, ℕ, ◌+◌, ◌<◌, ◌≡◌, refl, sym, ap, ◌∙◌, subst, inl, inr, true,
  Option, some, List, ◌∷◌, arith,
}
use combo.Prelude.Outcomes.{Outcome, err, ok}
use combo.Prelude.Texts.{Text}
use combo.Authz.Crypto.{digest_session_cookie_value, normalize_email}
use combo.Authz.Challenge.{StoreFault, consume_challenge}
use combo.Authz.Store.{
  Session, Db, ResolvedSession, to_session, find_identity, find_or_create_email_user,
  session_ttl_seconds, new_session, find_session,
}
use combo.Authz.Service.{
  Deps, signed_in, Fresh, sign_in, with_user, redeem, verify_otp, resolve_session,
}
use combo.Authz.SignIn.{find_or_create_email_user-identity, sign_in_row}

find_session_new :
    (i now u token later : ℕ) (ss : List Session)
    → later < now + session_ttl_seconds
    → find_session later token (new_session i now u token ∷ ss)
      ≡ some (to_session (new_session i now u token))
unfolding find_session
find_session_new i now u token later ss l = ground (arith, ==_refl token)

-- The session of a cookie, whatever the cache answers.
pub resolve_session_found :
    (deps : Deps) (clock now : ℕ) (cookie : Text) (token : ℕ) (cached : ℕ → Option ResolvedSession)
    (db : Db)
    → digest_session_cookie_value deps.sha256 (some cookie) ≡ some token
    → (resolve_session deps clock now (some cookie) cached db).0
      ≡ find_session now token db.sessions
unfolding resolve_session
resolve_session_found deps clock now cookie token cached db h = rw (h, resolve_session) refl

with_user_row :
    (deps : Deps) (fresh : Fresh) (now : ℕ) (found : Outcome StoreFault ℕ × Db) (u : ℕ)
    (cookie : Text) (after : Db)
    → with_user deps fresh now found ≡ (ok (signed_in u cookie), after)
    → (v : ℕ) × (db : Db) × (found ≡ (ok v, db))
      × (sign_in deps fresh now v db ≡ (ok (signed_in u cookie), after))
unfolding with_user
with_user_row deps fresh now (err fault, db) u cookie after e = absurd (ground (arith, e))
with_user_row deps fresh now (ok v, db) u cookie after e = (v, db, refl, e)

-- The session of a sign-in.
abbrev pub signed_session : Fresh → (now user_id : ℕ) → ResolvedSession
signed_session fresh now u = record {
  session_id = fresh.session_id;
  user_id = u;
  expires_at = now + session_ttl_seconds;
}

-- The branch of a code that is accepted.
found_row :
    (deps : Deps) (fresh : Fresh) (now : ℕ) (email : Text) (db : Db) (u : ℕ) (cookie : Text)
    (after : Db) (clock later : ℕ) (cached : ℕ → Option ResolvedSession)
    → with_user deps fresh now (find_or_create_email_user fresh.user_id email fresh.raced db)
      ≡ (ok (signed_in u cookie), after)
    → later < now + session_ttl_seconds
    → (after.challenges ≡ db.challenges)
      × (find_identity email after.identities ≡ some u)
      × ((resolve_session deps clock later (some cookie) cached after).0
          ≡ some (signed_session fresh now u))
found_row deps fresh now email db u cookie after clock later cached e l =
    let (v, db1, found, signed) =
      with_user_row deps fresh now (find_or_create_email_user fresh.user_id email fresh.raced db) u
        cookie after e in
    let owner = find_or_create_email_user-identity fresh.user_id email fresh.raced db v db1 found in
    let (token, who, which, digest, free, row) =
      sign_in_row deps fresh now v db1 u cookie after signed in
    let found_or_made = find_or_create_email_user fresh.user_id email fresh.raced db in
    (
      ap (λ r. r.1.challenges) (sym e)
          ∙ (with_user-SignInStep deps fresh now found_or_made).0
          ∙ (find_or_create_email_user-same fresh.user_id email fresh.raced db).1,
      subst (λ d. find_identity email d.identities ≡ some u) (sym row) (owner ∙ ap some who),
      resolve_session_found deps clock later cookie token cached after (
            subst (λ c. digest_session_cookie_value deps.sha256 (some c) ≡ some token) which digest)
          ∙ ap (λ d. find_session later token d.sessions) row
          ∙ find_session_new fresh.session_id now v token later db1.sessions l
          ∙ ap (λ x. some (signed_session fresh now x)) who,
    )

-- The code of an address, as the table keeps it.
abbrev pub code_digest_of : Deps → (email code : Text) → ℕ
code_digest_of deps email code = deps.digest_email_code (deps.digest_email_target email) code

redeem_signed_in :
    (deps : Deps) (fresh : Fresh) (now : ℕ) (email code : Text) (db : Db) (u : ℕ) (cookie : Text)
    (after : Db) (clock later : ℕ) (cached : ℕ → Option ResolvedSession)
    → redeem deps fresh now email code db ≡ (ok (signed_in u cookie), after)
    → later < now + session_ttl_seconds
    → (consume_challenge now
          (deps.digest_email_target email)
          (code_digest_of deps email code)
          db.challenges
        ≡ (true, after.challenges))
      × (find_identity email after.identities ≡ some u)
      × ((resolve_session deps clock later (some cookie) cached after).0
          ≡ some (signed_session fresh now u))
unfolding redeem
redeem_signed_in deps fresh now email code db u cookie after clock later cached e l =
    let consumed =
      consume_challenge now (deps.digest_email_target email) (code_digest_of deps email code)
        db.challenges in
    elim (Bool-cases consumed.0) [
      | inl h ↦
          let (codes, owner, session) =
            found_row deps fresh now email (record db { challenges = consumed.1 }) u cookie after
              clock later cached (sym (rw h refl) ∙ e) l in
          (
            subst (λ x. consumed ≡ (x, after.challenges)) h
                (subst (λ cs. consumed ≡ (consumed.0, cs)) (sym codes) refl),
            owner,
            session,
          )
      | inr h ↦ absurd (ground (arith, e, h))
    ]

-- A sign-in has consumed the pending code of the target of the normal form of the address, and leaves
-- the codes as that consumption does; its user is the one of that address, whatever other logins commit meanwhile, and its cookie resolves to its
-- session for seven days, whatever the cache answers, as long as the database does not change.
pub verify_otp_signed_in :
    (deps : Deps) (fresh : Fresh) (now : ℕ) (input code : Text) (db : Db) (u : ℕ) (cookie : Text)
    (after : Db) (clock later : ℕ) (cached : ℕ → Option ResolvedSession)
    → verify_otp deps fresh now input code db ≡ (ok (signed_in u cookie), after)
    → later < now + session_ttl_seconds
    → (email : Text) × (normalize_email deps.to_lower_case deps.domain_to_ascii input ≡ some email)
      × (consume_challenge now
            (deps.digest_email_target email)
            (code_digest_of deps email code)
            db.challenges
          ≡ (true, after.challenges))
      × (find_identity email after.identities ≡ some u)
      × ((resolve_session deps clock later (some cookie) cached after).0
          ≡ some (signed_session fresh now u))
unfolding verify_otp
verify_otp_signed_in deps fresh now input code db u cookie after clock later cached e l =
    elim (Option-cases (normalize_email deps.to_lower_case deps.domain_to_ascii input)) [
      | inl h ↦ absurd (ground (arith, e, h))
      | inr (email, h) ↦
          let redeemed : redeem deps fresh now email code db ≡ (ok (signed_in u cookie), after) =
            ground (arith, e, h) in
          let (redeemed1, owner, session) =
            redeem_signed_in deps fresh now email code db u cookie after clock later cached redeemed
              l in
          (email, h, redeemed1, owner, session)
    ]
