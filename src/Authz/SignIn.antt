-- ===== src/Authz/SignIn.antt =====
-- The steps of `verifyOtp` of apps/authz/src/service.ts after a code is accepted.
use combo.Prelude.{
  Bool-cases, Option-cases, ℕ, ◌≡◌, refl, sym, ap, ◌∙◌, subst, inl, inr, false, Option, some, [],
  ◌∷◌, arith,
}
use combo.Prelude.Outcomes.{Outcome, err, ok}
use combo.Prelude.Texts.{Text, same_text_refl}
use combo.Authz.Crypto.{session_cookie, digest_session_cookie_value}
use combo.Authz.Challenge.{StoreFault, unique_violation}
use combo.Authz.Store.{
  Db, find_identity, insert_email_user, raced_user, commit_raced, find_or_create_email_user,
  has_token, new_session, insert_session,
}
use combo.Authz.Service.{Deps, VerifyOtpResult, signed_in, unavailable, Fresh, sign_in}

abbrev Answer {ℓ} : Type ℓ → Type ℓ
Answer A = Outcome StoreFault A × Db

raced_user_row :
    (i : ℕ) (email : Text) (db : Db) (u : ℕ) (after : Db)
    → raced_user email (insert_email_user i email db) db ≡ (ok u, after)
    → find_identity email after.identities ≡ some u
unfolding insert_email_user raced_user find_identity
raced_user_row i email db u after e = elim (Option-cases (find_identity email db.identities)) [
  | inl h ↦
      let made : raced_user email (insert_email_user i email db) db ≡ (
        ok i,
        record db {
          users = i ∷ db.users;
          identities = record { user_id = i; identifier = email } ∷ db.identities;
        },
      ) =
        rw (h, insert_email_user) refl in
      let same = sym made ∙ e in
      let who : i ≡ u = ground (arith, same) in
      subst (λ d. find_identity email d.identities ≡ some u) (ap (λ r. r.1) same)
        (rw (same_text_refl email) (ap some who))
  | inr (v, h) ↦
      let made : raced_user email (insert_email_user i email db) db ≡ (ok v, db) =
        rw (h, insert_email_user, raced_user, h) refl in
      let same = sym made ∙ e in
      let who : v ≡ u = ground (arith, same) in
      subst (λ d. find_identity email d.identities ≡ some u) (ap (λ r. r.1) same) (h ∙ ap some who)
]

-- The user that `findOrCreateEmailUser` answers is the one of the address, whatever other logins
-- commit meanwhile.
pub find_or_create_email_user-identity :
    (i : ℕ) (email : Text) (raced : Option ℕ) (db : Db) (u : ℕ) (after : Db)
    → find_or_create_email_user i email raced db ≡ (ok u, after)
    → find_identity email after.identities ≡ some u
unfolding find_or_create_email_user
find_or_create_email_user-identity i email raced db u after e =
    elim (Option-cases (find_identity email db.identities)) [
      | inl h ↦
          let made : find_or_create_email_user i email raced db
              ≡ raced_user email (insert_email_user i email (commit_raced email raced db))
                  (commit_raced email raced db) =
            rw (h, find_or_create_email_user) refl in
          raced_user_row i email (commit_raced email raced db) u after (sym made ∙ e)
      | inr (v, h) ↦
          let made : find_or_create_email_user i email raced db ≡ (ok v, db) =
            rw (h, find_or_create_email_user) refl in
          let same = sym made ∙ e in
          let who : v ≡ u = ground (arith, same) in
          subst (λ d. find_identity email d.identities ≡ some u) (ap (λ r. r.1) same)
            (h ∙ ap some who)
    ]

cookie_in : Outcome StoreFault VerifyOtpResult → Text
cookie_in (ok (signed_in u cookie)) = cookie
cookie_in _ = []

pub sign_in_row :
    (deps : Deps) (fresh : Fresh) (now u : ℕ) (db : Db) (v : ℕ) (cookie : Text) (after : Db)
    → sign_in deps fresh now u db ≡ (ok (signed_in v cookie), after)
    → (token : ℕ) × (u ≡ v)
      × (session_cookie fresh.token ≡ cookie)
      × (digest_session_cookie_value deps.sha256 (some (session_cookie fresh.token)) ≡ some token)
      × (has_token token db.sessions ≡ false)
      × (after ≡ record db { sessions = new_session fresh.session_id now u token ∷ db.sessions })
unfolding sign_in insert_session cookie_in
sign_in_row deps fresh now u db v cookie after e =
    let made_cookie = session_cookie fresh.token in
    elim (Option-cases (digest_session_cookie_value deps.sha256 (some made_cookie))) [
      | inl h ↦
          let made : sign_in deps fresh now u db ≡ (ok unavailable, db) = rw (h, sign_in) refl in
          absurd (ground (arith, sym made ∙ e))
      | inr (token, h) ↦ elim (Bool-cases (has_token token db.sessions)) [
        | inl taken ↦
            let made : sign_in deps fresh now u db ≡ (err unique_violation, db) =
              rw (h, taken, sign_in) refl in
            absurd (ground (arith, sym made ∙ e))
        | inr free ↦
            let made : sign_in deps fresh now u db ≡ (
              ok (signed_in u made_cookie),
              record db { sessions = new_session fresh.session_id now u token ∷ db.sessions },
            ) =
              rw (h, free, sign_in) refl in
            let same = sym made ∙ e in
            let told : ok (signed_in u made_cookie) ≡ ok (signed_in v cookie) =
              ap (λ r. r.0) same in
            (token, ground (arith, told), ap cookie_in told, h, free, sym (ap (λ r. r.1) same))
      ]
    ]
