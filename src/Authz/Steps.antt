-- ===== src/Authz/Steps.antt =====
-- What the calls of apps/authz/src/service.ts that write do to the sessions and the codes.
use combo.Prelude.{
  Bool-cases, Option-cases, ℕ, suc, ◌≤◌, ◌≡◌, refl, ap, ◌∙◌, subst, ◌⊎◌, inl, inr, false, Option,
  none, some, List, ◌∷◌, arith,
}
use combo.Prelude.Outcomes.{Outcome, err, ok}
use combo.Prelude.Texts.{Text}
use combo.Authz.Crypto.{is_otp_code, session_cookie, digest_session_cookie_value, normalize_email}
use combo.Authz.Challenge.{Challenge, StoreFault, replace_challenge, consume_challenge}
use combo.Authz.Consumed.{
  consumed_count, replace_challenge-consumed_count, consume_challenge-consumed_count,
}
use combo.Authz.Store.{
  Session, Db, find_identity, insert_email_user, raced_user, commit_raced,
  find_or_create_email_user, has_token, new_session, insert_session, revoke,
}
use combo.Authz.Service.{
  Delivery, delivered, transient_failure, configuration_failure, permanent_rejection, Deps,
  secrets_ready, Via, by_email, dev_code, stored, after_delivery, with_dev_code, issue_code,
  request_otp, Fresh, sign_in, with_user, redeem, verify_otp, logout,
}

-- A call leaves the sessions, revokes those of a token, or adds one of a new token for a code that it
-- uses up.
abbrev pub Step : Db → Db → Type 0
Step db after =
    ((after.sessions ≡ db.sessions)
      × (consumed_count db.challenges ≤ consumed_count after.challenges))
    ⊎ ((now : ℕ) × (token : ℕ) × (after.sessions ≡ revoke now token db.sessions)
        × (after.challenges ≡ db.challenges))
    ⊎ ((s : Session) × (has_token s.token_digest db.sessions ≡ false)
        × (after.sessions ≡ s ∷ db.sessions)
        × (suc (consumed_count db.challenges) ≤ consumed_count after.challenges))

pub stay : (db : Db) → Step db db
stay db = inl (refl, omega arith)

stored-Step :
    (via : Via) (db : Db) (x : Outcome StoreFault (List Challenge))
    → ((cs : List Challenge) → x ≡ ok cs → consumed_count cs ≡ consumed_count db.challenges)
    → Step db (stored via x db).1
unfolding stored
stored-Step via db (err fault) keeps = stay db
stored-Step via db (ok cs) keeps = inl (refl, ground (arith, keeps cs refl))

replaced-Step :
    (via : Via) (i now t code : ℕ) (db : Db)
    → Step db (stored via (replace_challenge i now t code db.challenges) db).1
replaced-Step via i now t code db =
    stored-Step via db (replace_challenge i now t code db.challenges)
      (λ cs. replace_challenge-consumed_count i now t code db.challenges cs)

after_delivery-Step :
    (deps : Deps) (i now t : ℕ) (code : Text) (x : Delivery) (db : Db)
    → Step db (after_delivery deps i now t code x db).1
unfolding after_delivery
after_delivery-Step deps i now t code transient_failure db = stay db
after_delivery-Step deps i now t code configuration_failure db = stay db
after_delivery-Step deps i now t code permanent_rejection db = stay db
after_delivery-Step deps i now t code delivered db =
    replaced-Step by_email i now t (deps.digest_email_code t code) db

with_dev_code-Step :
    (deps : Deps) (i now t : ℕ) (code : Option Text) (db : Db)
    → Step db (with_dev_code deps i now t code db).1
unfolding with_dev_code
with_dev_code-Step deps i now t none db = stay db
with_dev_code-Step deps i now t (some code) db = elim (Bool-cases (is_otp_code code)) [
  | inl h ↦ rw h (replaced-Step dev_code i now t (deps.digest_email_code t code) db)
  | inr h ↦ rw h (stay db)
]

issue_code-Step :
    (deps : Deps) (i now : ℕ) (code email : Text) (mailer : Option (Text → Text → Delivery))
    (db : Db)
    → Step db (issue_code deps i now code email mailer db).1
unfolding issue_code
issue_code-Step deps i now code email (some send) db =
    after_delivery-Step deps i now (deps.digest_email_target email) code (send email code) db
issue_code-Step deps i now code email none db =
    with_dev_code-Step deps i now (deps.digest_email_target email) deps.dev_otp_code db

pub request_otp-Step :
    (deps : Deps) (i now : ℕ) (code input : Text) (db : Db)
    → Step db (request_otp deps i now code input db).1
unfolding request_otp
request_otp-Step deps i now code input db =
    elim (Option-cases (normalize_email deps.to_lower_case deps.domain_to_ascii input)) [
      | inl h ↦ rw (h, request_otp) (stay db)
      | inr (email, h) ↦ elim (Bool-cases (secrets_ready deps)) [
        | inl ready ↦
            rw (h, request_otp, ready) (issue_code-Step deps i now code email deps.mailer db)
        | inr unready ↦ rw (h, request_otp, unready) (stay db)
      ]
    ]

commit_raced-same :
    (email : Text) (raced : Option ℕ) (db : Db)
    → ((commit_raced email raced db).sessions ≡ db.sessions)
      × ((commit_raced email raced db).challenges ≡ db.challenges)
unfolding commit_raced
commit_raced-same email none db = (refl, refl)
commit_raced-same email (some u) db = (refl, refl)

raced_user-same :
    (i : ℕ) (email : Text) (db : Db)
    → let after = (raced_user email (insert_email_user i email db) db).1 in
      (after.sessions ≡ db.sessions) × (after.challenges ≡ db.challenges)
unfolding raced_user insert_email_user
raced_user-same i email db = elim (Option-cases (find_identity email db.identities)) [
  | inl h ↦ rw (h, insert_email_user) (refl, refl)
  | inr (u, h) ↦ rw (h, insert_email_user, raced_user, h) (refl, refl)
]

pub find_or_create_email_user-same :
    (i : ℕ) (email : Text) (raced : Option ℕ) (db : Db)
    → let after = (find_or_create_email_user i email raced db).1 in
      (after.sessions ≡ db.sessions) × (after.challenges ≡ db.challenges)
unfolding find_or_create_email_user
find_or_create_email_user-same i email raced db =
    let (sessions, challenges) = commit_raced-same email raced db in
    let (sessions1, challenges1) = raced_user-same i email (commit_raced email raced db) in
    elim (Option-cases (find_identity email db.identities)) [
      | inl h ↦ rw (h, find_or_create_email_user) (sessions1 ∙ sessions, challenges1 ∙ challenges)
      | inr (u, h) ↦ rw (h, find_or_create_email_user) (refl, refl)
    ]

-- A sign-in leaves the codes, and the sessions too where it does not add one of a new token.
abbrev pub SignInStep : Db → Db → Type 0
SignInStep db after =
    (after.challenges ≡ db.challenges)
    × ((after.sessions ≡ db.sessions)
        ⊎ ((s : Session) × (has_token s.token_digest db.sessions ≡ false)
            × (after.sessions ≡ s ∷ db.sessions)))

sign_in-SignInStep :
    (deps : Deps) (fresh : Fresh) (now u : ℕ) (db : Db)
    → SignInStep db (sign_in deps fresh now u db).1
unfolding sign_in insert_session
sign_in-SignInStep deps fresh now u db =
    let made = digest_session_cookie_value deps.sha256 (some (session_cookie fresh.token)) in
    elim (Option-cases made) [
      | inl h ↦ rw (h, sign_in) (refl, inl refl)
      | inr (token, h) ↦ elim (Bool-cases (has_token token db.sessions)) [
        | inl taken ↦ rw (h, taken, sign_in) (refl, inl refl)
        | inr free ↦
            rw (h, free, sign_in) (refl, inr (new_session fresh.session_id now u token, free, refl))
      ]
    ]

pub with_user-SignInStep :
    (deps : Deps) (fresh : Fresh) (now : ℕ) (found : Outcome StoreFault ℕ × Db)
    → SignInStep found.1 (with_user deps fresh now found).1
unfolding with_user
with_user-SignInStep deps fresh now (err fault, db) = (refl, inl refl)
with_user-SignInStep deps fresh now (ok u, db) = sign_in-SignInStep deps fresh now u db

paid-Step :
    (db before after : Db)
    → before.sessions ≡ db.sessions
    → suc (consumed_count db.challenges) ≤ consumed_count before.challenges
    → SignInStep before after
    → Step db after
paid-Step db before after same more (kept, inl e) =
    inl (e ∙ same, ground (arith, ap consumed_count kept))
paid-Step db before after same more (kept, inr (s, free, e)) = inr (
    inr (
      s,
      subst (λ ss. has_token s.token_digest ss ≡ false) same free,
      e ∙ ap (λ ss. s ∷ ss) same,
      ground (arith, ap consumed_count kept),
    ))

redeem-Step :
    (deps : Deps) (fresh : Fresh) (now : ℕ) (email code : Text) (db : Db)
    → Step db (redeem deps fresh now email code db).1
unfolding redeem
redeem-Step deps fresh now email code db =
    let t = deps.digest_email_target email in
    let digest = deps.digest_email_code t code in
    let (kept, used) = consume_challenge-consumed_count now t digest db.challenges in
    elim (Bool-cases (consume_challenge now t digest db.challenges).0) [
      | inl h ↦
          let db1 = record db { challenges = (consume_challenge now t digest db.challenges).1 } in
          let found = find_or_create_email_user fresh.user_id email fresh.raced db1 in
          let (sessions, challenges) =
            find_or_create_email_user-same fresh.user_id email fresh.raced db1 in
          let more : suc (consumed_count db.challenges) ≤ consumed_count found.1.challenges =
            ground (arith, used h, ap consumed_count challenges) in
          rw h (
            paid-Step db found.1 (with_user deps fresh now found).1 sessions more
              (with_user-SignInStep deps fresh now found))
      | inr h ↦ rw h (inl (refl, kept))
    ]

pub verify_otp-Step :
    (deps : Deps) (fresh : Fresh) (now : ℕ) (input code : Text) (db : Db)
    → Step db (verify_otp deps fresh now input code db).1
unfolding verify_otp
verify_otp-Step deps fresh now input code db =
    elim (Option-cases (normalize_email deps.to_lower_case deps.domain_to_ascii input)) [
      | inl h ↦ rw (h, verify_otp) (stay db)
      | inr (email, h) ↦ elim (Bool-cases (is_otp_code code)) [
        | inl six ↦ elim (Bool-cases (secrets_ready deps)) [
          | inl ready ↦ rw (h, verify_otp, six, ready) (redeem-Step deps fresh now email code db)
          | inr unready ↦ rw (h, verify_otp, six, unready) (stay db)
        ]
        | inr other ↦ rw (h, verify_otp, other) (stay db)
      ]
    ]

pub logout-Step :
    (deps : Deps) (now : ℕ) (cookie : Option Text) (db : Db) → Step db (logout deps now cookie db).0
unfolding logout
logout-Step deps now cookie db =
    elim (Option-cases (digest_session_cookie_value deps.sha256 cookie)) [
      | inl h ↦ rw (h, logout) (stay db)
      | inr (token, h) ↦ rw (h, logout) (inr (inl (now, token, refl, refl)))
    ]
