-- ===== src/Authz/Logout.antt =====
-- Any history of the calls of apps/authz/src/service.ts that write, in the order in which their
-- transactions commit.
use combo.Prelude.{
  ◌==◌, Bool-cases, Option-cases, length, All, ℕ, suc, ◌≤◌, ◌≡◌, refl, sym, ap, ◌∙◌, subst, inl,
  inr, true, false, ◌&&◌, Option, none, some, List, [], ◌∷◌, arith,
}
use combo.Prelude.Texts.{Text}
use combo.Authz.Crypto.{digest_session_cookie_value}
use combo.Authz.Challenge.{is_null}
use combo.Authz.Store.{Session, Db, ResolvedSession, has_token, find_session, revoke}
use combo.Authz.Service.{Deps, request_otp, Fresh, verify_otp, resolve_session, logout}
use combo.Authz.Consumed.{consumed_count}
use combo.Authz.Steps.{Step, request_otp-Step, verify_otp-Step, logout-Step}

pub data ServiceOp : Type 0 where
  requests_otp : (id now : ℕ) → (code email : Text) → ServiceOp
  verifies_otp : Fresh → (now : ℕ) → (email code : Text) → ServiceOp
  logs_out : (now : ℕ) → (cookie : Option Text) → ServiceOp

unfoldable pub apply_op : Deps → ServiceOp → Db → Db
apply_op deps (requests_otp i now code email) db = (request_otp deps i now code email db).1
apply_op deps (verifies_otp fresh now email code) db = (verify_otp deps fresh now email code db).1
apply_op deps (logs_out now cookie) db = (logout deps now cookie db).0

unfoldable pub apply_ops : Deps → List ServiceOp → Db → Db
apply_ops deps [] db = db
apply_ops deps (o ∷ os) db = apply_ops deps os (apply_op deps o db)

apply_op-Step : (deps : Deps) (o : ServiceOp) (db : Db) → Step db (apply_op deps o db)
unfolding apply_op
apply_op-Step deps (requests_otp i now code email) db = request_otp-Step deps i now code email db
apply_op-Step deps (verifies_otp fresh now email code) db =
    verify_otp-Step deps fresh now email code db
apply_op-Step deps (logs_out now cookie) db = logout-Step deps now cookie db

-- No more sessions than codes used up.
abbrev IsPaid : Db → Type 0
IsPaid db = length db.sessions ≤ consumed_count db.challenges

length-revoke : (now token : ℕ) (ss : List Session) → length (revoke now token ss) ≡ length ss
unfolding revoke
length-revoke now token [] = refl
length-revoke now token (s ∷ ss) = ap suc (length-revoke now token ss)

Step-IsPaid : (db after : Db) → Step db after → IsPaid db → IsPaid after
Step-IsPaid db after (inl (same, more)) p = ground (arith, ap length same)
Step-IsPaid db after (inr (inl (now, token, revoked, same))) p =
    ground (arith, ap length revoked, length-revoke now token db.sessions, ap consumed_count same)
Step-IsPaid db after (inr (inr (s, free, added, more))) p = ground (arith, ap length added)

apply_ops-IsPaid :
    (deps : Deps) (os : List ServiceOp) (db : Db) → IsPaid db → IsPaid (apply_ops deps os db)
unfolding apply_ops
apply_ops-IsPaid deps [] db p = p
apply_ops-IsPaid deps (o ∷ os) db p =
    apply_ops-IsPaid deps os (apply_op deps o db)
      (Step-IsPaid db (apply_op deps o db) (apply_op-Step deps o db) p)

abbrev pub empty_db : Db
empty_db = record { users = []; identities = []; challenges = []; sessions = [] }

-- In any history of requests, sign-ins and logouts from an empty database, refused and failed ones
-- included, there are never more sessions than codes that a guess has used up.
pub apply_ops_paid :
    (deps : Deps) (os : List ServiceOp)
    → length (apply_ops deps os empty_db).sessions
      ≤ consumed_count (apply_ops deps os empty_db).challenges
unfolding consumed_count
apply_ops_paid deps os = apply_ops-IsPaid deps os empty_db (omega arith)

-- No row of a token that is not revoked.
abbrev IsRevoked : ℕ → List Session → Type 0
IsRevoked token = All (λ s. (s.token_digest == token && is_null s.revoked_at) ≡ false)

has_token-revoke :
    (now t token : ℕ) (ss : List Session) → has_token token (revoke now t ss) ≡ has_token token ss
unfolding has_token revoke
has_token-revoke now t token [] = refl
has_token-revoke now t token (s ∷ ss) =
    elim (Bool-cases (s.token_digest == t && is_null s.revoked_at)) [
      | inl h ↦ rw (h, has_token-revoke now t token ss) refl
      | inr h ↦ rw (h, has_token-revoke now t token ss) refl
    ]

revoke-IsRevoked : (now token : ℕ) (ss : List Session) → IsRevoked token (revoke now token ss)
unfolding revoke
revoke-IsRevoked now token [] = tt
revoke-IsRevoked now token (s ∷ ss) =
    elim (Bool-cases (s.token_digest == token && is_null s.revoked_at)) [
      | inl h ↦ rw h (ground arith, revoke-IsRevoked now token ss)
      | inr h ↦ rw h (h, revoke-IsRevoked now token ss)
    ]

revoke-IsRevoked_other :
    (now t token : ℕ) (ss : List Session) → IsRevoked token ss → IsRevoked token (revoke now t ss)
unfolding revoke
revoke-IsRevoked_other now t token [] r = tt
revoke-IsRevoked_other now t token (s ∷ ss) (r, rs) =
    elim (Bool-cases (s.token_digest == t && is_null s.revoked_at)) [
      | inl h ↦ rw h (ground arith, revoke-IsRevoked_other now t token ss rs)
      | inr h ↦ rw h (r, revoke-IsRevoked_other now t token ss rs)
    ]

find_session-IsRevoked :
    (now token : ℕ) (ss : List Session) → IsRevoked token ss → find_session now token ss ≡ none
unfolding find_session
find_session-IsRevoked now token [] r = refl
find_session-IsRevoked now token (s ∷ ss) (r, rs) =
    let rest = find_session-IsRevoked now token ss rs in ground (arith, r, rest)

find_session-has_token :
    (now token : ℕ) (ss : List Session) (s : ResolvedSession)
    → find_session now token ss ≡ some s
    → has_token token ss ≡ true
unfolding find_session has_token
find_session-has_token now token [] s e = absurd (ground (arith, e))
find_session-has_token now token (x ∷ xs) s e = elim (Bool-cases (x.token_digest == token)) [
  | inl h ↦ rw h refl
  | inr h ↦ rw h (find_session-has_token now token xs s (ground (arith, e, h)))
]

-- A token that has rows, all of them revoked.
abbrev IsGone : ℕ → Db → Type 0
IsGone token db = (has_token token db.sessions ≡ true) × IsRevoked token db.sessions

Step-IsGone : (token : ℕ) (db after : Db) → Step db after → IsGone token db → IsGone token after
unfolding has_token
Step-IsGone token db after (inl (same, _)) (has, gone) =
    (ap (has_token token) same ∙ has, subst (IsRevoked token) (sym same) gone)
Step-IsGone token db after (inr (inl (now, t, revoked, _))) (has, gone) = (
  ap (has_token token) revoked ∙ has_token-revoke now t token db.sessions ∙ has,
  subst (IsRevoked token) (sym revoked) (revoke-IsRevoked_other now t token db.sessions gone),
)
Step-IsGone token db after (inr (inr (s, free, added, _))) (has, gone) =
    let other : (s.token_digest == token) ≡ false = elim (Bool-cases (s.token_digest == token)) [
      | inl h ↦
          let same : s.token_digest ≡ token = ground arith in
          let free1 = subst (λ t. has_token t db.sessions ≡ false) same free in
          absurd (ground (arith, has, free1))
      | inr h ↦ h
    ] in
    (
      ap (has_token token) added ∙ ground (arith, has),
      subst (IsRevoked token) (sym added) (ground (arith, other), gone),
    )

apply_ops-IsGone :
    (deps : Deps) (token : ℕ) (os : List ServiceOp) (db : Db)
    → IsGone token db
    → IsGone token (apply_ops deps os db)
unfolding apply_ops
apply_ops-IsGone deps token [] db g = g
apply_ops-IsGone deps token (o ∷ os) db g =
    apply_ops-IsGone deps token os (apply_op deps o db)
      (Step-IsGone token db (apply_op deps o db) (apply_op-Step deps o db) g)

-- A cookie that resolved to a session before its logout resolves to none after it, whatever requests,
-- sign-ins and logouts come next and whatever the cache and the clocks answer.
pub logout_final :
    (deps : Deps) (cookie : Option Text) (db : Db) (clock0 now0 : ℕ)
    (cached0 : ℕ → Option ResolvedSession) (s : ResolvedSession) (at : ℕ) (os : List ServiceOp)
    (clock now : ℕ) (cached : ℕ → Option ResolvedSession)
    → (resolve_session deps clock0 now0 cookie cached0 db).0 ≡ some s
    → (resolve_session deps clock now cookie cached
        (apply_ops deps os (logout deps at cookie db).0)).0
      ≡ none
unfolding resolve_session logout
logout_final deps cookie db clock0 now0 cached0 s at os clock now cached e =
    elim (Option-cases (digest_session_cookie_value deps.sha256 cookie)) [
      | inl h ↦ rw (h, resolve_session) refl
      | inr (token, h) ↦
          let found : find_session now0 token db.sessions ≡ some s = ground (arith, e, h) in
          let out = record db { sessions = revoke at token db.sessions } in
          let (has, gone) = apply_ops-IsGone deps token os out (
            has_token-revoke at token token db.sessions
                ∙ find_session-has_token now0 token db.sessions s found,
            revoke-IsRevoked at token db.sessions,
          ) in
          rw (h, resolve_session, logout, h)
            (find_session-IsRevoked now token (apply_ops deps os out).sessions gone)
    ]
