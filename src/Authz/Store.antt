-- ===== src/Authz/Store.antt =====
-- apps/authz/src/repo.ts: users, identities and sessions beside the one-time codes. The ids that
-- gen_uuid_v7 gives and now(), in seconds, are arguments.
use combo.Prelude.{
  ltb, ◌==◌, if◌then◌else◌, ℕ, ◌+◌, Bool, false, ◌&&◌, ◌||◌, Option, none, some, List, [], ◌∷◌,
}
use combo.Prelude.Outcomes.{Outcome, err, ok}
use combo.Prelude.Texts.{Text, same_text}
use combo.Authz.Challenge.{Challenge, StoreFault, unique_violation, is_null}

-- A row of v2_identities of type email.
pub record Identity : Type 0 where
  pub user_id : ℕ
  pub identifier : Text

-- A row of v2_sessions.
pub record Session : Type 0 where
  pub id : ℕ
  pub user_id : ℕ
  pub token_digest : ℕ
  pub expires_at : ℕ
  pub revoked_at : Option ℕ

pub record Db : Type 0 where
  pub users : List ℕ
  pub identities : List Identity
  pub challenges : List Challenge
  pub sessions : List Session

pub record ResolvedSession : Type 0 where
  pub session_id : ℕ
  pub user_id : ℕ
  pub expires_at : ℕ

-- `toSession`.
abbrev pub to_session : Session → ResolvedSession
to_session s = record { session_id = s.id; user_id = s.user_id; expires_at = s.expires_at }

unfoldable pub find_identity : Text → List Identity → Option ℕ
find_identity email [] = none
find_identity email (x ∷ xs) =
    if same_text x.identifier email then some x.user_id else find_identity email xs

-- The transaction that inserts the user and the identity, with uq_v2_identity; it is rolled back when
-- that index is violated.
unfoldable pub insert_email_user : (id : ℕ) → Text → Db → Outcome StoreFault (ℕ × Db)
insert_email_user i email db = elim (find_identity email db.identities) [
  | some _ ↦ err unique_violation
  | none ↦ ok (
    i,
    record db {
      users = i ∷ db.users;
      identities = record { user_id = i; identifier = email } ∷ db.identities;
    },
  )
]

-- From `catch`: the row of the transaction that won.
unfoldable pub raced_user : Text → Outcome StoreFault (ℕ × Db) → Db → Outcome StoreFault ℕ × Db
raced_user email (ok (u, after)) db = (ok u, after)
raced_user email (err fault) db = elim (find_identity email db.identities) [
  | none ↦ (err fault, db)
  | some u ↦ (ok u, db)
]

-- Another first login of the address, with its new user, that commits.
unfoldable pub commit_raced : Text → Option ℕ → Db → Db
commit_raced email none db = db
commit_raced email (some u) db = record db {
  users = u ∷ db.users;
  identities = record { user_id = u; identifier = email } ∷ db.identities;
}

-- `findOrCreateEmailUser`; `raced` is the login that commits between its SELECT and its INSERT, if one
-- does.
unfoldable pub find_or_create_email_user :
    (id : ℕ) → Text → (raced : Option ℕ) → Db → Outcome StoreFault ℕ × Db
find_or_create_email_user i email raced db = elim (find_identity email db.identities) [
  | some u ↦ (ok u, db)
  | none ↦
      let db1 = commit_raced email raced db in raced_user email (insert_email_user i email db1) db1
]

-- interval '7 days', in seconds.
abbrev pub session_ttl_seconds : ℕ
session_ttl_seconds = 604800

unfoldable pub has_token : ℕ → List Session → Bool
has_token token [] = false
has_token token (s ∷ ss) = s.token_digest == token || has_token token ss

abbrev pub new_session : (id now user_id token : ℕ) → Session
new_session i now u token = record {
  id = i;
  user_id = u;
  token_digest = token;
  expires_at = now + session_ttl_seconds;
  revoked_at = none;
}

-- `insertSession`, with the unique index on token_digest.
unfoldable pub insert_session :
    (id now user_id token : ℕ) → Db → Outcome StoreFault (ResolvedSession × Db)
insert_session i now u token db =
    if has_token token db.sessions
    then err unique_violation
    else ok (
      to_session (new_session i now u token),
      record db { sessions = new_session i now u token ∷ db.sessions },
    )

-- `resolveSession` on the rows.
unfoldable pub find_session : (now token : ℕ) → List Session → Option ResolvedSession
find_session now token [] = none
find_session now token (s ∷ ss) =
    if s.token_digest == token && (is_null s.revoked_at && ltb now s.expires_at)
    then some (to_session s)
    else find_session now token ss

-- `revokeSession` on the rows.
unfoldable pub revoke : (now token : ℕ) → List Session → List Session
revoke now token [] = []
revoke now token (s ∷ ss) =
    (if s.token_digest == token && is_null s.revoked_at
      then record s { revoked_at = some now }
      else s)
    ∷ revoke now token ss
