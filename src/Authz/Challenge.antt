-- ===== src/Authz/Challenge.antt =====
-- The one-time codes of apps/authz/src/repo.ts: v2_auth_challenges with the rows of channel email and
-- purpose login, newest first. The id that gen_uuid_v7 gives a new row and the transaction's now() are
-- arguments; a digest of 32 bytes is a number.
use combo.Prelude.{
  ltb, leb, ◌==◌, if◌then◌else◌, ℕ, ◌+◌, Bool, true, false, ◌&&◌, ◌||◌, Option, none, some, List,
  [], ◌∷◌,
}
use combo.Prelude.Outcomes.{Outcome, err, ok}

pub record Challenge : Type 0 where
  pub id : ℕ
  pub target_digest : ℕ
  pub code_digest : ℕ
  pub attempt_count : ℕ
  pub expires_at : ℕ
  pub consumed_at : Option ℕ
  pub invalidated_at : Option ℕ

pub data StoreFault : Type 0 where
  unique_violation : StoreFault

-- max_attempts, by its default and ck_v2_challenge_attempts.
abbrev pub max_attempts : ℕ
max_attempts = 5

-- interval '5 minutes', in seconds.
abbrev pub challenge_ttl_seconds : ℕ
challenge_ttl_seconds = 300

abbrev pub is_null : Option ℕ → Bool
is_null none = true
is_null (some _) = false

-- A row of the target that is neither consumed nor invalidated.
unfoldable pub is_open : (target : ℕ) → Challenge → Bool
is_open target c = c.target_digest == target && (is_null c.consumed_at && is_null c.invalidated_at)

unfoldable pub invalidate : (now target : ℕ) → List Challenge → List Challenge
invalidate now target [] = []
invalidate now target (c ∷ cs) =
    (if is_open target c then record c { invalidated_at = some now } else c)
    ∷ invalidate now target cs

unfoldable pub has_id : ℕ → List Challenge → Bool
has_id i [] = false
has_id i (c ∷ cs) = c.id == i || has_id i cs

unfoldable pub has_open : (target : ℕ) → List Challenge → Bool
has_open target [] = false
has_open target (c ∷ cs) = is_open target c || has_open target cs

-- INSERT, with the primary key and uq_v2_challenge_unfinished_target.
unfoldable pub insert_challenge : Challenge → List Challenge → Outcome StoreFault (List Challenge)
insert_challenge c cs =
    if has_id c.id cs || (is_open c.target_digest c && has_open c.target_digest cs)
    then err unique_violation
    else ok (c ∷ cs)

abbrev pub new_challenge : (id now target code : ℕ) → Challenge
new_challenge i now target code = record {
  id = i;
  target_digest = target;
  code_digest = code;
  attempt_count = 0;
  expires_at = now + challenge_ttl_seconds;
  consumed_at = none;
  invalidated_at = none;
}

-- `replaceChallenge`.
unfoldable pub replace_challenge :
    (id now target code : ℕ) → List Challenge → Outcome StoreFault (List Challenge)
replace_challenge i now target code cs =
    insert_challenge (new_challenge i now target code) (invalidate now target cs)

-- SELECT … ORDER BY created_at DESC LIMIT 1.
unfoldable pub find_open : (now target : ℕ) → List Challenge → Option Challenge
find_open now target [] = none
find_open now target (c ∷ cs) =
    if is_open target c && ltb now c.expires_at then some c else find_open now target cs

-- UPDATE … WHERE id = $1.
unfoldable pub update_challenge : ℕ → (Challenge → Challenge) → List Challenge → List Challenge
update_challenge i f [] = []
update_challenge i f (c ∷ cs) = (if c.id == i then f c else c) ∷ update_challenge i f cs

unfoldable pub mark_consumed : ℕ → Challenge → Challenge
mark_consumed now c = record c { consumed_at = some now }

unfoldable pub missed : ℕ → Challenge → Challenge
missed now c = record c {
  attempt_count = c.attempt_count + 1;
  invalidated_at = if leb max_attempts (c.attempt_count + 1) then some now else none;
}

-- `consumeChallenge` on the row that it finds.
unfoldable pub consume_found :
    (now candidate : ℕ) → Option Challenge → List Challenge → Bool × List Challenge
consume_found now candidate none cs = (false, cs)
consume_found now candidate (some c) cs =
    if c.code_digest == candidate
    then (true, update_challenge c.id (mark_consumed now) cs)
    else (false, update_challenge c.id (missed now) cs)

-- `consumeChallenge`.
unfoldable pub consume_challenge :
    (now target candidate : ℕ) → List Challenge → Bool × List Challenge
consume_challenge now target candidate cs = consume_found now candidate (find_open now target cs) cs
