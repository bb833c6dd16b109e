-- ===== src/Authz/Tests.antt =====
-- A login: a code is requested, guessed, used up, and its session is left.
use combo.Authz.Checks.{checked_count, checked_count_limit}
use combo.Authz.App.{HttpRequest, post_verification, post_logout, Arrival, AppState, body_email}
use combo.Authz.Consumed.{consumed_count}
use combo.Authz.Logout.{
  ServiceOp, verifies_otp, logs_out, apply_ops, empty_db, apply_ops_paid, logout_final,
}
use combo.Authz.Login.{signed_session, code_digest_of, verify_otp_signed_in}
use combo.Authz.Allowed.{Attempt, allowed_count, allowed_count_limit, consume_over_limit}
use combo.Authz.Limits.{limit_of, window_of, counter}
use combo.Authz.Limit.{
  challenge, target_cooldown, rules_for, Key, Counters, bump, limit_answer, count_rules,
  consume_script, invalid_response, read_answer, consume,
}
use combo.Prelude.{
  length, All, ℕ, zero, suc, ◌+◌, ◌*◌, ◌/◌, ◌≤◌, ◌≡◌, refl, inl, true, false, none, some, List, [],
  ◌∷◌, arith,
}
use combo.Prelude.Outcomes.{err, ok}
use combo.Prelude.Texts.{Text, is_space, trim}
use combo.Authz.Crypto.{
  is_otp_code, is_session_cookie, session_cookie, digest_session_cookie_value, is_local_char,
  is_domain_label, join_email, normalize_parts, normalize_email,
}
use combo.Authz.Challenge.{
  Challenge, is_open, invalidate, has_id, has_open, insert_challenge, new_challenge,
  replace_challenge, find_open, update_challenge, mark_consumed, missed, consume_found,
  consume_challenge,
}
use combo.Authz.Store.{
  Db, find_identity, insert_email_user, raced_user, commit_raced, find_or_create_email_user,
  has_token, insert_session,
}
use combo.Authz.Service.{
  Deps, signed_in, Fresh, sign_in, with_user, redeem, verify_otp, resolve_session, logout,
}
use combo.Authz.Slots.{slot, IsValid}
use combo.Authz.Bound.{
  Guess, after_guesses, consume_challenge_once, IsWrong, replace_challenge_bound,
}
use combo.Authz.Requests.{CodeOp, requests, guesses, run_codes, run_slots, run_codes_refines}

abbrev ops : List CodeOp
ops =
    requests 0 7 111
    ∷ guesses 10 7 222
    ∷ requests 20 7 333
    ∷ guesses 30 7 333
    ∷ guesses 40 7 333
    ∷ []

ops_answers :
    (run_codes 0 ops []).0 ≡ some true ∷ some false ∷ some true ∷ some true ∷ some false ∷ []
unfolding run_codes replace_challenge insert_challenge invalidate is_open has_id has_open find_open
    consume_challenge consume_found update_challenge mark_consumed missed
ops_answers = refl

run_codes_refines_example :
    ((run_codes 0 ops []).0 ≡ (run_slots ops (λ _. none)).0)
    × ((u : ℕ) → slot u (run_codes 0 ops []).1 ≡ (run_slots ops (λ _. none)).1 u)
    × IsValid (run_codes 0 ops []).1
run_codes_refines_example = run_codes_refines ops

abbrev one_code : List Challenge
one_code = new_challenge 0 0 7 111 ∷ []

one_code-IsValid : IsValid one_code
one_code-IsValid = (tt, λ _. tt, tt)

abbrev wrong : ℕ → Guess
wrong t = record { time = t; candidate = 222 }

abbrev wrong_guesses : List Guess
wrong_guesses = wrong 1 ∷ wrong 2 ∷ wrong 3 ∷ wrong 4 ∷ wrong 5 ∷ []

wrong_guesses-IsWrong : All (IsWrong 111 6) wrong_guesses
wrong_guesses-IsWrong =
    let miss : (t : ℕ) → t ≤ 6 → IsWrong 111 6 (wrong t) = λ t l. (λ e. omega arith, l) in
    (
      miss 1 (omega arith),
      (
        miss 2 (omega arith),
        (miss 3 (omega arith), (miss 4 (omega arith), (miss 5 (omega arith), tt))),
      ),
    )

replace_challenge_bound_example :
    (consume_challenge 6 7 111 (after_guesses 7 wrong_guesses one_code)).0 ≡ false
unfolding replace_challenge insert_challenge invalidate is_open has_id has_open
replace_challenge_bound_example =
    replace_challenge_bound 0 0 7 111 wrong_guesses 6 111 [] one_code tt tt refl (inl (omega arith))
      wrong_guesses-IsWrong

consume_challenge_once_example :
    (consume_challenge 3 7 111
      (after_guesses 7 (wrong 2 ∷ []) (consume_challenge 1 7 111 one_code).1)).0
    ≡ false
unfolding consume_challenge consume_found find_open is_open
consume_challenge_once_example =
    consume_challenge_once 1 7 111 (wrong 2 ∷ []) 3 111 one_code one_code-IsValid refl

abbrev repeat : ℕ → ℕ → Text
repeat zero c = []
repeat (suc n) c = c ∷ repeat n c

abbrev weigh : Text → ℕ
weigh [] = 0
weigh (c ∷ cs) = c + 2 * weigh cs

abbrev deps : Deps
deps = record {
  to_lower_case = λ t. t;
  domain_to_ascii = λ t. some t;
  digest_email_target = weigh;
  digest_email_code = λ t c. t + weigh c;
  sha256 = weigh;
  secret_length = 32;
  mailer = none;
  dev_otp_code = none;
}

abbrev address : Text
address = 97 ∷ 64 ∷ 98 ∷ []

abbrev good_code : Text
good_code = 49 ∷ 50 ∷ 51 ∷ 52 ∷ 53 ∷ 54 ∷ []

abbrev fresh : Fresh
fresh = record { token = repeat 43 97; user_id = 5; session_id = 6; raced = some 9 }

abbrev asked_db : Db
asked_db = record {
  users = [];
  identities = [];
  challenges = new_challenge 0 0 (weigh address) (weigh address + weigh good_code) ∷ [];
  sessions = [];
}

abbrev signed_db : Db
signed_db = (verify_otp deps fresh 1 address good_code asked_db).1

verify_works :
    verify_otp deps fresh 1 address good_code asked_db
    ≡ (ok (signed_in 9 (session_cookie (repeat 43 97))), signed_db)
unfolding verify_otp redeem normalize_email normalize_parts join_email is_otp_code is_space trim
    is_local_char is_domain_label consume_challenge consume_found find_open is_open
    find_or_create_email_user find_identity commit_raced raced_user insert_email_user with_user
    sign_in insert_session has_token digest_session_cookie_value is_session_cookie
verify_works = refl

verify_otp_signed_in_example :
    (email : Text) × (normalize_email deps.to_lower_case deps.domain_to_ascii address ≡ some email)
    × (consume_challenge 1
          (deps.digest_email_target email)
          (code_digest_of deps email good_code)
          asked_db.challenges
        ≡ (true, signed_db.challenges))
    × (find_identity email signed_db.identities ≡ some 9)
    × ((resolve_session deps 3 2 (some (session_cookie (repeat 43 97))) (λ _. none) signed_db).0
        ≡ some (signed_session fresh 1 9))
verify_otp_signed_in_example =
    verify_otp_signed_in deps fresh 1 address good_code asked_db 9 (session_cookie (repeat 43 97))
      signed_db 3 2 (λ _. none) verify_works (omega arith)

abbrev calls : List ServiceOp
calls =
    verifies_otp fresh 1 address good_code
    ∷ verifies_otp fresh 2 address good_code
    ∷ logs_out 3 (some (session_cookie (repeat 43 97)))
    ∷ []

apply_ops_paid_example :
    length (apply_ops deps calls empty_db).sessions
    ≤ consumed_count (apply_ops deps calls empty_db).challenges
apply_ops_paid_example = apply_ops_paid deps calls

logout_final_example :
    (resolve_session deps 9 9
      (some (session_cookie (repeat 43 97)))
      (λ _. some (signed_session fresh 1 9))
      (apply_ops deps calls (logout deps 8 (some (session_cookie (repeat 43 97))) signed_db).0)).0
    ≡ none
logout_final_example =
    logout_final deps (some (session_cookie (repeat 43 97))) signed_db 3 2 (λ _. none)
      (signed_session fresh 1 9) 8 calls 9 9 (λ _. some (signed_session fresh 1 9))
      (verify_otp_signed_in deps fresh 1 address good_code asked_db 9
        (session_cookie (repeat 43 97)) signed_db 3 2 (λ _. none) verify_works (omega arith)).4

abbrev whole_seconds : ℕ → ℕ
whole_seconds t = (t + 500) / 1000

abbrev cooldown : Key
cooldown = record { operation = challenge; name = target_cooldown; digest = 7 }

abbrev ask : ℕ → Attempt
ask t = record { now = t; operation = challenge; target = 7; client = 3 }

abbrev no_counters : Counters
no_counters = λ _. none

abbrev asks : List Attempt
asks = ask 1000 ∷ ask 2000 ∷ ask 60000 ∷ []

asks_work : allowed_count whole_seconds cooldown asks no_counters ≡ 1
unfolding allowed_count consume consume_script count_rules limit_answer rules_for bump read_answer
asks_work = refl

allowed_count_limit_example : allowed_count whole_seconds cooldown asks no_counters ≤ 1
unfolding limit_of window_of
allowed_count_limit_example =
    allowed_count_limit cooldown 1000 whole_seconds asks no_counters (inl refl)
      ((omega arith, omega arith), ((omega arith, omega arith), ((omega arith, omega arith), tt)))

-- Twenty requests of the client, and 400 milliseconds left of the hour.
abbrev full_counters : Counters
full_counters = λ _. some (counter 20 1400)

consume_over_limit_example :
    (consume whole_seconds 1000 challenge 7 3 full_counters).0 ≡ err invalid_response
unfolding rules_for
consume_over_limit_example =
    consume_over_limit whole_seconds (ask 1000) 20 1400 full_counters refl (omega arith)
      (omega arith) (omega arith)

abbrev arrival : ℕ → Arrival
arrival t = record { clock = t; now = 1; client = 3 }

abbrev posts : List (Arrival × HttpRequest)
posts =
    (arrival 1000, post_verification (some (address, good_code)) fresh)
    ∷ (arrival 1500, post_verification (some (address, good_code)) fresh)
    ∷ (arrival 1700, post_logout true none)
    ∷ []

abbrev state : AppState
state = record { counters = no_counters; db = asked_db }

checked_count_limit_example : checked_count deps whole_seconds (weigh address) posts state ≤ 10
unfolding window_of is_otp_code body_email normalize_email trim is_space normalize_parts
    is_local_char join_email is_domain_label
checked_count_limit_example =
    checked_count_limit deps whole_seconds (weigh address) 1000 posts state (inl refl)
      ((omega arith, omega arith), ((omega arith, omega arith), ((omega arith, omega arith), tt)))
      (refl, (refl, (tt, tt)))
