-- ===== src/Authz/Crypto.antt =====
-- apps/authz/src/crypto.ts: normal forms of addresses, the patterns of codes and cookies. Unicode's
-- lower case and `domainToASCII`, with `none` where it throws, are arguments.
use combo.Prelude.{
  ltb, leb, ◌==◌, if◌then◌else◌, length, ℕ, Bool, true, false, not, ◌&&◌, ◌||◌, Option, none, some,
  List, [], ◌∷◌, ◌++◌,
}
use combo.Prelude.Texts.{Text, is_space, is_empty, trim, after_prefix}

abbrev pub all_of : (ℕ → Bool) → Text → Bool
all_of p [] = true
all_of p (c ∷ cs) = p c && all_of p cs

abbrev pub any_of : (ℕ → Bool) → Text → Bool
any_of p [] = false
any_of p (c ∷ cs) = p c || any_of p cs

abbrev pub is_digit : ℕ → Bool
is_digit c = leb 48 c && leb c 57

abbrev pub is_lower : ℕ → Bool
is_lower c = leb 97 c && leb c 122

abbrev pub is_upper : ℕ → Bool
is_upper c = leb 65 c && leb c 90

-- OTP_CODE_PATTERN.
unfoldable pub is_otp_code : Text → Bool
is_otp_code t = length t == 6 && all_of is_digit t

-- V2_SESSION_COOKIE_PREFIX.
abbrev pub cookie_prefix : Text
cookie_prefix = 118 ∷ 50 ∷ 115 ∷ 49 ∷ 46 ∷ []

abbrev pub is_token_char : ℕ → Bool
is_token_char c = is_digit c || is_lower c || is_upper c || (c == 95) || (c == 45)

-- V2_SESSION_COOKIE_VALUE_PATTERN.
unfoldable pub is_session_cookie : Text → Bool
is_session_cookie t = elim (after_prefix cookie_prefix t) [
  | none ↦ false
  | some token ↦ length token == 43 && all_of is_token_char token
]

-- `generateSessionCookieValue`, from the base64url text of the random bytes.
abbrev pub session_cookie : Text → Text
session_cookie token = cookie_prefix ++ token

-- `digestSessionCookieValue`, from SHA-256 as a number.
unfoldable pub digest_session_cookie_value : (Text → ℕ) → Option Text → Option ℕ
digest_session_cookie_value sha256 none = none
digest_session_cookie_value sha256 (some t) = if is_session_cookie t then some (sha256 t) else none

abbrev pub at_sign : ℕ
at_sign = 64

abbrev pub dot : ℕ
dot = 46

abbrev pub hyphen : ℕ
hyphen = 45

abbrev pub is_control : ℕ → Bool
is_control c = leb c 31 || (c == 127)

-- The characters of EMAIL_LOCAL_PART_PATTERN: . ! # $ % & ' * + / = ? ^ _ ` { | } ~ - and letters and
-- digits.
unfoldable pub is_local_char : ℕ → Bool
is_local_char c =
    is_lower c
    || is_digit c
    || (c == 33)
    || (leb 35 c && leb c 39)
    || (c == 42)
    || (c == 43)
    || (leb 45 c && leb c 47)
    || (c == 61)
    || (c == 63)
    || (leb 94 c && leb c 96)
    || (leb 123 c && leb c 126)

abbrev pub is_alnum : ℕ → Bool
is_alnum c = is_lower c || is_digit c

abbrev pub last_is_alnum : Text → Bool
last_is_alnum [] = false
last_is_alnum (c ∷ []) = is_alnum c
last_is_alnum (c ∷ d ∷ cs) = last_is_alnum (d ∷ cs)

-- ASCII_DOMAIN_LABEL_PATTERN.
unfoldable pub is_domain_label : Text → Bool
is_domain_label [] = false
is_domain_label (c ∷ cs) =
    is_alnum c
    && last_is_alnum (c ∷ cs)
    && leb (length (c ∷ cs)) 63
    && all_of (λ d. is_alnum d || (d == hyphen)) (c ∷ cs)

abbrev pub before_all : ℕ → List Text → List Text
before_all c [] = (c ∷ []) ∷ []
before_all c (t ∷ ts) = (c ∷ t) ∷ ts

-- domain.split('.').
abbrev pub split_dots : Text → List Text
split_dots [] = [] ∷ []
split_dots (c ∷ cs) = let rest = split_dots cs in if c == dot then [] ∷ rest else before_all c rest

abbrev pub all_labels : List Text → Bool
all_labels [] = true
all_labels (t ∷ ts) = is_domain_label t && all_labels ts

-- The parts before and after the first at sign.
abbrev pub split_at_sign : Text → Option (Text × Text)
split_at_sign [] = none
split_at_sign (c ∷ cs) =
    let rest = split_at_sign cs in
    if c == at_sign
    then some ([], cs)
    else elim rest [ none ↦ none | some (local, domain) ↦ some (c ∷ local, domain) ]

-- From the lines after the domain is made ASCII.
unfoldable pub join_email : Text → Option Text → Option Text
join_email local none = none
join_email local (some domain) =
    if is_empty domain || ltb 253 (length domain) || not (all_labels (split_dots domain))
    then none
    else if leb (length (local ++ at_sign ∷ domain)) 254
    then some (local ++ at_sign ∷ domain)
    else none

-- From the lines after the address is split.
unfoldable pub normalize_parts : (Text → Option Text) → Option (Text × Text) → Option Text
normalize_parts domain_to_ascii none = none
normalize_parts domain_to_ascii (some (local, domain)) =
    if is_empty local
      || any_of (λ c. c == at_sign) domain
      || is_empty domain
      || not (all_of is_local_char local)
    then none
    else join_email local (domain_to_ascii domain)

-- `normalizeEmail`.
unfoldable pub normalize_email : (Text → Text) → (Text → Option Text) → Text → Option Text
normalize_email to_lower_case domain_to_ascii input =
    let value = to_lower_case (trim input) in
    if ltb (length value) 3
      || ltb 254 (length value)
      || any_of is_space value
      || any_of is_control value
    then none
    else normalize_parts domain_to_ascii (split_at_sign value)
