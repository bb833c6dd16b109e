-- ===== src/Authz/Bound.antt =====
-- How often a code of apps/authz/src/repo.ts can be guessed.
use combo.Authz.Codes.{replace_challenge-slot}
use combo.Prelude.Outcomes.{ok}
use combo.Prelude.{
  ltb, leb, if◌then◌else◌, Bool-cases, length, All, ℕ, ◌+◌, ◌≤◌, ◌<◌, ◌≡◌, refl, sym, ap, ◌∙◌,
  subst, ◌≢◌, ◌⊎◌, inl, inr, true, false, none, some, List, [], ◌∷◌, arith,
}
use combo.Authz.Challenge.{
  Challenge, max_attempts, challenge_ttl_seconds, replace_challenge, consume_challenge,
}
use combo.Authz.Slots.{Pending, Slot, issue, guess, slot, IsFresh, IsValid}
use combo.Authz.Guesses.{consume_challenge-slot}

pub record Guess : Type 0 where
  pub time : ℕ
  pub candidate : ℕ

-- The table after guesses at one target's code, in their order.
unfoldable pub after_guesses : (target : ℕ) → List Guess → List Challenge → List Challenge
after_guesses t [] cs = cs
after_guesses t (g ∷ gs) cs = after_guesses t gs (consume_challenge g.time t g.candidate cs).1

unfoldable pub slot_after : List Guess → Slot → Slot
slot_after [] s = s
slot_after (g ∷ gs) s = slot_after gs (guess g.time g.candidate s).1

pub after_guesses-slot :
    (t : ℕ) (gs : List Guess) (cs : List Challenge)
    → IsValid cs
    → IsValid (after_guesses t gs cs) × (slot t (after_guesses t gs cs) ≡ slot_after gs (slot t cs))
unfolding after_guesses slot_after
after_guesses-slot t [] cs v = (v, refl)
after_guesses-slot t (g ∷ gs) cs v =
    let (valid, same, _) = consume_challenge-slot g.time t g.candidate cs v in
    let (later, mine) =
      after_guesses-slot t gs (consume_challenge g.time t g.candidate cs).1 valid in
    (later, mine ∙ ap (λ r. slot_after gs r.1) same)

slot_after-none : (gs : List Guess) → slot_after gs none ≡ none
unfolding slot_after guess
slot_after-none [] = refl
slot_after-none (g ∷ gs) = slot_after-none gs

guess_answer :
    (now t candidate : ℕ) (cs : List Challenge)
    → IsValid cs
    → (consume_challenge now t candidate cs).0 ≡ (guess now candidate (slot t cs)).0
guess_answer now t candidate cs v = ap (λ r. r.0) (consume_challenge-slot now t candidate cs v).1

guess_accepted :
    (now candidate : ℕ) (s : Slot)
    → (guess now candidate s).0 ≡ true
    → (guess now candidate s).1 ≡ none
unfolding guess
guess_accepted now candidate none e = refl
guess_accepted now candidate (some p) e = ground arith

-- A code that was accepted is never accepted again, whatever is guessed for its target before the
-- next request.
pub consume_challenge_once :
    (now t candidate : ℕ) (gs : List Guess) (later again : ℕ) (cs : List Challenge)
    → IsValid cs
    → (consume_challenge now t candidate cs).0 ≡ true
    → (consume_challenge later t again
        (after_guesses t gs (consume_challenge now t candidate cs).1)).0
      ≡ false
unfolding guess
consume_challenge_once now t candidate gs later again cs v e =
    let (valid, same, _) = consume_challenge-slot now t candidate cs v in
    let used = guess_accepted now candidate (slot t cs) (sym (ap (λ r. r.0) same) ∙ e) in
    let (valid1, mine) = after_guesses-slot t gs (consume_challenge now t candidate cs).1 valid in
    let gone = mine ∙ ap (slot_after gs) (ap (λ r. r.1) same ∙ used) ∙ slot_after-none gs in
    guess_answer later t again (after_guesses t gs (consume_challenge now t candidate cs).1) valid1
    ∙ ap (λ s. (guess later again s).0) gone

-- A wrong guess that is not later than a time.
abbrev pub IsWrong : (code last : ℕ) → Guess → Type 0
IsWrong code last g = (g.candidate ≢ code) × (g.time ≤ last)

abbrev missed_once : Pending → Slot
missed_once p =
    if leb max_attempts (p.tries + 1) then none else some (record p { tries = p.tries + 1 })

guess_wrong :
    (now candidate : ℕ) (p : Pending)
    → candidate ≢ p.code
    → (guess now candidate (some p)).1 ≡ (if ltb now p.expires_at then missed_once p else some p)
unfolding guess
guess_wrong now candidate p wrong = elim (Bool-cases (ltb now p.expires_at)) [
  | inl h ↦ ground arith
  | inr h ↦ rw h refl
]

guess_none_left :
    (gs : List Guess) (p : Pending) (last candidate : ℕ)
    → p.tries < max_attempts
    → (ltb last p.expires_at ≡ false) ⊎ (max_attempts ≤ p.tries + length gs)
    → All (IsWrong p.code last) gs
    → (guess last candidate (slot_after gs (some p))).0 ≡ false
unfolding slot_after guess
guess_none_left [] p last candidate few (inl l) all = rw l refl
guess_none_left [] p last candidate few (inr enough) all = absurd (omega arith)
guess_none_left (g ∷ gs) p last candidate few done ((wrong, before), all) =
    rw (guess_wrong g.time g.candidate p wrong) (elim (Bool-cases (ltb g.time p.expires_at)) [
      | inr h ↦ rw h (guess_none_left gs p last candidate few (inl (ground arith)) all)
      | inl h ↦ elim (Bool-cases (leb max_attempts (p.tries + 1))) [
        | inl full ↦ rw (h, full, slot_after-none gs) refl
        | inr more ↦
            rw (h, more)
              (guess_none_left gs (record p { tries = p.tries + 1 }) last candidate (ground arith)
                (elim done [ inl l ↦ inl l | inr enough ↦ inr (omega arith) ]) all)
      ]
    ])

-- After a request has stored a code, with a new id in a valid table, a guess is refused, the right one
-- too, once five wrong guesses for the target have been made or five minutes have passed.
pub replace_challenge_bound :
    (i now t code : ℕ) (gs : List Guess) (last again : ℕ) (cs after : List Challenge)
    → IsValid cs
    → IsFresh i cs
    → replace_challenge i now t code cs ≡ ok after
    → (max_attempts ≤ length gs) ⊎ (now + challenge_ttl_seconds ≤ last)
    → All (IsWrong code last) gs
    → (consume_challenge last t again (after_guesses t gs after)).0 ≡ false
unfolding issue
replace_challenge_bound i now t code gs last again cs after v f e done all =
    let (stored, same, valid, mine, _, _) = replace_challenge-slot i now t code cs v f in
    let is_after : stored ≡ after = ground (arith, same, e) in
    let valid1 = subst IsValid is_after valid in
    let pending = ap (slot t) (sym is_after) ∙ mine in
    let (valid2, left) = after_guesses-slot t gs after valid1 in
    guess_answer last t again (after_guesses t gs after) valid2
    ∙ ap (λ s. (guess last again s).0) (left ∙ ap (slot_after gs) pending)
    ∙ guess_none_left gs
        (record { code = code; expires_at = now + challenge_ttl_seconds; tries = 0 }) last again
        (omega arith) (elim done [ inl enough ↦ inr (omega arith) | inr late ↦ inl (ground arith) ])
        all
