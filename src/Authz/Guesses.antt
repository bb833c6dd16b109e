-- ===== src/Authz/Guesses.antt =====
-- `consumeChallenge` of apps/authz/src/repo.ts, whose answer is that of its target's slot.
use combo.Prelude.{
  ltb, leb, ◌==◌, if◌then◌else◌, Bool-cases, Option-cases, ℕ, ◌+◌, ◌≡◌, refl, ◌≢◌, inl, inr, true,
  false, none, some, List, [], ◌∷◌, arith,
}
use combo.Authz.Challenge.{
  Challenge, max_attempts, is_open, find_open, mark_consumed, missed, consume_found,
  consume_challenge,
}
use combo.Authz.Slots.{guess, pending_of, slot, IsFresh, IsValid}
use combo.Authz.Updates.{
  find_open-is_open, find_open-slot, update_challenge-IsFresh, update_challenge_slots,
}

missed_pending :
    (now t : ℕ) (c : Challenge)
    → is_open t c ≡ true
    → (if is_open t (missed now c) then some (pending_of (missed now c)) else none) ≡ (
        if leb max_attempts (c.attempt_count + 1)
        then none
        else some (record (pending_of c) { tries = c.attempt_count + 1 }))
unfolding missed is_open
missed_pending now t c h = elim (Bool-cases (leb max_attempts (c.attempt_count + 1))) [
  | inl l ↦ rw l (ground arith)
  | inr l ↦ rw l (ground arith)
]

find_open-none :
    (now t candidate : ℕ) (cs : List Challenge)
    → find_open now t cs ≡ none
    → (false, slot t cs) ≡ guess now candidate (slot t cs)
unfolding find_open slot guess
find_open-none now t candidate [] e = refl
find_open-none now t candidate (c ∷ cs) e = elim (Bool-cases (is_open t c)) [
  | inl h ↦ elim (Bool-cases (ltb now c.expires_at)) [
    | inl l ↦ absurd (ground arith)
    | inr l ↦ rw (h, l) refl
  ]
  | inr h ↦ rw h (find_open-none now t candidate cs (ground arith))
]

mark_consumed-is_open : (now t : ℕ) (c : Challenge) → is_open t (mark_consumed now c) ≡ false
unfolding is_open mark_consumed
mark_consumed-is_open now t c = ground arith

-- A guess on a valid table leaves a valid table, its answer and the slot of its target are those of
-- `guess`, and no other slot changes.
pub consume_challenge-slot :
    (now t candidate : ℕ) (cs : List Challenge)
    → IsValid cs
    → let r = consume_challenge now t candidate cs in
      IsValid r.1
      × ((r.0, slot t r.1) ≡ guess now candidate (slot t cs))
      × ((u : ℕ) → t ≢ u → slot u r.1 ≡ slot u cs)
unfolding consume_challenge consume_found guess mark_consumed missed
consume_challenge-slot now t candidate cs v = elim (Option-cases (find_open now t cs)) [
  | inl e ↦ rw e (v, find_open-none now t candidate cs e, λ _ _. refl)
  | inr (c, e) ↦
      let (before, alive) = find_open-slot now t cs c e v in
      elim (Bool-cases (c.code_digest == candidate)) [
        | inl m ↦
            let (valid, mine, others) =
              update_challenge_slots (mark_consumed now) (λ _. refl) (λ _. refl) now t c cs e v in
            rw (e, m)
              (valid, rw (mine, mark_consumed-is_open now t c, before, alive, m) refl, others)
        | inr m ↦
            let (valid, mine, others) =
              update_challenge_slots (missed now) (λ _. refl) (λ _. refl) now t c cs e v in
            let left = missed_pending now t c (find_open-is_open now t cs c e) in
            rw (e, m) (valid, rw (mine, left, before, alive, m) refl, others)
      ]
]

pub consume_challenge-IsFresh :
    (i now t candidate : ℕ) (cs : List Challenge)
    → IsFresh i cs
    → IsFresh i (consume_challenge now t candidate cs).1
unfolding consume_challenge consume_found mark_consumed missed
consume_challenge-IsFresh i now t candidate cs f = elim (Option-cases (find_open now t cs)) [
  | inl e ↦ rw e f
  | inr (c, e) ↦ elim (Bool-cases (c.code_digest == candidate)) [
    | inl m ↦
        rw (e, m) (update_challenge-IsFresh (mark_consumed now) (λ _. refl) (λ _. refl) i c.id cs f)
    | inr m ↦ rw (e, m) (update_challenge-IsFresh (missed now) (λ _. refl) (λ _. refl) i c.id cs f)
  ]
]
