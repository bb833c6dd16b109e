-- ===== src/Authz/Requests.antt =====
-- Any history of requests and guesses, apps/authz/src/repo.ts: the transactions in the order in which
-- they commit. The k-th request's row has the id k, for gen_uuid_v7.
use combo.Prelude.{
  ◌==◌, if◌then◌else◌, Bool-cases, ℕ, suc, ◌≤◌, ◌≡◌, refl, ap, ◌∙◌, subst, ◌≢◌, inl, inr, Bool,
  true, Option, none, some, List, [], ◌∷◌, arith,
}
use combo.Prelude.Outcomes.{Outcome, err, ok}
use combo.Authz.Challenge.{Challenge, StoreFault, replace_challenge, consume_challenge}
use combo.Authz.Slots.{Slot, issue, guess, slot, IsFresh, IsValid}
use combo.Authz.Codes.{replace_challenge-slot}
use combo.Authz.Guesses.{consume_challenge-slot, consume_challenge-IsFresh}

pub data CodeOp : Type 0 where
  requests : (now target code : ℕ) → CodeOp
  guesses : (now target candidate : ℕ) → CodeOp

-- What a request or a guess answers: `none` for a request that fails.
abbrev pub Answers : Type 0
Answers = List (Option Bool)

abbrev pub kept :
    Outcome StoreFault (List Challenge) → List Challenge → Option Bool × List Challenge
kept (err _) cs = (none, cs)
kept (ok after) cs = (some true, after)

unfoldable pub run_codes : ℕ → List CodeOp → List Challenge → Answers × List Challenge
run_codes i [] cs = ([], cs)
run_codes i (requests now t code ∷ os) cs =
    let (answer, after) = kept (replace_challenge i now t code cs) cs in
    let (answers, last) = run_codes (suc i) os after in (answer ∷ answers, last)
run_codes i (guesses now t candidate ∷ os) cs =
    let (answer, after) = consume_challenge now t candidate cs in
    let (answers, last) = run_codes i os after in (some answer ∷ answers, last)

abbrev pub Slots : Type 0
Slots = ℕ → Slot

abbrev pub set_slot : ℕ → Slot → Slots → Slots
set_slot t s slots = λ u. if t == u then s else slots u

-- The same history with a slot for each target.
unfoldable pub run_slots : List CodeOp → Slots → Answers × Slots
run_slots [] slots = ([], slots)
run_slots (requests now t code ∷ os) slots =
    let (answers, last) = run_slots os (set_slot t (issue now code (slots t)) slots) in
    (some true ∷ answers, last)
run_slots (guesses now t candidate ∷ os) slots =
    let (answer, after) = guess now candidate (slots t) in
    let (answers, last) = run_slots os (set_slot t after slots) in (some answer ∷ answers, last)

abbrev AllFresh : ℕ → List Challenge → Type 0
AllFresh i cs = (j : ℕ) → i ≤ j → IsFresh j cs

abbrev Simulates : Slots → List Challenge → Type 0
Simulates slots cs = (u : ℕ) → slot u cs ≡ slots u

set_slot-Simulates :
    (t : ℕ) (s : Slot) (slots : Slots) (cs after : List Challenge)
    → Simulates slots cs
    → slot t after ≡ s
    → ((u : ℕ) → t ≢ u → slot u after ≡ slot u cs)
    → Simulates (set_slot t s slots) after
set_slot-Simulates t s slots cs after sim mine others u = elim (Bool-cases (t == u)) [
  | inl e ↦ rw e (subst (λ x. slot x after ≡ s) (ground arith) mine)
  | inr e ↦ rw e (others u (ground arith) ∙ sim u)
]

run_codes-Simulates :
    (i : ℕ) (os : List CodeOp) (cs : List Challenge) (slots : Slots)
    → IsValid cs
    → AllFresh i cs
    → Simulates slots cs
    → IsValid (run_codes i os cs).1
      × ((run_codes i os cs).0 ≡ (run_slots os slots).0)
      × Simulates (run_slots os slots).1 (run_codes i os cs).1
unfolding run_codes run_slots
run_codes-Simulates i [] cs slots v f sim = (v, refl, sim)
run_codes-Simulates i (requests now t code ∷ os) cs slots v f sim =
    let (after, e, valid, mine, others, frees) =
      replace_challenge-slot i now t code cs v (f i (omega arith)) in
    let sim1 =
      set_slot-Simulates t (issue now code (slots t)) slots cs after sim
        (mine ∙ ap (issue now code) (sim t)) others in
    let (v1, same, sim2) =
      run_codes-Simulates (suc i) os after (set_slot t (issue now code (slots t)) slots) valid
        (λ j l. frees j (ground arith) (f j (omega arith))) sim1 in
    rw e (v1, rw same refl, sim2)
run_codes-Simulates i (guesses now t candidate ∷ os) cs slots v f sim =
    let (valid, same, others) = consume_challenge-slot now t candidate cs v in
    let after = (consume_challenge now t candidate cs).1 in
    let told = same ∙ ap (guess now candidate) (sim t) in
    let sim1 =
      set_slot-Simulates t (guess now candidate (slots t)).1 slots cs after sim (ap (λ r. r.1) told)
        others in
    let fresh : AllFresh i after = λ j l. consume_challenge-IsFresh j now t candidate cs (f j l) in
    let (v1, tail, sim2) =
      run_codes-Simulates i os after (set_slot t (guess now candidate (slots t)).1 slots) valid
        fresh sim1 in
    (
      v1,
      ap (λ x. some x ∷ (run_codes i os after).0) (ap (λ r. r.0) told)
          ∙ ap (λ x. some (guess now candidate (slots t)).0 ∷ x) tail,
      sim2,
    )

-- Any history of requests and guesses from an empty table gives the answers of one slot for each
-- target, so that no request ever fails, and leaves a table that shows these slots, with distinct ids
-- and at most one open row for each target.
pub run_codes_refines :
    (os : List CodeOp)
    → ((run_codes 0 os []).0 ≡ (run_slots os (λ _. none)).0)
      × ((u : ℕ) → slot u (run_codes 0 os []).1 ≡ (run_slots os (λ _. none)).1 u)
      × IsValid (run_codes 0 os []).1
unfolding slot
run_codes_refines os =
    let (valid, same, slots) = run_codes-Simulates 0 os [] (λ _. none) tt (λ _ _. tt) (λ _. refl) in
    (same, slots, valid)
