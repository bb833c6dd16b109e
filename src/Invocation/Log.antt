-- ===== src/Invocation/Log.antt =====
-- What a journal has emitted, as a function of the state that it reached: for the reducer of
-- packages/creator-agent-broker-journal/src/worker-invocation.ts.
use combo.Prelude.{ℕ, ◌≡◌, refl, Option, none, some, List, [], ◌∷◌, ◌++◌, arith}
use mathlib.Core.List.{append_assoc, append-nil}
use combo.Invocation.State.{
  terminal_binding, Terminal, host_terminal, start_rejected, proved_not_dispatched, evidence_lost,
  State, prepared, dispatching, running, terminal_ready, Event, DurableEffect, enqueue_started_fact,
  enqueue_terminal_fact, AfterCommitEffect, start_host, interrupt_host, observe_host_outcome, Trust,
}
use combo.Invocation.Reduction.{ok, err, Reduction, Result}
use combo.Invocation.Reduce.{reduce}
use combo.Invocation.Journal.{commit, step, run}
use combo.Invocation.Evidence.{IsSound, step-IsSound}

-- The Host turn that a terminal is bound to, if the Host had confirmed its start.
abbrev pub bound : Terminal → Option ℕ
bound (host_terminal _ _ t) = some (terminal_binding t)
bound (evidence_lost _ _ context) = context.binding
bound _ = none

abbrev pub facts_of_terminal : Terminal → Option ℕ → List DurableEffect
facts_of_terminal t none = enqueue_terminal_fact t ∷ []
facts_of_terminal t (some b) = enqueue_started_fact b ∷ enqueue_terminal_fact t ∷ []

-- The facts that a state stands for.
abbrev pub facts_of : State → List DurableEffect
facts_of prepared = []
facts_of (dispatching _ _) = []
facts_of (running r) = enqueue_started_fact r.binding ∷ []
facts_of (terminal_ready t) = facts_of_terminal t (bound t)

reduce-facts_of :
    (trust : Trust) (s : State) (e : Event) (r : Reduction)
    → IsSound s
    → reduce trust s e ≡ ok r
    → facts_of s ++ r.durable ≡ facts_of r.next
unfolding reduce
reduce-facts_of trust prepared e r v h = ground arith
reduce-facts_of trust (dispatching start pending) e r v h = ground arith
reduce-facts_of trust (running q) e r v h = ground arith
reduce-facts_of trust (terminal_ready t) e r v h = ground arith

step-facts_of :
    (trust : Trust) (s : State) (e : Event)
    → IsSound s
    → facts_of s ++ (step trust s e).durable ≡ facts_of (step trust s e).next
unfolding step
step-facts_of trust s e v = go (reduce trust s e) refl
  where
    go :
        (x : Result Reduction)
        → reduce trust s e ≡ x
        → facts_of s ++ (commit s x).durable ≡ facts_of (commit s x).next
    go (ok r) h = reduce-facts_of trust s e r v h
    go (err _) h = append-nil _

run-facts_of :
    (trust : Trust) (s : State) (es : List Event)
    → IsSound s
    → facts_of s ++ (run trust s es).durable ≡ facts_of (run trust s es).next
unfolding run
run-facts_of trust s [] v = append-nil _
run-facts_of trust s (e ∷ es) v =
    let later = run-facts_of trust (step trust s e).next es (step-IsSound trust s e v) in
    rw (← append_assoc) (rw (step-facts_of trust s e v) later)

-- After any events, the durable facts of a new invocation are those that its state stands for: none
-- before the Host confirmed the start, then one started fact with the turn's binding, and at the end
-- one terminal fact with the very terminal of the state, after the started fact of its turn if there
-- is one. No fact is lost, repeated or out of order.
pub durable-run :
    (trust : Trust) (es : List Event)
    → (run trust prepared es).durable ≡ facts_of (run trust prepared es).next
durable-run trust es = run-facts_of trust prepared es tt

abbrev pub opt_to_list {ℓ} : {A : Type ℓ} → Option A → List A
opt_to_list none = []
opt_to_list (some a) = a ∷ []

-- The attempt that a state has recorded for the start of the Host.
abbrev pub start_attempt : State → Option ℕ
start_attempt prepared = none
start_attempt (dispatching start _) = some start
start_attempt (running r) = some r.start_attempt_id
start_attempt (terminal_ready (host_terminal start _ _)) = some start
start_attempt (terminal_ready (start_rejected start)) = some start
start_attempt (terminal_ready (proved_not_dispatched _ start)) = start
start_attempt (terminal_ready (evidence_lost _ _ context)) = some context.start_attempt_id

-- The attempts with which the Host was told to start, in order.
abbrev pub starts : List AfterCommitEffect → List ℕ
starts [] = []
starts (start_host a ∷ es) = a ∷ starts es
starts (_ ∷ es) = starts es

reduce-starts :
    (trust : Trust) (s : State) (e : Event) (r : Reduction)
    → reduce trust s e ≡ ok r
    → opt_to_list (start_attempt s) ++ starts r.after_commit ≡ opt_to_list (start_attempt r.next)
unfolding reduce
reduce-starts trust prepared e r h = ground arith
reduce-starts trust (dispatching start pending) e r h = ground arith
reduce-starts trust (running q) e r h = ground arith
reduce-starts trust (terminal_ready t) e r h = ground arith

step-starts :
    (trust : Trust) (s : State) (e : Event)
    → opt_to_list (start_attempt s) ++ starts (step trust s e).after_commit
      ≡ opt_to_list (start_attempt (step trust s e).next)
unfolding step
step-starts trust s e = go (reduce trust s e) refl
  where
    go :
        (x : Result Reduction)
        → reduce trust s e ≡ x
        → opt_to_list (start_attempt s) ++ starts (commit s x).after_commit
          ≡ opt_to_list (start_attempt (commit s x).next)
    go (ok r) h = reduce-starts trust s e r h
    go (err _) h = append-nil _

starts-append : (xs ys : List AfterCommitEffect) → starts (xs ++ ys) ≡ starts xs ++ starts ys
starts-append [] ys = refl
starts-append (start_host a ∷ xs) ys = rw (starts-append xs ys)
starts-append (interrupt_host _ _ _ _ ∷ xs) ys = starts-append xs ys
starts-append (observe_host_outcome _ ∷ xs) ys = starts-append xs ys

run-starts :
    (trust : Trust) (s : State) (es : List Event)
    → opt_to_list (start_attempt s) ++ starts (run trust s es).after_commit
      ≡ opt_to_list (start_attempt (run trust s es).next)
unfolding run
run-starts trust s [] = append-nil _
run-starts trust s (e ∷ es) =
    rw (starts-append (step trust s e).after_commit _, ← append_assoc, step-starts trust s e)
      (run-starts trust (step trust s e).next es)

-- After any events, the Host of a new invocation was told to start at most once: with the attempt
-- that the state records, and not at all where it records none.
pub starts-run :
    (trust : Trust) (es : List Event)
    → starts (run trust prepared es).after_commit
      ≡ opt_to_list (start_attempt (run trust prepared es).next)
starts-run trust es = run-starts trust prepared es
