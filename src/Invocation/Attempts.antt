-- ===== src/Invocation/Attempts.antt =====
-- The numbering of interrupt attempts by the reducer of
-- packages/creator-agent-broker-journal/src/worker-invocation.ts.
use combo.Prelude.{ℕ, ◌+◌, ◌≡◌, refl, List, [], ◌∷◌, ◌++◌, arith}
use combo.Invocation.State.{
  Interrupt, no_interrupt, requested, not_sent, sent, already_observed, InterruptAudit, audited,
  pending_start, host_terminal, evidence_lost, State, prepared, dispatching, running,
  terminal_ready, Event, AfterCommitEffect, start_host, interrupt_host, observe_host_outcome, Trust,
}
use combo.Invocation.Reduction.{Reduction, Result, ok, err}
use combo.Invocation.Reduce.{reduce}
use combo.Invocation.Journal.{commit, step, run}
use combo.Invocation.Evidence.{IsSound, step-IsSound}

abbrev attempt_of : Interrupt → ℕ
attempt_of no_interrupt = 0
attempt_of (requested p) = p.attempt
attempt_of (not_sent _ n _) = n
attempt_of (sent _ n _) = n
attempt_of (already_observed p) = p.attempt

abbrev attempt_of_audit : InterruptAudit → ℕ
attempt_of_audit (audited i) = attempt_of i
attempt_of_audit (pending_start _) = 0

-- The number of the last interrupt attempt that was handed to the Host; 0 before the first.
abbrev pub last_attempt : State → ℕ
last_attempt prepared = 0
last_attempt (dispatching _ _) = 0
last_attempt (running r) = attempt_of r.interrupt
last_attempt (terminal_ready (host_terminal _ i _)) = attempt_of i
last_attempt (terminal_ready (evidence_lost _ _ context)) = attempt_of_audit context.interrupt
last_attempt (terminal_ready _) = 0

-- The numbers of the interrupts that the Host was told to send, in order.
abbrev pub attempts : List AfterCommitEffect → List ℕ
attempts [] = []
attempts (interrupt_host _ n _ _ ∷ es) = n ∷ attempts es
attempts (_ ∷ es) = attempts es

-- The numbers after `m`, one by one, up to `n`.
abbrev pub CountsUp : ℕ → List ℕ → ℕ → Type 0
CountsUp m [] n = m ≡ n
CountsUp m (k ∷ ks) n = (k ≡ m + 1) × CountsUp k ks n

CountsUp-append :
    (m k n : ℕ) (xs ys : List ℕ) → CountsUp m xs k → CountsUp k ys n → CountsUp m (xs ++ ys) n
CountsUp-append m k n [] ys h g = rw h g
CountsUp-append m k n (x ∷ xs) ys h g = (h.0, CountsUp-append x k n xs ys h.1 g)

attempts-append :
    (xs ys : List AfterCommitEffect) → attempts (xs ++ ys) ≡ attempts xs ++ attempts ys
attempts-append [] ys = refl
attempts-append (interrupt_host _ n _ _ ∷ xs) ys = rw (attempts-append xs ys)
attempts-append (start_host _ ∷ xs) ys = attempts-append xs ys
attempts-append (observe_host_outcome _ ∷ xs) ys = attempts-append xs ys

reduce-CountsUp :
    (trust : Trust) (s : State) (e : Event) (r : Reduction)
    → IsSound s
    → reduce trust s e ≡ ok r
    → CountsUp (last_attempt s) (attempts r.after_commit) (last_attempt r.next)
unfolding reduce
reduce-CountsUp trust prepared e r v h = ground arith
reduce-CountsUp trust (dispatching start pending) e r v h = ground arith
reduce-CountsUp trust (running q) e r v h = ground arith
reduce-CountsUp trust (terminal_ready t) e r v h = ground arith

step-CountsUp :
    (trust : Trust) (s : State) (e : Event)
    → IsSound s
    → CountsUp
        (last_attempt s)
        (attempts (step trust s e).after_commit)
        (last_attempt (step trust s e).next)
unfolding step
step-CountsUp trust s e v = go (reduce trust s e) refl
  where
    go :
        (x : Result Reduction)
        → reduce trust s e ≡ x
        → CountsUp
            (last_attempt s)
            (attempts (commit s x).after_commit)
            (last_attempt (commit s x).next)
    go (ok r) h = reduce-CountsUp trust s e r v h
    go (err _) h = refl

run-CountsUp :
    (trust : Trust) (s : State) (es : List Event)
    → IsSound s
    → CountsUp
        (last_attempt s)
        (attempts (run trust s es).after_commit)
        (last_attempt (run trust s es).next)
unfolding run
run-CountsUp trust s [] v = refl
run-CountsUp trust s (e ∷ es) v = rw (attempts-append (step trust s e).after_commit _) (
    CountsUp-append _ (last_attempt (step trust s e).next) _ _ _ (step-CountsUp trust s e v)
      (run-CountsUp trust (step trust s e).next es (step-IsSound trust s e v)))

-- After any events, the interrupts that the Host of a new invocation was told to send are numbered
-- 1, 2, 3 and so on, with no gap and no repeat, up to the attempt that the state records.
pub attempts-run :
    (trust : Trust) (es : List Event)
    → CountsUp 0
        (attempts (run trust prepared es).after_commit)
        (last_attempt (run trust prepared es).next)
attempts-run trust es = run-CountsUp trust prepared es tt
