-- ===== src/Invocation/Reduction.antt =====
-- The parts of the reducer of
-- packages/creator-agent-broker-journal/src/worker-invocation.ts: its results, assertions and
-- snapshots, and its PREPARED phase. An exception is the error of a result; the phase and event
-- that its message names are not kept.
use combo.Prelude.Outcomes.{Outcome, err, ok, ◌>>=◌, ◌>>◌, require}
pub use combo.Prelude.Outcomes.{ok, err, ◌>>=◌, ◌>>◌, require}
use combo.Prelude.{◌==◌, ℕ, ◌+◌, Bool, true, false, not, ◌&&◌, Option, none, some, List, [], ◌∷◌}
use combo.Invocation.State.{
  InterruptReason, user_cancel, timeout, HostReason, InterruptRequest, InterruptDisposition,
  PendingInterrupt, Interrupt, no_interrupt, requested, not_sent, sent, already_observed, audited,
  pending_start, UncertainReason, host_outcome_evidence_lost, interrupt_outcome_unknown,
  host_terminal_observed_but_uncommitted, process_restart_with_live_turn,
  process_restart_with_interrupt, process_restart_after_terminal_observed, UncertainContext,
  no_dispatch_intent, Terminal, proved_not_dispatched, evidence_lost, Running, State, dispatching,
  running, terminal_ready, Event, dispatch_intent_recorded, cancel_proven_not_dispatched,
  DurableEffect, enqueue_started_fact, enqueue_terminal_fact, AfterCommitEffect, start_host,
  interrupt_host, observe_host_outcome, Fault, illegal_transition, attempt_mismatch,
}

pub record Reduction : Type 0 where
  pub next : State
  pub durable : List DurableEffect
  pub after_commit : List AfterCommitEffect

abbrev pub Result {ℓ} : Type ℓ → Type ℓ
Result A = Outcome Fault A

abbrev pub same_reason : InterruptReason → InterruptReason → Bool
same_reason user_cancel user_cancel = true
same_reason timeout timeout = true
same_reason _ _ = false

abbrev pub reduction : State → List DurableEffect → List AfterCommitEffect → Result Reduction
reduction s durable after = ok (record { next = s; durable = durable; after_commit = after })

abbrev pub terminal_reduction : Terminal → Result Reduction
terminal_reduction t = reduction (terminal_ready t) (enqueue_terminal_fact t ∷ []) []

abbrev pub uncertain_reduction :
    UncertainReason → Option HostReason → UncertainContext → Result Reduction
uncertain_reduction reason host context = terminal_reduction (evidence_lost reason host context)

unfoldable pub same_request : InterruptRequest → InterruptRequest → Bool
same_request expected actual =
    expected.request_id == actual.request_id
    && (same_reason expected.reason actual.reason && expected.binding == actual.binding)

-- `assertAttempt`.
abbrev pub same_attempt : PendingInterrupt → InterruptDisposition → Bool
same_attempt p d = p.attempt_id == d.attempt_id && p.attempt == d.attempt

-- `assertNextInterruptAttempt`.
unfoldable pub assert_next_interrupt_attempt : Interrupt → PendingInterrupt → Result (Unit {0})
assert_next_interrupt_attempt (not_sent attempt_id attempt _) p = do
  require (p.attempt == attempt + 1) attempt_mismatch
  require (not (attempt_id == p.attempt_id)) attempt_mismatch
assert_next_interrupt_attempt _ p = require (p.attempt == 1) attempt_mismatch

unfoldable pub dispatching_context : ℕ → Option PendingInterrupt → UncertainContext
dispatching_context start pending = record {
  start_attempt_id = start;
  binding = none;
  interrupt = elim pending [ none ↦ audited no_interrupt | some p ↦ pending_start p ];
  observed_interrupted_terminal = none;
}

unfoldable pub running_context : Running → UncertainContext
running_context r = record {
  start_attempt_id = r.start_attempt_id;
  binding = some r.binding;
  interrupt = audited r.interrupt;
  observed_interrupted_terminal = r.pending_interrupted_terminal;
}

interrupt_lost_reason : Interrupt → UncertainReason
interrupt_lost_reason (already_observed _) = host_terminal_observed_but_uncommitted
interrupt_lost_reason (requested _) = interrupt_outcome_unknown
interrupt_lost_reason (sent _ _ _) = interrupt_outcome_unknown
interrupt_lost_reason _ = host_outcome_evidence_lost

unfoldable pub evidence_lost_reason : Running → UncertainReason
unfolding interrupt_lost_reason
evidence_lost_reason r = elim r.pending_interrupted_terminal [
  | some _ ↦ host_terminal_observed_but_uncommitted
  | none ↦ interrupt_lost_reason r.interrupt
]

interrupt_restart_reason : Interrupt → UncertainReason
interrupt_restart_reason (already_observed _) = process_restart_after_terminal_observed
interrupt_restart_reason (requested _) = process_restart_with_interrupt
interrupt_restart_reason (sent _ _ _) = process_restart_with_interrupt
interrupt_restart_reason _ = process_restart_with_live_turn

unfoldable pub restart_reason : Running → UncertainReason
unfolding interrupt_restart_reason
restart_reason r = elim r.pending_interrupted_terminal [
  | some _ ↦ process_restart_after_terminal_observed
  | none ↦ interrupt_restart_reason r.interrupt
]

-- `reducePrepared`.
unfoldable pub reduce_prepared : Event → Result Reduction
reduce_prepared (dispatch_intent_recorded a) = reduction (dispatching a none) [] (start_host a ∷ [])
reduce_prepared cancel_proven_not_dispatched =
    terminal_reduction (proved_not_dispatched no_dispatch_intent none)
reduce_prepared _ = err illegal_transition

-- `startConfirmed`.
unfoldable pub start_confirmed : ℕ → Option PendingInterrupt → ℕ → Result Reduction
start_confirmed start none binding =
    reduction
      (running (record {
        start_attempt_id = start;
        binding = binding;
        interrupt = no_interrupt;
        pending_interrupted_terminal = none;
      }))
      (enqueue_started_fact binding ∷ []) (observe_host_outcome binding ∷ [])
start_confirmed start (some p) binding =
    reduction
      (running (record {
        start_attempt_id = start;
        binding = binding;
        interrupt = requested p;
        pending_interrupted_terminal = none;
      }))
      (enqueue_started_fact binding ∷ [])
      (interrupt_host p.attempt_id p.attempt binding p.reason ∷ observe_host_outcome binding ∷ [])

-- `state.pendingInterrupt?.reason === 'USER_CANCEL'`.
abbrev pub asked_to_cancel : Option PendingInterrupt → Bool
asked_to_cancel none = false
asked_to_cancel (some p) = same_reason p.reason user_cancel
