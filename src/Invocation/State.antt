-- ===== src/Invocation/State.antt =====
-- The types of packages/creator-agent-broker-journal/src/worker-invocation.ts, and those of
-- host-projection.ts that it takes. An attempt id, a request id, a fingerprint and a sealed receipt
-- are compared or copied, never computed with, and stand as numbers; a Host binding is compared by
-- reference, and its number is that reference.
use combo.Prelude.{ℕ, Bool, Option}

pub data InterruptReason : Type 0 where
  user_cancel timeout : InterruptReason

-- `HostTurnEvidenceLostReason` of the Host protocol.
pub data HostReason : Type 0 where
  host_protocol_error host_session_lost host_terminal_missing : HostReason

pub record InterruptRequest : Type 0 where
  pub request_id : ℕ
  pub reason : InterruptReason
  pub binding : ℕ

pub data InterruptedKind : Type 0 where
  cancelled turn_timeout : InterruptedKind

-- The terminals that carry an interrupt request: CANCELLED, and FAILED with TURN_TIMEOUT.
pub record InterruptedTerminal : Type 0 where
  pub ref : ℕ
  pub kind : InterruptedKind
  pub binding : ℕ
  pub fingerprint : ℕ
  pub interrupt_request : InterruptRequest

-- `WorkerHostTerminalProjection`; `ref` is the object that the trust set knows.
pub data HostTerminal : Type 0 where
  succeeded : (ref binding fingerprint result_fingerprint sealed_result : ℕ) → HostTerminal
  turn_failed : (ref binding fingerprint : ℕ) → HostTerminal
  interrupted : InterruptedTerminal → HostTerminal

abbrev pub terminal_ref : HostTerminal → ℕ
terminal_ref (succeeded ref _ _ _ _) = ref
terminal_ref (turn_failed ref _ _) = ref
terminal_ref (interrupted t) = t.ref

abbrev pub terminal_binding : HostTerminal → ℕ
terminal_binding (succeeded _ binding _ _ _) = binding
terminal_binding (turn_failed _ binding _) = binding
terminal_binding (interrupted t) = t.binding

pub data StartOutcome : Type 0 where
  started : (binding : ℕ) → StartOutcome
  not_started : StartOutcome
  start_evidence_lost : HostReason → StartOutcome

pub record StartDisposition : Type 0 where
  pub ref : ℕ
  pub attempt_id : ℕ
  pub outcome : StartOutcome

pub data InterruptOutcome : Type 0 where
  sent_request not_sent_request : InterruptRequest → InterruptOutcome
  terminal_already_observed : (binding : ℕ) → InterruptOutcome

pub record InterruptDisposition : Type 0 where
  pub ref : ℕ
  pub attempt_id : ℕ
  pub attempt : ℕ
  pub outcome : InterruptOutcome

pub record PendingInterrupt : Type 0 where
  pub attempt_id : ℕ
  pub attempt : ℕ
  pub reason : InterruptReason

-- `WorkerInterruptState`.
pub data Interrupt : Type 0 where
  no_interrupt : Interrupt
  requested : PendingInterrupt → Interrupt
  not_sent sent : (attempt_id attempt : ℕ) → InterruptRequest → Interrupt
  already_observed : PendingInterrupt → Interrupt

-- `WorkerInterruptAuditSnapshot`.
pub data InterruptAudit : Type 0 where
  audited : Interrupt → InterruptAudit
  pending_start : PendingInterrupt → InterruptAudit

pub data UncertainReason : Type 0 where
  start_dispatch_unknown host_outcome_evidence_lost interrupt_outcome_unknown : UncertainReason
  host_terminal_observed_but_uncommitted process_restart_with_dispatch_intent : UncertainReason
  process_restart_with_live_turn process_restart_with_interrupt : UncertainReason
  process_restart_after_terminal_observed : UncertainReason

pub record UncertainContext : Type 0 where
  pub start_attempt_id : ℕ
  pub binding : Option ℕ
  pub interrupt : InterruptAudit
  pub observed_interrupted_terminal : Option InterruptedTerminal

pub data NotDispatchedProof : Type 0 where
  no_dispatch_intent host_start_proved_not_sent : NotDispatchedProof

-- `WorkerTerminal`. The outcome of `host_terminal` is that of the Host's terminal.
pub data Terminal : Type 0 where
  host_terminal : (start_attempt_id : ℕ) → Interrupt → HostTerminal → Terminal
  start_rejected : (start_attempt_id : ℕ) → Terminal
  proved_not_dispatched : NotDispatchedProof → Option ℕ → Terminal
  evidence_lost : UncertainReason → Option HostReason → UncertainContext → Terminal

pub record Running : Type 0 where
  pub start_attempt_id : ℕ
  pub binding : ℕ
  pub interrupt : Interrupt
  pub pending_interrupted_terminal : Option InterruptedTerminal

pub data State : Type 0 where
  prepared : State
  dispatching : (start_attempt_id : ℕ) → Option PendingInterrupt → State
  running : Running → State
  terminal_ready : Terminal → State

pub data Event : Type 0 where
  dispatch_intent_recorded : (attempt_id : ℕ) → Event
  cancel_proven_not_dispatched : Event
  interrupt_intent_recorded : PendingInterrupt → Event
  host_start_disposition_recorded : StartDisposition → Event
  host_interrupt_disposition_recorded : InterruptDisposition → Event
  host_terminal_confirmed : HostTerminal → Event
  host_evidence_lost : HostReason → Event
  process_recovery_without_handle : Event

pub data DurableEffect : Type 0 where
  enqueue_started_fact : (binding : ℕ) → DurableEffect
  enqueue_terminal_fact : Terminal → DurableEffect

pub data AfterCommitEffect : Type 0 where
  start_host : (attempt_id : ℕ) → AfterCommitEffect
  interrupt_host : (attempt_id attempt binding : ℕ) → InterruptReason → AfterCommitEffect
  observe_host_outcome : (binding : ℕ) → AfterCommitEffect

-- `WorkerInvocationTransitionErrorCode`, and the TypeError of a value with no trusted origin.
pub data Fault : Type 0 where
  illegal_transition terminal_monotonic attempt_mismatch : Fault
  host_binding_mismatch required_evidence_missing untrusted_value : Fault

-- The weak sets of host-projection.ts that the reducer asks, by reference.
pub record Trust : Type 0 where
  pub start_dispositions : ℕ → Bool
  pub interrupt_dispositions : ℕ → Bool
  pub terminals : ℕ → Bool
