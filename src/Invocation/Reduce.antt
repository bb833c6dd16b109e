-- ===== src/Invocation/Reduce.antt =====
-- `reduceDispatching`, `reduceRunning` and `reduceWorkerInvocation` of
-- packages/creator-agent-broker-journal/src/worker-invocation.ts, and a journal that commits each
-- accepted event.
use combo.Prelude.{◌==◌, if◌then◌else◌, ℕ, Bool, true, false, Option, none, some, [], ◌∷◌}
use combo.Invocation.State.{
  host_protocol_error, InterruptedTerminal, HostTerminal, succeeded, turn_failed, interrupted,
  terminal_ref, started, not_started, start_evidence_lost, InterruptOutcome, sent_request,
  not_sent_request, terminal_already_observed, InterruptDisposition, PendingInterrupt, Interrupt,
  no_interrupt, requested, not_sent, sent, already_observed, start_dispatch_unknown,
  interrupt_outcome_unknown, process_restart_with_dispatch_intent, host_start_proved_not_sent,
  host_terminal, start_rejected, proved_not_dispatched, Running, State, prepared, dispatching,
  running, terminal_ready, Event, interrupt_intent_recorded, host_start_disposition_recorded,
  host_interrupt_disposition_recorded, host_terminal_confirmed, host_evidence_lost,
  process_recovery_without_handle, interrupt_host, illegal_transition, terminal_monotonic,
  attempt_mismatch, host_binding_mismatch, required_evidence_missing, untrusted_value, Trust,
}
use combo.Invocation.Reduction.{
  Reduction, Result, err, ◌>>◌, require, same_reason, reduction, terminal_reduction,
  uncertain_reduction, same_request, same_attempt, assert_next_interrupt_attempt,
  dispatching_context, running_context, evidence_lost_reason, restart_reason, reduce_prepared,
  start_confirmed, asked_to_cancel,
}

-- `reduceDispatching`, the start attempt and the pending interrupt given as arguments.
unfoldable pub reduce_dispatching : Trust → ℕ → Option PendingInterrupt → Event → Result Reduction
unfolding assert_next_interrupt_attempt start_confirmed dispatching_context
reduce_dispatching trust start (some q) (interrupt_intent_recorded p) = err illegal_transition
reduce_dispatching trust start none (interrupt_intent_recorded p) = do
  assert_next_interrupt_attempt no_interrupt p
  reduction (dispatching start (some p)) [] []
reduce_dispatching trust start pending (host_start_disposition_recorded d) = do
  require (trust.start_dispositions d.ref) untrusted_value
  require (start == d.attempt_id) attempt_mismatch
  elim d.outcome [
    | started binding ↦ start_confirmed start pending binding
    | not_started ↦
        if asked_to_cancel pending
        then terminal_reduction (proved_not_dispatched host_start_proved_not_sent (some start))
        else terminal_reduction (start_rejected start)
    | start_evidence_lost reason ↦
        uncertain_reduction start_dispatch_unknown (some reason) (dispatching_context start pending)
  ]
reduce_dispatching trust start pending process_recovery_without_handle =
    uncertain_reduction process_restart_with_dispatch_intent none
      (dispatching_context start pending)
reduce_dispatching _ _ _ _ = err illegal_transition

-- `completeInterruptDisposition`; `interrupt` is the interrupt state of the next state.
unfoldable pub complete_interrupt_disposition :
    Running → Option InterruptedTerminal → Interrupt → Result Reduction
unfolding running_context same_request
complete_interrupt_disposition r none interrupt =
    reduction (running (record r { interrupt = interrupt })) [] []
complete_interrupt_disposition r (some t) (sent a n request) = do
  require (same_request request t.interrupt_request) required_evidence_missing
  terminal_reduction (host_terminal r.start_attempt_id (sent a n request) (interrupted t))
complete_interrupt_disposition r (some t) interrupt =
    uncertain_reduction interrupt_outcome_unknown (some host_protocol_error)
      (running_context (record r { interrupt = interrupt }))

-- What `recordInterruptDisposition` does with the disposition of a REQUESTED interrupt.
record_outcome :
    Running → PendingInterrupt → InterruptDisposition → InterruptOutcome → Result Reduction
unfolding complete_interrupt_disposition
record_outcome r p d (terminal_already_observed binding) = do
  require (r.binding == binding) host_binding_mismatch
  complete_interrupt_disposition r r.pending_interrupted_terminal (
      already_observed
        (record { attempt_id = d.attempt_id; attempt = d.attempt; reason = p.reason }))
record_outcome r p d (sent_request request) = do
  require (r.binding == request.binding) host_binding_mismatch
  require (same_reason request.reason p.reason) required_evidence_missing
  complete_interrupt_disposition r r.pending_interrupted_terminal
      (sent d.attempt_id d.attempt request)
record_outcome r p d (not_sent_request request) = do
  require (r.binding == request.binding) host_binding_mismatch
  require (same_reason request.reason p.reason) required_evidence_missing
  complete_interrupt_disposition r r.pending_interrupted_terminal
      (not_sent d.attempt_id d.attempt request)

-- `recordInterruptDisposition`.
unfoldable pub record_interrupt_disposition :
    Trust → Running → Interrupt → InterruptDisposition → Result Reduction
unfolding record_outcome
record_interrupt_disposition trust r (requested p) d = do
  require (trust.interrupt_dispositions d.ref) untrusted_value
  require (same_attempt p d) attempt_mismatch
  record_outcome r p d d.outcome
record_interrupt_disposition trust r _ d = do
  require (trust.interrupt_dispositions d.ref) untrusted_value
  err required_evidence_missing

-- The interrupted half of the HOST_TERMINAL_CONFIRMED case: `assertPendingInterruptedTerminal`
-- under a REQUESTED interrupt, `assertTerminalMayCommit` under any other.
confirm_interrupted : Running → Interrupt → InterruptedTerminal → Result Reduction
unfolding same_request
confirm_interrupted r (requested p) t = do
  require (r.binding == t.binding) host_binding_mismatch
  require (same_reason t.interrupt_request.reason p.reason) required_evidence_missing
  reduction (running (record r { pending_interrupted_terminal = some t })) [] []
confirm_interrupted r (sent a n request) t = do
  require (r.binding == t.binding) host_binding_mismatch
  require (same_request request t.interrupt_request) required_evidence_missing
  terminal_reduction (host_terminal r.start_attempt_id r.interrupt (interrupted t))
confirm_interrupted r _ t = do
  require (r.binding == t.binding) host_binding_mismatch
  err required_evidence_missing

confirm_terminal : Running → HostTerminal → Result Reduction
unfolding confirm_interrupted
confirm_terminal r (interrupted t) = confirm_interrupted r r.interrupt t
confirm_terminal r (turn_failed ref binding fingerprint) = do
  require (r.binding == binding) host_binding_mismatch
  terminal_reduction
      (host_terminal r.start_attempt_id r.interrupt (turn_failed ref binding fingerprint))
confirm_terminal r (succeeded ref binding fingerprint result sealed) = do
  require (r.binding == binding) host_binding_mismatch
  terminal_reduction (
      host_terminal r.start_attempt_id r.interrupt
        (succeeded ref binding fingerprint result sealed))

-- The INTERRUPT_INTENT_RECORDED case of `reduceRunning`.
request_interrupt : Running → Interrupt → PendingInterrupt → Result Reduction
unfolding assert_next_interrupt_attempt
request_interrupt r (requested _) p = err illegal_transition
request_interrupt r (sent _ _ _) p = err illegal_transition
request_interrupt r (already_observed _) p = err illegal_transition
request_interrupt r interrupt p = do
  assert_next_interrupt_attempt interrupt p
  reduction (running (record r { interrupt = requested p })) []
      (interrupt_host p.attempt_id p.attempt r.binding p.reason ∷ [])

abbrev pub is_none {ℓ} : {A : Type ℓ} → Option A → Bool
is_none none = true
is_none (some _) = false

unfoldable pub reduce_running : Trust → Running → Event → Result Reduction
unfolding request_interrupt record_interrupt_disposition confirm_terminal running_context
    evidence_lost_reason restart_reason
reduce_running trust r (interrupt_intent_recorded p) = request_interrupt r r.interrupt p
reduce_running trust r (host_interrupt_disposition_recorded d) =
    record_interrupt_disposition trust r r.interrupt d
reduce_running trust r (host_terminal_confirmed t) = do
  require (trust.terminals (terminal_ref t)) untrusted_value
  require (is_none r.pending_interrupted_terminal) required_evidence_missing
  confirm_terminal r t
reduce_running trust r (host_evidence_lost reason) =
    uncertain_reduction (evidence_lost_reason r) (some reason) (running_context r)
reduce_running trust r process_recovery_without_handle =
    uncertain_reduction (restart_reason r) none (running_context r)
reduce_running _ _ _ = err illegal_transition

-- `reduceWorkerInvocation`.
unfoldable pub reduce : Trust → State → Event → Result Reduction
unfolding reduce_prepared reduce_dispatching reduce_running
reduce trust (terminal_ready _) e = err terminal_monotonic
reduce trust prepared e = reduce_prepared e
reduce trust (dispatching start pending) e = reduce_dispatching trust start pending e
reduce trust (running r) e = reduce_running trust r e
