-- ===== src/Invocation/Tests.antt =====
-- Two lives of a Worker Invocation: an interrupt that is sent at the second attempt, and a process
-- that is lost while its turn runs.
use combo.Prelude.{◌≡◌, refl, true, none, List, [], ◌∷◌}
use combo.Invocation.State.{
  user_cancel, InterruptRequest, cancelled, InterruptedTerminal, turn_failed, interrupted, started,
  sent_request, not_sent_request, PendingInterrupt, no_interrupt, sent, Terminal, host_terminal,
  prepared, dispatching, running, terminal_ready, Event, dispatch_intent_recorded,
  interrupt_intent_recorded, host_start_disposition_recorded, host_interrupt_disposition_recorded,
  host_terminal_confirmed, process_recovery_without_handle, enqueue_started_fact,
  enqueue_terminal_fact, start_host, interrupt_host, observe_host_outcome, Trust,
}
use combo.Invocation.Reduce.{reduce}
use combo.Invocation.Journal.{step, run}
use combo.Invocation.Evidence.{
  IsJustified, IsSound, IsNumbered, reduce-IsSound, IsAnswered, run-IsJustified, is_trusted,
  reduce-is_trusted,
}
use combo.Invocation.Log.{facts_of, durable-run, opt_to_list, start_attempt, starts, starts-run}
use combo.Invocation.Attempts.{last_attempt, attempts, CountsUp, attempts-run}

abbrev all_trusted : Trust
all_trusted = record {
  start_dispositions = λ _. true;
  interrupt_dispositions = λ _. true;
  terminals = λ _. true;
}

abbrev request : InterruptRequest
request = record { request_id = 40; reason = user_cancel; binding = 5 }

abbrev first_interrupt : PendingInterrupt
first_interrupt = record { attempt_id = 11; attempt = 1; reason = user_cancel }

abbrev second_interrupt : PendingInterrupt
second_interrupt = record { attempt_id = 12; attempt = 2; reason = user_cancel }

abbrev cancelled_turn : InterruptedTerminal
cancelled_turn = record {
  ref = 90;
  kind = cancelled;
  binding = 5;
  fingerprint = 77;
  interrupt_request = request;
}

abbrev cancelled_life : List Event
cancelled_life =
    dispatch_intent_recorded 7
    ∷ interrupt_intent_recorded first_interrupt
    ∷ host_start_disposition_recorded (record { ref = 1; attempt_id = 7; outcome = started 5 })
    ∷ host_interrupt_disposition_recorded
        (record { ref = 2; attempt_id = 11; attempt = 1; outcome = not_sent_request request })
    ∷ interrupt_intent_recorded second_interrupt
    ∷ host_terminal_confirmed (interrupted cancelled_turn)
    ∷ host_interrupt_disposition_recorded
        (record { ref = 3; attempt_id = 12; attempt = 2; outcome = sent_request request })
    ∷ process_recovery_without_handle
    ∷ []

abbrev cancelled_end : Terminal
cancelled_end = host_terminal 7 (sent 12 2 request) (interrupted cancelled_turn)

cancelled_life_ends : (run all_trusted prepared cancelled_life).next ≡ terminal_ready cancelled_end
unfolding run step reduce
cancelled_life_ends = refl

cancelled_life_facts :
    (run all_trusted prepared cancelled_life).durable
    ≡ enqueue_started_fact 5 ∷ enqueue_terminal_fact cancelled_end ∷ []
unfolding run step reduce
cancelled_life_facts = refl

cancelled_life_effects :
    (run all_trusted prepared cancelled_life).after_commit
    ≡ start_host 7
      ∷ interrupt_host 11 1 5 user_cancel
      ∷ observe_host_outcome 5
      ∷ interrupt_host 12 2 5 user_cancel
      ∷ []
unfolding run step reduce
cancelled_life_effects = refl

reduce-IsSound_example : IsSound (dispatching 7 none) × IsNumbered prepared (dispatching 7 none)
unfolding reduce
reduce-IsSound_example =
    reduce-IsSound all_trusted prepared (dispatch_intent_recorded 7)
      (record { next = dispatching 7 none; durable = []; after_commit = start_host 7 ∷ [] }) tt refl

run-IsJustified_example :
    IsJustified cancelled_end × IsAnswered all_trusted cancelled_life cancelled_end
unfolding run step reduce
run-IsJustified_example =
    run-IsJustified all_trusted cancelled_life cancelled_end cancelled_life_ends

reduce-is_trusted_example :
    is_trusted all_trusted (host_terminal_confirmed (turn_failed 4 5 6)) ≡ true
unfolding reduce
reduce-is_trusted_example =
    reduce-is_trusted all_trusted
      (running (record {
        start_attempt_id = 7;
        binding = 5;
        interrupt = no_interrupt;
        pending_interrupted_terminal = none;
      }))
      (host_terminal_confirmed (turn_failed 4 5 6))
      (record {
        next = terminal_ready (host_terminal 7 no_interrupt (turn_failed 4 5 6));
        durable = enqueue_terminal_fact (host_terminal 7 no_interrupt (turn_failed 4 5 6)) ∷ [];
        after_commit = [];
      })
      refl

durable-run_example :
    (run all_trusted prepared cancelled_life).durable
    ≡ facts_of (run all_trusted prepared cancelled_life).next
durable-run_example = durable-run all_trusted cancelled_life

starts-run_example :
    starts (run all_trusted prepared cancelled_life).after_commit
    ≡ opt_to_list (start_attempt (run all_trusted prepared cancelled_life).next)
starts-run_example = starts-run all_trusted cancelled_life

attempts-run_example :
    CountsUp 0
      (attempts (run all_trusted prepared cancelled_life).after_commit)
      (last_attempt (run all_trusted prepared cancelled_life).next)
attempts-run_example = attempts-run all_trusted cancelled_life
