-- ===== src/Invocation/Journal.antt =====
-- A journal that drives the reducer of
-- packages/creator-agent-broker-journal/src/worker-invocation.ts: an accepted event commits the
-- next state with its durable effects, a refused one commits nothing.
use combo.Prelude.{List, [], ◌∷◌, ◌++◌}
use combo.Invocation.State.{State, Event, Trust}
use combo.Invocation.Reduction.{Reduction, Result, ok, err}
use combo.Invocation.Reduce.{reduce}

abbrev pub commit : State → Result Reduction → Reduction
commit s (ok r) = r
commit s (err _) = record { next = s; durable = []; after_commit = [] }

unfoldable pub step : Trust → State → Event → Reduction
step trust s e = commit s (reduce trust s e)

-- The journal after a list of events: the last state, and all effects in order.
unfoldable pub run : Trust → State → List Event → Reduction
run trust s [] = record { next = s; durable = []; after_commit = [] }
run trust s (e ∷ es) =
    let r = step trust s e in
    let rest = run trust r.next es in
    record {
      next = rest.next;
      durable = r.durable ++ rest.durable;
      after_commit = r.after_commit ++ rest.after_commit;
    }
