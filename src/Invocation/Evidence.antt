-- ===== src/Invocation/Evidence.antt =====
-- What a Worker Invocation may claim: the evidence behind each state of the reducer of
-- packages/creator-agent-broker-journal/src/worker-invocation.ts.
use combo.Prelude.{
  ℕ, ◌+◌, ◌≡◌, refl, ◌⊎◌, inl, inr, Bool, true, Option, none, some, List, [], ◌∷◌, arith,
}
use combo.Invocation.State.{
  InterruptRequest, InterruptedTerminal, succeeded, turn_failed, interrupted, terminal_ref,
  sent_request, Interrupt, no_interrupt, requested, not_sent, sent, already_observed, Terminal,
  host_terminal, start_rejected, proved_not_dispatched, evidence_lost, State, prepared, dispatching,
  running, terminal_ready, Event, host_start_disposition_recorded,
  host_interrupt_disposition_recorded, host_terminal_confirmed, Trust,
}
use combo.Invocation.Reduction.{ok, err, Reduction, Result}
use combo.Invocation.Reduce.{reduce}
use combo.Invocation.Journal.{commit, step, run}

-- The Host's receipts name the turn that is running.
abbrev FitsTurn : ℕ → Interrupt → Type 0
FitsTurn b (sent _ _ request) = b ≡ request.binding
FitsTurn b (not_sent _ _ request) = b ≡ request.binding
FitsTurn b _ = Unit

-- A terminal waits for its interrupt's disposition only while that is awaited.
abbrev FitsPending : ℕ → Interrupt → Option InterruptedTerminal → Type 0
FitsPending b i none = Unit
FitsPending b (requested p) (some t) = (b ≡ t.binding) × (t.interrupt_request.reason ≡ p.reason)
FitsPending b _ (some t) = ⊥

-- A cancelled or timed out Host terminal answers an interrupt that was proved sent to that turn.
abbrev pub IsJustified : Terminal → Type 0
IsJustified (host_terminal _ (sent _ _ request) (interrupted t)) =
    (request ≡ t.interrupt_request) × (request.binding ≡ t.binding)
IsJustified (host_terminal _ _ (interrupted t)) = ⊥
IsJustified _ = Unit

abbrev pub IsSound : State → Type 0
IsSound prepared = Unit
IsSound (dispatching _ none) = Unit
IsSound (dispatching _ (some p)) = p.attempt ≡ 1
IsSound (running r) =
    FitsTurn r.binding r.interrupt
    × FitsPending r.binding r.interrupt r.pending_interrupted_terminal
IsSound (terminal_ready t) = IsJustified t

-- The number of the interrupt whose disposition a state awaits.
abbrev awaited_by : Interrupt → Option ℕ
awaited_by (requested p) = some p.attempt
awaited_by _ = none

abbrev pub awaited : State → Option ℕ
awaited (dispatching _ (some p)) = some p.attempt
awaited (running r) = awaited_by r.interrupt
awaited _ = none

-- The number of the next interrupt: one more than the last, where one was proved not sent.
abbrev number_after : Interrupt → ℕ
number_after (not_sent _ n _) = n + 1
number_after _ = 1

abbrev pub next_number : State → ℕ
next_number (running r) = number_after r.interrupt
next_number _ = 1

-- An interrupt that is awaited afterwards was awaited before, or is the next one.
abbrev FitsNumber : (after before : Option ℕ) → (next : ℕ) → Type 0
FitsNumber none before next = Unit
FitsNumber (some n) (some m) next = n ≡ m
FitsNumber (some n) none next = n ≡ next

abbrev pub IsNumbered : State → State → Type 0
IsNumbered s t = FitsNumber (awaited t) (awaited s) (next_number s)

-- Every event that is accepted keeps a state sound: receipts name the running turn, and a waiting or
-- final interrupted terminal fits the interrupt that it answers. An interrupt that was not awaited
-- before is numbered 1, or one more than the last where that was proved not sent.
pub reduce-IsSound :
    (trust : Trust) (s : State) (e : Event) (r : Reduction)
    → IsSound s
    → reduce trust s e ≡ ok r
    → IsSound r.next × IsNumbered s r.next
unfolding reduce
reduce-IsSound trust prepared e r v h = (ground arith, ground arith)
reduce-IsSound trust (dispatching start none) e r v h = (ground arith, ground arith)
reduce-IsSound trust (dispatching start (some p)) e r v h = (ground arith, ground arith)
reduce-IsSound trust (running q) e r v h = (ground arith, ground arith)
reduce-IsSound trust (terminal_ready t) e r v h = (ground arith, ground arith)

pub step-IsSound :
    (trust : Trust) (s : State) (e : Event) → IsSound s → IsSound (step trust s e).next
unfolding step
step-IsSound trust s e v = go (reduce trust s e) refl
  where
    go : (x : Result Reduction) → reduce trust s e ≡ x → IsSound (commit s x).next
    go (ok r) h = (reduce-IsSound trust s e r v h).0
    go (err _) h = v

pub run-IsSound :
    (trust : Trust) (s : State) (es : List Event) → IsSound s → IsSound (run trust s es).next
unfolding run
run-IsSound trust s [] v = v
run-IsSound trust s (e ∷ es) v =
    run-IsSound trust (step trust s e).next es (step-IsSound trust s e v)

abbrev IsSentBy : InterruptRequest → Interrupt → Type 0
IsSentBy q (sent _ _ request) = request ≡ q
IsSentBy q _ = ⊥

-- A state that has an interrupt request as sent.
abbrev IsSentIn : InterruptRequest → State → Type 0
IsSentIn q (running r) = IsSentBy q r.interrupt
IsSentIn q (terminal_ready (host_terminal _ i _)) = IsSentBy q i
IsSentIn q _ = ⊥

-- An event with the Host's disposition that the request was sent.
abbrev pub ProvesSent : InterruptRequest → Event → Type 0
ProvesSent q (host_interrupt_disposition_recorded d) = d.outcome ≡ sent_request q
ProvesSent q _ = ⊥

reduce-IsSentIn :
    (trust : Trust) (q : InterruptRequest) (s : State) (e : Event) (r : Reduction)
    → reduce trust s e ≡ ok r
    → IsSentIn q r.next
    → IsSentIn q s ⊎ ProvesSent q e
unfolding reduce
reduce-IsSentIn trust q prepared e r h x = ground arith
reduce-IsSentIn trust q (dispatching start pending) e r h x = ground arith
reduce-IsSentIn trust q (running p) e r h x = ground arith
reduce-IsSentIn trust q (terminal_ready t) e r h x = ground arith

-- One of the events proves that the request was sent, and was accepted when it came.
abbrev pub WasSent : Trust → InterruptRequest → State → List Event → Type 0
WasSent trust q s [] = ⊥
WasSent trust q s (e ∷ es) =
    (ProvesSent q e × (r : Reduction) × (reduce trust s e ≡ ok r))
    ⊎ WasSent trust q (step trust s e).next es

step-IsSentIn :
    (trust : Trust) (q : InterruptRequest) (s : State) (e : Event)
    → IsSentIn q (step trust s e).next
    → IsSentIn q s ⊎ (ProvesSent q e × (r : Reduction) × (reduce trust s e ≡ ok r))
unfolding step
step-IsSentIn trust q s e x = go (reduce trust s e) refl x
  where
    go :
        (y : Result Reduction)
        → reduce trust s e ≡ y
        → IsSentIn q (commit s y).next
        → IsSentIn q s ⊎ (ProvesSent q e × (r : Reduction) × (reduce trust s e ≡ ok r))
    go (ok r) h x = elim (reduce-IsSentIn trust q s e r h x) [
      | inl before ↦ inl before
      | inr now ↦ inr (now, r, h)
    ]
    go (err _) h x = inl x

run-IsSentIn :
    (trust : Trust) (q : InterruptRequest) (s : State) (es : List Event)
    → IsSentIn q (run trust s es).next
    → IsSentIn q s ⊎ WasSent trust q s es
unfolding run
run-IsSentIn trust q s [] x = inl x
run-IsSentIn trust q s (e ∷ es) x = elim (run-IsSentIn trust q (step trust s e).next es x) [
  | inr later ↦ inr (inr later)
  | inl here ↦ elim (step-IsSentIn trust q s e here) [
    | inl before ↦ inl before
    | inr now ↦ inr (inl now)
  ]
]

-- The events have proved the request of an interrupted terminal sent.
abbrev pub IsAnswered : Trust → List Event → Terminal → Type 0
IsAnswered trust es (host_terminal _ _ (interrupted t)) =
    WasSent trust t.interrupt_request prepared es
IsAnswered trust es _ = Unit

ready-IsAnswered :
    (trust : Trust) (es : List Event) (t : Terminal)
    → (run trust prepared es).next ≡ terminal_ready t
    → IsJustified t
    → IsAnswered trust es t
ready-IsAnswered trust es (host_terminal start (sent a n request) (interrupted u)) h (same, bound) =
    elim (run-IsSentIn trust u.interrupt_request prepared es (rw h same)) [
      | inl before ↦ absurd before
      | inr was ↦ was
    ]
ready-IsAnswered trust es (host_terminal start no_interrupt (interrupted u)) h j = absurd j
ready-IsAnswered trust es (host_terminal start (requested p) (interrupted u)) h j = absurd j
ready-IsAnswered trust es (host_terminal start (not_sent a n q) (interrupted u)) h j = absurd j
ready-IsAnswered trust es (host_terminal start (already_observed p) (interrupted u)) h j = absurd j
ready-IsAnswered trust es (host_terminal start i (succeeded r b f g x)) h j = tt
ready-IsAnswered trust es (host_terminal start i (turn_failed r b f)) h j = tt
ready-IsAnswered trust es (start_rejected a) h j = tt
ready-IsAnswered trust es (proved_not_dispatched p a) h j = tt
ready-IsAnswered trust es (evidence_lost r x c) h j = tt

-- A new invocation, after any events, ends with a cancelled or timed out Host terminal only where its
-- interrupt is recorded as sent with the terminal's own request and Host turn, and only if one of the
-- events was accepted with the Host's disposition that this request was sent.
pub run-IsJustified :
    (trust : Trust) (es : List Event) (t : Terminal)
    → (run trust prepared es).next ≡ terminal_ready t
    → IsJustified t × IsAnswered trust es t
run-IsJustified trust es t h =
    let justified : IsJustified t = rw h at (run-IsSound trust prepared es tt) in
    (justified, ready-IsAnswered trust es t h justified)

-- The disposition or terminal that an event carries is in its trust set.
abbrev pub is_trusted : Trust → Event → Bool
is_trusted trust (host_start_disposition_recorded d) = trust.start_dispositions d.ref
is_trusted trust (host_interrupt_disposition_recorded d) = trust.interrupt_dispositions d.ref
is_trusted trust (host_terminal_confirmed t) = trust.terminals (terminal_ref t)
is_trusted trust _ = true

-- In every phase, an event that carries a disposition or a terminal is accepted only if that value
-- is in the trust set of its kind.
pub reduce-is_trusted :
    (trust : Trust) (s : State) (e : Event) (r : Reduction)
    → reduce trust s e ≡ ok r
    → is_trusted trust e ≡ true
unfolding reduce
reduce-is_trusted trust prepared e r h = ground arith
reduce-is_trusted trust (dispatching start pending) e r h = ground arith
reduce-is_trusted trust (running q) e r h = ground arith
reduce-is_trusted trust (terminal_ready t) e r h = ground arith
