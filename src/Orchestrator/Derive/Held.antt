-- ===== src/Orchestrator/Derive/Held.antt =====
-- When the table acts at all, and how it moves the phase: rules D0 to D5 of
-- packages/orchestrator/src/derive.ts, and the decisions of packages/core/src/record/actions.ts that
-- put a run in a human's hands.
use gateline.Prelude.{
  ◌≡◌, ◌≢◌, refl, Bool, true, false, none, some, [], ◌∷◌, ◌⊎◌, inl, inr, arith, Option-cases,
}
use gateline.Record.Phases.{
  Phase, finished, paused, closed, Profile, profile_gates, profile_phases, mem_phase,
  phase_after_gate,
}
use gateline.Record.State.{RunState, Gates, resume_from, index_of, sequence}
use gateline.Record.Decision.{
  DecisionInput, DecisionAction, ok, ◌>>=◌, ◌>>◌, throw_if, decline, pause, close,
}
use gateline.Record.Decision.Plan.{
  Signature, plan_decision, plan_action, plan_decline, plan_pause, plan_close, decline_gate,
}
use gateline.Record.Decision.Sound.{InOrder}
use gateline.Orchestrator.Observation.{RunObservation}
use gateline.Sources.Order.{earlier}
use gateline.Orchestrator.Intents.{Rule, d0, d1, d2, d5, rest, book, set_phase}
use gateline.Orchestrator.Derive.Table.{
  advance_gate, held, has_open_escalation, state_action, derive_action,
}

-- The observation with a run's state put in its place.
abbrev pub observing : RunObservation → RunState → RunObservation
observing obs s = record obs { state = some s }

abbrev pub is_working : Phase → Bool
is_working finished = false
is_working closed = false
is_working paused = false
is_working _ = true

-- A decision that stops the work.
abbrev pub stops_work : DecisionAction → Bool
stops_work decline = true
stops_work pause = true
stops_work close = true
stops_work _ = false

stopped :
    (s t : RunState) (i : DecisionInput) (sig : Signature)
    → plan_decision s i sig ≡ ok t
    → stops_work i.action ≡ true
    → (t.phase ≡ paused) ⊎ (t.phase ≡ closed)
unfolding plan_decision plan_action plan_decline plan_pause plan_close decline_gate ◌>>=◌ ◌>>◌
    throw_if
stopped s t i sig e h = ground arith

held_phase :
    (s : RunState) (p : Phase)
    → (p ≡ paused) ⊎ (p ≡ closed)
    → (held s p ≡ some d2) ⊎ (held s p ≡ some d1)
unfolding held
held_phase s p h = ground arith

state_action-held :
    (obs : RunObservation) (s : RunState) (r : Rule)
    → held s s.phase ≡ some r
    → state_action obs s ≡ rest r
unfolding state_action
state_action-held obs s r h = rw (h, state_action) refl

-- Once a human has declined a gate, paused or closed the run, the table rests, whatever else is
-- observed: it neither dispatches, nor writes, nor escalates.
pub derive_rests_after_stop :
    (obs : RunObservation) (s t : RunState) (i : DecisionInput) (sig : Signature)
    → plan_decision s i sig ≡ ok t
    → stops_work i.action ≡ true
    → (derive_action (observing obs t) ≡ rest d2) ⊎ (derive_action (observing obs t) ≡ rest d1)
unfolding derive_action
derive_rests_after_stop obs s t i sig e h = elim (held_phase t t.phase (stopped s t i sig e h)) [
  | inl k ↦ inl (state_action-held (observing obs t) t d2 k)
  | inr k ↦ inr (state_action-held (observing obs t) t d1 k)
]

held-none :
    (s : RunState) (p : Phase)
    → held s p ≡ none
    → (has_open_escalation s ≡ false) × (is_working p ≡ true)
unfolding held
held-none s p h = ground arith

-- Any answer but a rest is given only for a run whose state is readable, whose phase is one of work,
-- and that has no open escalation.
pub derive_acts_only_when_free :
    (obs : RunObservation)
    → ((r : Rule) → derive_action obs ≢ rest r)
    → (s : RunState) × (obs.state ≡ some s)
      × (has_open_escalation s ≡ false)
      × (is_working s.phase ≡ true)
unfolding derive_action state_action
derive_acts_only_when_free obs h = elim (Option-cases obs.state) [
  | inl e ↦ absurd (h d0 (rw e refl))
  | inr (s, e) ↦ elim (Option-cases (held s s.phase)) [
    | inl k ↦ (let free = held-none s s.phase k in (s, e, free.0, free.1))
    | inr (r, k) ↦ absurd (h r (rw (e, derive_action) (state_action-held obs s r k)))
  ]
]

-- In a run whose gates are approved in order, D5 has nothing to do where the phase is the one that the
-- gates derive.
pub advance_gate_settled :
    (p : Profile) (gs : Gates)
    → InOrder (profile_gates p) gs
    → advance_gate p (resume_from (profile_gates p) gs) gs (profile_gates p) ≡ none
unfolding advance_gate resume_from
advance_gate_settled p gs h = ground arith

-- Where D5 moves the phase, it moves it forward in the sequence of the profile's phases.
pub advance_gate_forward :
    (p : Profile) (ph q : Phase) (gs : Gates)
    → advance_gate p ph gs (profile_gates p) ≡ some (book d5 (set_phase q ∷ []))
    → mem_phase ph (profile_phases p) ≡ true
    → earlier (index_of ph (sequence p)) (index_of q (sequence p)) ≡ some true
unfolding advance_gate phase_after_gate
advance_gate_forward p ph q gs h m = ground arith
