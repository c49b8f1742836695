-- ===== src/Examples/Deriving.antt =====
-- The derivation table of packages/orchestrator/src/derive.ts on sample observations.
use gateline.Prelude.{
  length, ◌+ℤ◌, ◌≡◌, ◌≢◌, refl, ◌⊎◌, String, true, false, Option, none, some, [], ◌∷◌, arith,
}
use gateline.Record.Phases.{Phase, spec, plan, full, profile_gates, phase_after_gate}
use gateline.Record.State.{RunState, resume_from, sequence}
use gateline.Record.Decision.{pause, ok, ◌>>=◌, ◌>>◌, throw_if}
use gateline.Record.Decision.Plan.{plan_decision, plan_action, plan_pause}
use gateline.Orchestrator.Observation.{RunObservation}
use gateline.Orchestrator.Intents.{
  Rule, d1, d2, d5, d6, dl, DispatchIntent, rest, dispatch, book, escalate, set_phase,
  landing_escalation_reason,
}
use gateline.Orchestrator.Checks.{
  run_wide, gated_dispatch, landing_check, budget_check, projected, sum_estimates,
}
use gateline.Orchestrator.Derive.{plan_phase}
use gateline.Orchestrator.Derive.Table.{
  derive_action, state_action, active_action, held, has_open_escalation, cap_loop, foreign_gate,
  foreign_phase, advance_gate, phase_action,
}
use gateline.Orchestrator.Derive.Gated.{
  Affordable, derive_dispatches-Affordable, derive_escalations_pause,
}
use gateline.Orchestrator.Derive.Held.{
  observing, is_working, derive_rests_after_stop, derive_acts_only_when_free, advance_gate_settled,
}
use gateline.Orchestrator.Derive.Advancing.{after_ticks, advance_gate_settles}
use gateline.Examples.{planning, ada, request, observed}

-- A run with nothing in its way, whose plan is still to be written.
abbrev quiet : RunState
quiet = record planning { escalations = [] }

abbrev planner : DispatchIntent
planner = run_wide "architect" none "plan.md"

planner_sent : derive_action (observed quiet) ≡ dispatch d6 (planner ∷ [])
unfolding derive_action state_action active_action held cap_loop foreign_gate foreign_phase
    advance_gate phase_action plan_phase gated_dispatch landing_check budget_check projected
    sum_estimates ◌+ℤ◌
planner_sent = refl

derive_dispatches-Affordable_example : Affordable (observed quiet) (planner ∷ [])
derive_dispatches-Affordable_example =
    derive_dispatches-Affordable (observed quiet) d6 (planner ∷ []) planner_sent

not_resting : (r : Rule) → derive_action (observed quiet) ≢ rest r
not_resting r e = cc (planner_sent, e)

derive_acts_only_when_free_example :
    (s : RunState) × ((observed quiet).state ≡ some s)
    × (has_open_escalation s ≡ false)
    × (is_working s.phase ≡ true)
derive_acts_only_when_free_example = derive_acts_only_when_free (observed quiet) not_resting

-- The architect has returned twice with nothing.
abbrev idle_architect : RunObservation
idle_architect = record (observed quiet) { idle_dispatches = λ key. some 2 }

idle_escalates :
    derive_action idle_architect
    ≡ escalate dl (landing_escalation_reason "architect" none 2 "plan.md") (some "escalation")
unfolding derive_action state_action active_action held cap_loop foreign_gate foreign_phase
    advance_gate phase_action plan_phase gated_dispatch landing_check
idle_escalates = refl

abbrev with_reason : Option String
with_reason = some "escalation"

derive_escalations_pause_example : with_reason ≢ none
derive_escalations_pause_example =
    derive_escalations_pause idle_architect dl
      (landing_escalation_reason "architect" none 2 "plan.md") (some "escalation") idle_escalates

abbrev paused_run : RunState
paused_run = record planning { phase = Phase.paused; paused_reason = some "escalation" }

pause_ok : plan_decision planning (request pause) ada ≡ ok paused_run
unfolding plan_decision plan_action plan_pause ◌>>=◌ ◌>>◌ throw_if
pause_ok = refl

derive_rests_after_stop_example :
    (derive_action (observing (observed planning) paused_run) ≡ rest d2)
    ⊎ (derive_action (observing (observed planning) paused_run) ≡ rest d1)
derive_rests_after_stop_example =
    derive_rests_after_stop (observed planning) planning paused_run (request pause) ada pause_ok
      refl

advance_gate_settled_example :
    advance_gate full
      (resume_from (profile_gates full) planning.gates)
      planning.gates
      (profile_gates full)
    ≡ none
advance_gate_settled_example = advance_gate_settled full planning.gates (ground arith)

spec_moves :
    advance_gate full spec planning.gates (profile_gates full)
    ≡ some (book d5 (set_phase plan ∷ []))
unfolding advance_gate phase_after_gate
spec_moves = refl

advance_gate_settles_example :
    advance_gate full
      (after_ticks (length (sequence full)) full planning.gates spec)
      planning.gates
      (profile_gates full)
    ≡ none
advance_gate_settles_example = advance_gate_settles full planning.gates spec refl
