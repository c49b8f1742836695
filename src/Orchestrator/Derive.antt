-- ===== src/Orchestrator/Derive.antt =====
-- The producing phases of the derivation table of packages/orchestrator/src/derive.ts: rules D6 to D10
-- and D21.
pub mod Launches
pub mod Tasks
pub mod Table
pub mod Induction
pub mod Gated
pub mod Loop
pub mod Keys
pub mod Held
pub mod Advancing
pub mod Answers
pub mod Agreement
pub mod Rounds
pub mod Launching
use gateline.Orchestrator.Checks.{
  role_in_flight, idle_count, landing_check, estimate, sum_estimates, projected, cost_limit,
  enforced_limit, budget_check, gated_dispatch, run_wide,
}
use gateline.Orchestrator.Routes.{
  Resolution, is_newer, better_resolution, best_resolution, escalations_of, latest_resolution,
  review_anchor, review_of, lands_review, task_path, lands_task, review_round, answer_round, Route,
  amendment_reason, touched_since, amendment_landed, replan, disposition_route, settle, next_round,
}
use gateline.Prelude.{
  lookup_text, ℕ, suc, ◌+◌, ℤ, pos, ◌+ℤ◌, ltb_ℤ, String, Bool, true, false, not, ◌&&◌, ◌||◌, Option,
  none, some, List, [], ◌∷◌, map, is_some, is_none, leb, ltb, or_else, join, decimal, find_by,
  filter_by, any, is_empty, text_eq, mem_text, if◌then◌else◌,
}
use gateline.Record.Phases.{GateId, g1, Profile, is_patch}
use gateline.Record.State.{TaskEntry, Escalation, RunState, gate_entry, gate_undecided}
use gateline.Record.Artifact.{is_work_item}
use gateline.Record.Phases.{re_review, return_to_implement, re_plan}
use gateline.Sources.Order.{BranchOrder}
use gateline.Orchestrator.Observation.{
  ReviewInfo, TaskFileInfo, OpenDispatch, Validation, RunObservation, Anchor, no_anchor, after,
  anchored, artifact_anchor, resolution_anchor, idle_key,
}
use gateline.Orchestrator.Intents.{
  Rule, d6, d7, d8, d9, d10, d12, d21, d22, d23, dl, db, Bounce, malformed, gate_declined, review,
  amendment, DispatchIntent, DerivedAction, rest, dispatch, escalate, bounce_cap, landing_cap,
  default_estimate, gate_role, gate_artifact, landing_escalation_reason, over_budget_reason,
}

-- ---- D7 and D8: a malformed artifact.

abbrev pub bounces : RunObservation → String → ℕ
bounces obs artifact = or_else (obs.bounce_counts artifact) 0

unfoldable pub dispute_reason : String → ℕ → String
dispute_reason artifact count = join (
    artifact
    ∷ " bounced "
    ∷ decimal count
    ∷ "× and is still malformed — contract dispute, a human should look"
    ∷ [])

unfoldable pub bounce_or_escalate : RunObservation → String → String → Option DerivedAction
bounce_or_escalate obs role artifact = elim (obs.validations artifact) [
  | none ↦ none
  | some v ↦
      if v.passed
      then none
      else if leb bounce_cap (bounces obs artifact)
      then some (escalate d8 (dispute_reason artifact (bounces obs artifact)) (some "escalation"))
      else some (
          gated_dispatch obs (run_wide role (some (malformed artifact v.missing)) artifact ∷ []) d7)
]

-- ---- D9: a decline that the producer has not answered.

abbrev pub undecided_in : Option RunState → GateId → Bool
undecided_in none gate = false
undecided_in (some s) gate = gate_undecided (gate_entry s.gates gate)

unfoldable pub decline_redispatch : RunObservation → GateId → String → String → Option DerivedAction
decline_redispatch obs gate role artifact =
    if not (undecided_in obs.state gate) then none else elim (obs.decline_events gate) [
      | none ↦ none
      | some decline ↦
          if decline.redone
          then none
          else some (
              gated_dispatch obs
                (run_wide role (some (gate_declined gate decline.notes)) artifact ∷ []) d9)
    ]

-- ---- The producing phases.

-- The first answer, or what follows.
abbrev pub or_then : Option DerivedAction → DerivedAction → DerivedAction
or_then (some a) b = a
or_then none b = b

unfoldable pub producer_phase : RunObservation → GateId → DerivedAction
producer_phase obs gate =
    let role = gate_role gate in
    let artifact = gate_artifact gate in
    if role_in_flight obs role
    then rest d12
    else if not (mem_text artifact obs.artifacts)
    then gated_dispatch obs (run_wide role none artifact ∷ []) d6
    else or_then (bounce_or_escalate obs role artifact)
        (or_then (decline_redispatch obs gate role artifact) (rest d10))

unfoldable pub bounce_first : RunObservation → String → List String → Option DerivedAction
bounce_first obs role [] = none
bounce_first obs role (path ∷ paths) = elim (bounce_or_escalate obs role path) [
  | some a ↦ some a
  | none ↦ bounce_first obs role paths
]

abbrev no_work_item_reason : String
no_work_item_reason =
    "patch run has no work item — the human authors tasks/01-*.yaml alongside the intent brief at init"

abbrev pub is_patch_run : Option RunState → Bool
is_patch_run none = false
is_patch_run (some s) = is_patch s.profile

unfoldable pub plan_phase : RunObservation → DerivedAction
plan_phase obs =
    let task_files = filter_by is_work_item obs.artifacts in
    if is_patch_run obs.state
    then (if is_empty task_files
        then escalate d21 no_work_item_reason (some "escalation")
        else rest d10)
    else if role_in_flight obs "architect"
    then rest d12
    else if not (mem_text "plan.md" obs.artifacts) || is_empty task_files
    then gated_dispatch obs (run_wide "architect" none "plan.md" ∷ []) d6
    else or_then (bounce_first obs "architect" ("plan.md" ∷ task_files))
        (or_then (decline_redispatch obs g1 "architect" "plan.md") (rest d10))
