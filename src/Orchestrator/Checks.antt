-- ===== src/Orchestrator/Checks.antt =====
-- The checks that wrap a dispatch, DL and DB: `gatedDispatch` of packages/orchestrator/src/derive.ts.
use gateline.Prelude.{
  ℕ, ℤ, pos, ◌+ℤ◌, ltb_ℤ, String, Bool, Option, none, some, List, [], ◌∷◌, map, leb, or_else, any,
  text_eq, if◌then◌else◌,
}
use gateline.Record.State.{RunState}
use gateline.Orchestrator.Observation.{OpenDispatch, RunObservation, idle_key}
use gateline.Orchestrator.Intents.{
  Rule, dl, db, Bounce, DispatchIntent, DerivedAction, dispatch, escalate, landing_cap,
  default_estimate, landing_escalation_reason, over_budget_reason,
}

-- ---- The two checks before a dispatch: DL, then DB.

abbrev pub idle_count : RunObservation → DispatchIntent → ℕ
idle_count obs d = or_else (obs.idle_dispatches (idle_key d.role d.task)) 0

-- The first dispatch whose role has returned without landing what it was sent for.
unfoldable pub landing_check : RunObservation → List DispatchIntent → Option String
landing_check obs [] = none
landing_check obs (d ∷ ds) = elim d.lands [
  | none ↦ landing_check obs ds
  | some artifact ↦
      if leb landing_cap (idle_count obs d)
      then some (landing_escalation_reason d.role d.task (idle_count obs d) artifact)
      else landing_check obs ds
]

abbrev pub estimate : RunObservation → String → ℤ
estimate obs role = or_else (obs.estimates role) default_estimate

unfoldable pub sum_estimates : RunObservation → List String → ℤ → ℤ
sum_estimates obs [] total = total
sum_estimates obs (role ∷ roles) total = sum_estimates obs roles (total +ℤ estimate obs role)

-- The ledger, and the estimates of what is open and of what is about to be.
unfoldable pub projected : RunObservation → List DispatchIntent → ℤ
unfolding sum_estimates
projected obs ds =
    let open_projected =
      sum_estimates obs (map (λ (d : OpenDispatch). d.role) obs.open_dispatches) (pos 0) in
    let new_projected = sum_estimates obs (map (λ (d : DispatchIntent). d.role) ds) (pos 0) in
    obs.ledger_spent_usd +ℤ open_projected +ℤ new_projected

abbrev pub cost_limit : Option RunState → Option ℤ
cost_limit none = none
cost_limit (some s) = elim s.budget [ none ↦ none | some b ↦ b.cost_limit_usd ]

abbrev pub enforced_limit : RunObservation → Option ℤ
enforced_limit obs = if obs.enforce_budget then cost_limit obs.state else none

unfoldable pub budget_check : RunObservation → List DispatchIntent → Option String
budget_check obs ds = elim (enforced_limit obs) [
  | none ↦ none
  | some limit ↦
      if ltb_ℤ limit (projected obs ds)
      then some (over_budget_reason (projected obs ds) obs.ledger_spent_usd limit)
      else none
]

unfoldable pub gated_dispatch : RunObservation → List DispatchIntent → Rule → DerivedAction
gated_dispatch obs ds rule = elim (landing_check obs ds) [
  | some reason ↦ escalate dl reason (some "escalation")
  | none ↦ elim (budget_check obs ds) [
    | some reason ↦ escalate db reason (some "budget-exhausted")
    | none ↦ dispatch rule ds
  ]
]

-- A dispatch of a role with no task.
abbrev pub run_wide : String → Option Bounce → String → DispatchIntent
run_wide role bounce lands = record {
  role = role;
  task = none;
  round = none;
  bounce = bounce;
  lands = some lands;
}

abbrev pub role_in_flight : RunObservation → String → Bool
role_in_flight obs role = any (λ (d : OpenDispatch). text_eq d.role role) obs.open_dispatches
