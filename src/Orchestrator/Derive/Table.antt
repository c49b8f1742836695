-- ===== src/Orchestrator/Derive/Table.antt =====
-- The table itself: `deriveAction` of packages/orchestrator/src/derive.ts.
use gateline.Prelude.{
  String, Bool, true, false, not, ◌&&◌, Option, none, some, List, [], ◌∷◌, is_some, leb, any, join,
  includes, if◌then◌else◌,
}
use gateline.Record.Phases.{
  Phase, spec, plan, implement, integrate, release, finished, paused, closed, GateId, g0, g1, g2,
  g3, gate_ids, Profile, profile_gates, profile_phases, gate_phases, mem_gate, mem_phase,
  phase_after_gate, round_cap,
}
use gateline.Record.State.{TaskEntry, Escalation, RunState, Gates, gate_entry, g2_complete}
use gateline.Orchestrator.Observation.{Verdict, approved, ReviewInfo, RunObservation}
use gateline.Orchestrator.Intents.{
  Rule, d0, d1, d2, d3, d4, d5, d21, set_phase, DerivedAction, rest, book, escalate,
  round_cap_reason, task_key,
}
use gateline.Orchestrator.Routes.{
  Resolution, latest_resolution, review_anchor, review_of, Route, settle, next_round,
  disposition_route,
}
use gateline.Orchestrator.Checks.{gated_dispatch}
use gateline.Orchestrator.Derive.{producer_phase, plan_phase, or_then}
use gateline.Orchestrator.Derive.Tasks.{last_verdict, implement_phase}

-- ---- D4: the cap on review rounds.

abbrev pub at_cap : TaskEntry → Bool
at_cap t = leb round_cap t.review_rounds && not (g2_complete t.status)

abbrev pub is_approved : Option Verdict → Bool
is_approved (some approved) = true
is_approved _ = false

abbrev pub verdicts_of : Option ReviewInfo → List Verdict
verdicts_of none = []
verdicts_of (some r) = r.verdicts

-- A resolution of the cap's own escalation, newer than the last verdict.
unfoldable pub granted_round : RunObservation → TaskEntry → Option Resolution
granted_round obs t =
    latest_resolution obs (λ reason. includes reason (task_key t.id))
      (review_anchor obs (review_of obs t.id))

abbrev pub tasks_flow : Phase → Bool
tasks_flow implement = true
tasks_flow integrate = true
tasks_flow _ = false

abbrev pub route_action : RunObservation → Option Route → Option DerivedAction
route_action obs none = none
route_action obs (some (settle action)) = some action
route_action obs (some (next_round d)) = some (gated_dispatch obs (d ∷ []) d4)

unfoldable pub granted_action :
    RunObservation → RunState → TaskEntry → Resolution → Option DerivedAction
granted_action obs s t granted = elim (review_of obs t.id) [
  | none ↦ none
  | some r ↦
      if tasks_flow s.phase then route_action obs (disposition_route obs t r.path granted) else none
]

-- One round of the loop: what it returns from the function, if it does.
unfoldable pub cap_step : RunObservation → RunState → TaskEntry → Option DerivedAction
cap_step obs s t =
    if not (at_cap t)
    then none
    else if is_approved (last_verdict (verdicts_of (review_of obs t.id)))
    then none
    else elim (granted_round obs t) [
      | none ↦ some (escalate d4 (round_cap_reason t.id t.review_rounds) (some "round-cap"))
      | some granted ↦ granted_action obs s t granted
    ]

unfoldable pub cap_loop : RunObservation → RunState → List TaskEntry → Option DerivedAction
cap_loop obs s [] = none
cap_loop obs s (t ∷ ts) = elim (cap_step obs s t) [ none ↦ cap_loop obs s ts | some a ↦ some a ]

-- ---- D21: the profile's invariants.

abbrev pub gate_text : GateId → String
gate_text g0 = "G0"
gate_text g1 = "G1"
gate_text g2 = "G2"
gate_text g3 = "G3"

abbrev pub profile_text : Profile → String
profile_text Profile.patch = "patch"
profile_text Profile.standard = "standard"
profile_text Profile.full = "full"

abbrev pub phase_text : Phase → String
phase_text spec = "spec"
phase_text plan = "plan"
phase_text implement = "implement"
phase_text integrate = "integrate"
phase_text release = "release"
phase_text finished = "done"
phase_text paused = "paused"
phase_text closed = "closed"

unfoldable pub foreign_gate_reason : GateId → Profile → String
foreign_gate_reason g p = join (
    "gate "
    ∷ gate_text g
    ∷ " is decided but does not exist in profile "
    ∷ profile_text p
    ∷ " — profiles upgrade mid-run, never downgrade"
    ∷ [])

unfoldable pub foreign_phase_reason : Phase → Profile → String
foreign_phase_reason ph p =
    join ("phase \"" ∷ phase_text ph ∷ "\" does not exist in profile " ∷ profile_text p ∷ [])

unfoldable pub foreign_gate : Profile → Gates → List GateId → Option DerivedAction
foreign_gate p gs [] = none
foreign_gate p gs (g ∷ gates) =
    if not (mem_gate g (profile_gates p)) && is_some (gate_entry gs g).by
    then some (escalate d21 (foreign_gate_reason g p) (some "escalation"))
    else foreign_gate p gs gates

unfoldable pub foreign_phase : Profile → Phase → Option DerivedAction
foreign_phase p ph =
    if mem_phase ph (profile_phases p)
    then none
    else some (escalate d21 (foreign_phase_reason ph p) (some "escalation"))

-- ---- D5: an approved gate whose phase has not moved on.

unfoldable pub advance_gate : Profile → Phase → Gates → List GateId → Option DerivedAction
advance_gate p ph gs [] = none
advance_gate p ph gs (g ∷ gates) =
    if mem_phase ph (gate_phases g) && (gate_entry gs g).approved
    then some (book d5 (set_phase (phase_after_gate g p) ∷ []))
    else advance_gate p ph gs gates

-- ---- The phases.

unfoldable pub phase_action : RunObservation → RunState → Phase → DerivedAction
phase_action obs s spec = producer_phase obs g0
phase_action obs s plan = plan_phase obs
phase_action obs s implement = implement_phase obs s
phase_action obs s integrate = implement_phase obs s
phase_action obs s release = producer_phase obs g3
phase_action obs s _ = rest d0

-- The rules for a run that no human holds: D4, D21, D5, then those of the phase.
unfoldable pub active_action : RunObservation → RunState → DerivedAction
active_action obs s = or_then (cap_loop obs s s.tasks) (
    or_then (foreign_gate s.profile s.gates gate_ids) (
      or_then (foreign_phase s.profile s.phase) (
        or_then (advance_gate s.profile s.phase s.gates (profile_gates s.profile))
          (phase_action obs s s.phase))))

abbrev pub has_open_escalation : RunState → Bool
has_open_escalation s = any (λ (e : Escalation). not e.resolved) s.escalations

-- The rests that come before everything else.
unfoldable pub held : RunState → Phase → Option Rule
held s finished = some d1
held s closed = some d1
held s paused = some d2
held s _ = if has_open_escalation s then some d3 else none

unfoldable pub state_action : RunObservation → RunState → DerivedAction
state_action obs s = elim (held s s.phase) [ some rule ↦ rest rule | none ↦ active_action obs s ]

unfoldable pub derive_action : RunObservation → DerivedAction
unfolding state_action
derive_action obs = elim obs.state [ none ↦ rest d0 | some s ↦ state_action obs s ]
