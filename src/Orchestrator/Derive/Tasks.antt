-- ===== src/Orchestrator/Derive/Tasks.antt =====
-- The implement and integrate phases: `implementPhase` of packages/orchestrator/src/derive.ts. The body of
-- its loop is a function of the task, and of what the loop has gathered; a task in review (D13 to D17)
-- stands here, and what follows the loop.
use gateline.Orchestrator.Derive.Launches.{
  Gathered, Flow, send, note, failed_step, pending_step, go, stop,
}
use gateline.Prelude.{
  String, Bool, true, false, not, ◌&&◌, ◌||◌, Option, none, some, List, [], ◌∷◌, length, map,
  is_none, ltb, join, any, all, is_empty, text_eq, includes, if◌then◌else◌, text_leb,
}
use gateline.Record.Phases.{g2, is_patch}
use gateline.Record.State.{TaskEntry, RunState, g2_complete}
use gateline.Orchestrator.Observation.{
  Verdict, approved, request_changes, escalated, ReviewInfo, TaskFileInfo, OpenDispatch,
  RunObservation, Anchor, after, artifact_anchor, non_state_anchor,
}
use gateline.Orchestrator.Intents.{
  d4, d10, d11, d12, d13, d16, d17, d19, d20, d24, d25, DispatchIntent, set_status, set_rounds,
  seed_tasks, DerivedAction, rest, book, escalate, verifier_escalation_key,
  verifier_escalation_reason,
}
use gateline.Orchestrator.Routes.{
  Resolution, latest_resolution, review_anchor, review_of, task_path, review_round, answer_round,
  Route, settle, next_round, disposition_route,
}
use gateline.Orchestrator.Checks.{gated_dispatch}
use gateline.Orchestrator.Derive.{producer_phase}

-- ---- D13 to D17: a task in review.

unfoldable pub reviewer_escalated : String → String → String
reviewer_escalated task path = join ("reviewer escalated task " ∷ task ∷ " — see " ∷ path ∷ [])

-- The latest resolution of an escalation that names the task, after the verdict landed.
unfoldable pub escalation_answer : RunObservation → TaskEntry → ReviewInfo → Option Resolution
escalation_answer obs t r =
    latest_resolution obs (λ reason. includes reason (join ("task " ∷ t.id ∷ [])))
      (review_anchor obs (some r))

-- Where a route leads the loop, or `x` where there is none.
abbrev pub route_flow : Option Route → Gathered → Flow → Flow
route_flow none g x = x
route_flow (some (settle action)) g x = stop action
route_flow (some (next_round d)) g x = go (send d g)

-- With no disposition a re-review waits for a commit after the verdict.
unfoldable pub guarded_review : RunObservation → TaskEntry → ReviewInfo → Gathered → Flow
guarded_review obs t r g =
    if after obs.order (non_state_anchor obs) (review_anchor obs (some r))
    then go (send (review_round obs t) g)
    else stop (rest d17)

unfoldable pub escalated_step : RunObservation → TaskEntry → ReviewInfo → Gathered → Flow
unfolding guarded_review
escalated_step obs t r g = elim (escalation_answer obs t r) [
  | none ↦ stop (escalate d17 (reviewer_escalated t.id r.path) (some "escalation"))
  | some resolution ↦
      route_flow (disposition_route obs t r.path resolution) g (guarded_review obs t r g)
]

unfoldable pub answered_step : RunObservation → TaskEntry → ReviewInfo → Gathered → Gathered
answered_step obs t r g =
    if after obs.order (artifact_anchor obs (task_path obs t.id)) (review_anchor obs (some r))
    then send (review_round obs t) g
    else send (answer_round obs t r.path) g

unfoldable pub verdict_step :
    RunObservation → TaskEntry → ReviewInfo → Option Verdict → Gathered → Flow
verdict_step obs t r none g = go (send (review_round obs t) g)
verdict_step obs t r (some approved) g = go (note (set_status t.id "review-approved") g)
verdict_step obs t r (some escalated) g = escalated_step obs t r g
verdict_step obs t r (some request_changes) g = go (answered_step obs t r g)

-- `verdicts[verdicts.length - 1]`.
abbrev pub last_verdict : List Verdict → Option Verdict
last_verdict [] = none
last_verdict (v ∷ []) = some v
last_verdict (v ∷ w ∷ vs) = last_verdict (w ∷ vs)

unfoldable pub review_step : RunObservation → TaskEntry → Gathered → Flow
review_step obs t g = elim (review_of obs t.id) [
  | none ↦ go (send (review_round obs t) g)
  | some r ↦
      if ltb t.review_rounds (length r.verdicts)
      then go (note (set_rounds t.id (length r.verdicts)) g)
      else verdict_step obs t r (last_verdict r.verdicts) g
]

-- ---- The loop.

unfoldable pub unknown_status : String → String → String
unknown_status task status =
    join
      ("task " ∷ task ∷ " has status \"" ∷ status ∷ "\" the derivation table has no rule for" ∷ [])

abbrev pub in_flight : RunObservation → TaskEntry → Bool
in_flight obs t =
    any (λ (d : OpenDispatch). elim d.task [ none ↦ false | some k ↦ text_eq k t.id ])
      obs.open_dispatches
    || text_eq t.status "dispatched"

unfoldable pub task_step : RunObservation → RunState → TaskEntry → Gathered → Flow
task_step obs s t g =
    if g2_complete t.status
    then go g
    else if in_flight obs t
    then go g
    else if text_eq t.status "in-progress"
    then stop (book d25 (set_status t.id "pending" ∷ []))
    else if text_eq t.status "failed"
    then failed_step obs s t g
    else if text_eq t.status "pending"
    then pending_step obs s t g
    else if text_eq t.status "in-review"
    then review_step obs t g
    else stop (escalate d4 (unknown_status t.id t.status) (some "escalation"))

unfoldable pub task_loop : RunObservation → RunState → List TaskEntry → Gathered → Flow
task_loop obs s [] g = go g
task_loop obs s (t ∷ ts) g = elim (task_step obs s t g) [
  | stop action ↦ stop action
  | go g' ↦ task_loop obs s ts g'
]

abbrev pub nothing_gathered : Gathered
nothing_gathered = record { updates = []; dispatches = []; launching = []; frozen = [] }

-- ---- Behind the loop.

abbrev pub all_complete : RunState → Bool
all_complete s = all (λ (t : TaskEntry). g2_complete t.status) s.tasks

abbrev is_escalated : RunObservation → Bool
is_escalated obs = elim obs.verification [
  | none ↦ false
  | some v ↦ elim v.verdict [ some escalated ↦ true | _ ↦ false ]
]

abbrev passes : RunObservation → String → Bool
passes obs path = elim (obs.validations path) [ none ↦ false | some v ↦ v.passed ]

unfoldable pub report_anchor : RunObservation → Anchor
report_anchor obs = record {
  oid = obs.last_touched_oid "verification-report.md";
  time = elim obs.verification [ none ↦ none | some v ↦ v.last_touched ];
}

unfoldable pub verification_phase : RunObservation → DerivedAction
verification_phase obs =
    let addressed =
      latest_resolution obs (λ reason. includes reason verifier_escalation_key)
        (report_anchor obs) in
    if is_escalated obs && passes obs "verification-report.md" && is_none addressed
    then escalate d24 verifier_escalation_reason (some "escalation")
    else producer_phase obs g2

abbrev pub all_reviewers : List DispatchIntent → Bool
all_reviewers ds = all (λ (d : DispatchIntent). text_eq d.role "reviewer") ds

unfoldable pub after_loop : RunObservation → RunState → Gathered → DerivedAction
after_loop obs s g =
    if not (is_empty g.updates)
    then book d16 g.updates
    else if not (is_empty g.dispatches)
    then gated_dispatch obs g.dispatches (if all_reviewers g.dispatches then d13 else d11)
    else if not (is_empty g.frozen)
    then rest d20
    else if not (all_complete s)
    then rest d12
    else if is_patch s.profile
    then rest d10
    else verification_phase obs

-- The names of the task files, sorted.
unfoldable pub insert_text : String → List String → List String
insert_text x [] = x ∷ []
insert_text x (y ∷ ys) = if text_leb x y then x ∷ y ∷ ys else y ∷ insert_text x ys

unfoldable pub sort_texts : List String → List String
unfolding insert_text
sort_texts [] = []
sort_texts (x ∷ xs) = insert_text x (sort_texts xs)

abbrev no_task_files : String
no_task_files =
    "phase is implement but the run has no task files — the G1 packet did not carry into state"

unfoldable pub seed_phase : RunObservation → DerivedAction
seed_phase obs =
    let ids = sort_texts (map (λ (f : String × TaskFileInfo). f.0) obs.task_files) in
    if is_empty ids
    then escalate d4 no_task_files (some "escalation")
    else book d19 (seed_tasks ids ∷ [])

unfoldable pub implement_phase : RunObservation → RunState → DerivedAction
implement_phase obs s =
    if is_empty s.tasks then seed_phase obs else elim (task_loop obs s s.tasks nothing_gathered) [
      | stop action ↦ action
      | go g ↦ after_loop obs s g
    ]
