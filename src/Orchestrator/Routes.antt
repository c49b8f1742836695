-- ===== src/Orchestrator/Routes.antt =====
-- Which resolution answers a question, and where its disposition sends a task: `latestResolution` and
-- `dispositionRoute` of packages/orchestrator/src/derive.ts.
use gateline.Orchestrator.Checks.{role_in_flight, gated_dispatch, run_wide}
use gateline.Prelude.{
  lookup_text, ℕ, suc, ◌+◌, String, Bool, true, false, not, ◌||◌, Option, none, some, List, [], ◌∷◌,
  or_else, join, find_by, any, text_eq, if◌then◌else◌,
}
use gateline.Record.State.{TaskEntry, Escalation, RunState}
use gateline.Record.Phases.{re_review, return_to_implement, re_plan}
use gateline.Sources.Order.{BranchOrder}
use gateline.Orchestrator.Observation.{
  ReviewInfo, TaskFileInfo, RunObservation, Anchor, no_anchor, after, anchored, artifact_anchor,
  resolution_anchor,
}
use gateline.Orchestrator.Intents.{
  d12, d22, d23, review, amendment, DispatchIntent, DerivedAction, rest, escalate,
}

-- ---- Resolutions.

pub record Resolution : Type 0 where
  pub entry : Escalation
  pub index : ℕ
  pub at : Anchor

abbrev pub is_newer : BranchOrder → Anchor → Option Resolution → Bool
is_newer order at none = true
is_newer order at (some best) = after order at best.at

-- One round of the walk of `latestResolution`.
unfoldable pub better_resolution :
    RunObservation
    → (String → Bool)
    → Anchor
    → Escalation
    → ℕ
    → Option Resolution
    → Option Resolution
better_resolution obs matches since entry index best =
    let at = resolution_anchor obs index in
    if not entry.resolved || not (matches entry.reason)
    then best
    else if not (anchored at) || not (after obs.order at since)
    then best
    else if is_newer obs.order at best
    then some (record { entry = entry; index = index; at = at })
    else best

unfoldable pub best_resolution :
    RunObservation
    → (String → Bool)
    → Anchor
    → List Escalation
    → ℕ
    → Option Resolution
    → Option Resolution
best_resolution obs matches since [] index best = best
best_resolution obs matches since (e ∷ es) index best =
    best_resolution obs matches since es (suc index)
      (better_resolution obs matches since e index best)

abbrev pub escalations_of : Option RunState → List Escalation
escalations_of none = []
escalations_of (some s) = s.escalations

unfoldable pub latest_resolution : RunObservation → (String → Bool) → Anchor → Option Resolution
latest_resolution obs matches since =
    if anchored since
    then best_resolution obs matches since (escalations_of obs.state) 0 none
    else none

-- Where a review last landed.
unfoldable pub review_anchor : RunObservation → Option ReviewInfo → Anchor
review_anchor obs none = no_anchor
review_anchor obs (some r) = record {
  oid = if text_eq r.path "" then none else obs.last_touched_oid r.path;
  time = r.last_touched;
}

-- ---- Where a resolution's disposition sends a task.

abbrev pub review_of : RunObservation → String → Option ReviewInfo
review_of obs task =
    find_by (λ (r : ReviewInfo). elim r.task [ none ↦ false | some t ↦ text_eq t task ]) obs.reviews

unfoldable pub lands_review : RunObservation → String → String
lands_review obs task = elim (review_of obs task) [ none ↦ "a review report" | some r ↦ r.path ]

abbrev pub task_path : RunObservation → String → Option String
task_path obs task = elim (lookup_text task obs.task_files) [ none ↦ none | some f ↦ some f.path ]

unfoldable pub lands_task : RunObservation → String → String
lands_task obs task = or_else (task_path obs task) (join ("tasks/" ∷ task ∷ ".yaml" ∷ []))

-- The next round of a task: a review, or the implementer's answer.
unfoldable pub review_round : RunObservation → TaskEntry → DispatchIntent
review_round obs t = record {
  role = "reviewer";
  task = some t.id;
  round = some (t.review_rounds + 1);
  bounce = none;
  lands = some (lands_review obs t.id);
}

unfoldable pub answer_round : RunObservation → TaskEntry → String → DispatchIntent
answer_round obs t report = record {
  role = "implementer";
  task = some t.id;
  round = some (t.review_rounds + 1);
  bounce = some (review report);
  lands = some (lands_task obs t.id);
}

pub data Route : Type 0 where
  settle : DerivedAction → Route
  next_round : DispatchIntent → Route

unfoldable pub amendment_reason : String → String
amendment_reason task = join (
    "task " ∷ task
    ∷ ": architect amendment landed for the re-plan disposition — acknowledge to proceed (see plan.md's dated ADR)"
    ∷ [])

abbrev pub touched_since : RunObservation → Anchor → String → Bool
touched_since obs at path = after obs.order (artifact_anchor obs (some path)) at

unfoldable pub amendment_landed : RunObservation → Anchor → Bool
amendment_landed obs at =
    touched_since obs at "plan.md"
    || any (λ (f : String × TaskFileInfo). touched_since obs at f.1.path) obs.task_files

unfoldable pub replan : RunObservation → TaskEntry → String → Resolution → DerivedAction
replan obs t report resolution =
    if role_in_flight obs "architect"
    then rest d12
    else if amendment_landed obs resolution.at
    then escalate d23 (amendment_reason t.id) (some "escalation")
    else gated_dispatch obs
        (run_wide "architect"
            (some (amendment report (or_else resolution.entry.resolution "") t.id)) "plan.md"
          ∷ [])
        d22

unfoldable pub disposition_route : RunObservation → TaskEntry → String → Resolution → Option Route
disposition_route obs t report resolution = elim resolution.entry.disposition [
  | none ↦ none
  | some re_review ↦ some (next_round (review_round obs t))
  | some return_to_implement ↦
      if after obs.order (artifact_anchor obs (task_path obs t.id)) resolution.at
      then some (next_round (review_round obs t))
      else some (next_round (answer_round obs t report))
  | some re_plan ↦ some (settle (replan obs t report resolution))
]
