-- ===== src/Examples/Tasks.antt =====
-- The loop over the tasks and the resolutions it reads, in packages/orchestrator/src/derive.ts, on
-- sample observations.
use gateline.Prelude.{
  ◌≡◌, refl, String, Bool, true, none, some, List, [], ◌∷◌, All, map, all, is_some,
}
use gateline.Record.Phases.{implement}
use gateline.Record.State.{RunState, TaskEntry, Escalation}
use gateline.Sources.Order.{
  StateCommit, resolution_commits_of, walk_history, mark_slots, mark_slot, branch_order,
  index_commits, position, branch_after,
}
use gateline.Orchestrator.Observation.{
  RunObservation, TaskFileInfo, ReviewInfo, escalated, Anchor, after, resolution_anchor,
  commit_anchor,
}
use gateline.Orchestrator.Intents.{round_cap_reason}
use gateline.Orchestrator.Routes.{
  Resolution, latest_resolution, best_resolution, better_resolution, review_anchor,
}
use gateline.Orchestrator.Derive.Launches.{
  Gathered, go, pending_step, blocked, surface_of, dep_complete, depends_on,
}
use gateline.Orchestrator.Derive.Tasks.{
  task_loop, task_step, nothing_gathered, escalation_answer, reviewer_escalated,
}
use gateline.Orchestrator.Derive.Table.{granted_round}
use gateline.Orchestrator.Derive.Loop.{launch}
use gateline.Orchestrator.Derive.Launching.{
  Separate, launched, launched_surfaces_apart, launched_dependencies_complete,
}
use gateline.Orchestrator.Derive.Rounds.{
  SendsIdle, loop-SendsIdle, undeclared_surface_holds_nothing,
}
use gateline.Orchestrator.Derive.Answers.{
  IsAnswer, latest_resolution_sound, latest_resolution_complete, round_cap_lifted,
}
use gateline.Orchestrator.Derive.Agreement.{granted_another_round-granted_round}
use gateline.View.Readiness.{granted_another_round}
use gateline.Orchestrator.Derive.Keys.{escalation_answer_by_prefix}
use gateline.Examples.{planning, observed, question, noon, commit}

abbrev pending_task : String → TaskEntry
pending_task id = record { id = id; status = "pending"; review_rounds = 0 }

abbrev two_tasks : RunState
two_tasks = record planning {
  phase = implement;
  escalations = [];
  tasks = pending_task "01" ∷ pending_task "02" ∷ [];
}

abbrev task_file : String → List String → TaskFileInfo
task_file path surface = record { path = path; surface = surface; depends_on = [] }

abbrev implementing : RunObservation
implementing = record (observed two_tasks) {
  task_files =
      ("01", task_file "tasks/01.yaml" ("src/a.ts" ∷ []))
      ∷ ("02", task_file "tasks/02.yaml" ("src/b.ts" ∷ []))
      ∷ [];
}

abbrev both : Gathered
both =
    launch implementing (pending_task "02")
      (launch implementing (pending_task "01") nothing_gathered)

both_launched : task_loop implementing two_tasks two_tasks.tasks nothing_gathered ≡ go both
unfolding task_loop task_step pending_step blocked
both_launched = refl

launched_surfaces_apart_example :
    Separate implementing.in_flight_surfaces
      (map (surface_of implementing) (launched both.dispatches))
launched_surfaces_apart_example =
    launched_surfaces_apart implementing two_tasks two_tasks.tasks both both_launched

launched_dependencies_complete_example :
    All
      (λ task. all (dep_complete two_tasks) (depends_on implementing task) ≡ true)
      (launched both.dispatches)
launched_dependencies_complete_example =
    launched_dependencies_complete implementing two_tasks two_tasks.tasks both both_launched

loop-SendsIdle_example : All (SendsIdle implementing) both.dispatches
loop-SendsIdle_example = loop-SendsIdle implementing two_tasks two_tasks.tasks both both_launched

-- The first task declares no surface and has been launched.
abbrev undeclared : RunObservation
undeclared = record (observed two_tasks) {
  task_files =
      ("01", task_file "tasks/01.yaml" [])
      ∷ ("02", task_file "tasks/02.yaml" ("src/b.ts" ∷ []))
      ∷ [];
}

abbrev first_launched : Gathered
first_launched = launch undeclared (pending_task "01") nothing_gathered

undeclared_surface_holds_nothing_example :
    pending_step undeclared two_tasks (pending_task "02") first_launched
    ≡ go (launch undeclared (pending_task "02") first_launched)
undeclared_surface_holds_nothing_example =
    undeclared_surface_holds_nothing undeclared two_tasks (pending_task "02") first_launched refl
      refl refl

-- A task at its cap, and its escalation resolved one commit after the review.
abbrev capped : TaskEntry
capped = record { id = "1"; status = "in-review"; review_rounds = 3 }

abbrev resolved_with : String → Escalation
resolved_with reason = record question {
  reason = reason;
  resolved = true;
  resolved_by = some "ada";
  resolved_at = some noon;
  resolution = some "go on";
}

abbrev reviewed : ReviewInfo
reviewed = record {
  path = "review-1.md";
  task = some "1";
  verdicts = escalated ∷ [];
  last_touched = none;
}

abbrev resolved_after_review : String → RunObservation
resolved_after_review reason =
    record (observed (record planning {
      phase = implement;
      tasks = capped ∷ [];
      escalations = resolved_with reason ∷ [];
    })) {
      reviews = reviewed ∷ [];
      last_touched_oid = λ path. some "c1";
      order = branch_order (commit "c2" 300 ∷ commit "c1" 200 ∷ []);
      resolution_commits = some (commit "c2" 300) ∷ [];
    }

abbrev cap_obs : RunObservation
cap_obs = resolved_after_review (round_cap_reason "1" 3)

round_cap_lifted_example : is_some (granted_round cap_obs capped) ≡ true
unfolding review_anchor resolution_anchor commit_anchor after branch_after position branch_order
    index_commits
round_cap_lifted_example =
    round_cap_lifted cap_obs capped 3 0 (resolved_with (round_cap_reason "1" 3)) refl refl refl refl
      refl refl

abbrev dated_obs : RunObservation
dated_obs = record cap_obs { reviews = (record reviewed { last_touched = some 200000 }) ∷ [] }

abbrev cap_history : List StateCommit
cap_history = (record { commit = commit "c2" 300; state = cap_obs.state }) ∷ []

granted_another_round-granted_round_example :
    granted_another_round dated_obs.order cap_history
      (resolved_with (round_cap_reason "1" 3) ∷ [])
      "1"
      (some (commit "c1" 200))
    ≡ is_some (granted_round dated_obs capped)
unfolding resolution_commits_of walk_history mark_slots mark_slot review_anchor branch_after
    position branch_order index_commits
granted_another_round-granted_round_example =
    granted_another_round-granted_round dated_obs capped cap_history (commit "c1" 200) refl refl
      refl

abbrev any_reason : String → Bool
any_reason reason = true

abbrev review_at : Anchor
review_at = record { oid = some "c1"; time = none }

latest_resolution_complete_example : is_some (latest_resolution cap_obs any_reason review_at) ≡ true
unfolding resolution_anchor commit_anchor after branch_after position branch_order index_commits
latest_resolution_complete_example =
    latest_resolution_complete cap_obs any_reason review_at 0
      (resolved_with (round_cap_reason "1" 3)) refl refl refl refl refl refl

abbrev answer : Resolution
answer = record {
  entry = resolved_with (round_cap_reason "1" 3);
  index = 0;
  at = record { oid = some "c2"; time = some 300000 };
}

answer_found : latest_resolution cap_obs any_reason review_at ≡ some answer
unfolding latest_resolution best_resolution better_resolution resolution_anchor commit_anchor after
    branch_after position branch_order index_commits
answer_found = refl

latest_resolution_sound_example : IsAnswer cap_obs any_reason review_at answer
latest_resolution_sound_example =
    latest_resolution_sound cap_obs any_reason review_at answer answer_found

-- The escalation of task 10 answers the verdict on task 1.
abbrev other_obs : RunObservation
other_obs = resolved_after_review (reviewer_escalated "10" "review-10.md")

escalation_answer_by_prefix_example : is_some (escalation_answer other_obs capped reviewed) ≡ true
unfolding review_anchor resolution_anchor commit_anchor after branch_after position branch_order
    index_commits
escalation_answer_by_prefix_example =
    escalation_answer_by_prefix other_obs capped reviewed "0" "review-10.md" 0
      (resolved_with (reviewer_escalated "10" "review-10.md")) refl refl refl refl refl refl
