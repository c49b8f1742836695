-- ===== src/Orchestrator/Derive/Keys.antt =====
-- How rule D17 of packages/orchestrator/src/derive.ts finds the escalation of a task: by `task <id>` in
-- its reason, with nothing behind the id.
use text.Mathlib.TextLemmas.{append_assoc, append-nil}
use Prim.Native.String.{◌++◌}
use gateline.Prelude.{
  ℕ, ◌≡◌, sym, ◌∙◌, ap, String, true, some, is_some, get_elem?, includes, join,
  includes-append_left, includes-append_right, [], ◌∷◌,
}
use gateline.Record.State.{Escalation, TaskEntry}
use gateline.Orchestrator.Observation.{
  RunObservation, ReviewInfo, after, anchored, resolution_anchor,
}
use gateline.Orchestrator.Routes.{escalations_of, review_anchor}
use gateline.Orchestrator.Derive.Tasks.{reviewer_escalated, escalation_answer}
use gateline.Orchestrator.Derive.Answers.{latest_resolution_complete}

abbrev named : String → String
named task = join ("task " ∷ task ∷ [])

includes-reviewer_escalated :
    (task more path : String)
    → includes (reviewer_escalated (task ++ more) path) (named task) ≡ true
unfolding reviewer_escalated
includes-reviewer_escalated task more path =
    let tail : String = " — see " ++ (path ++ "") in
    let key : String = named task in
    let front : "task " ++ ((task ++ more) ++ tail) ≡ key ++ (more ++ tail) =
      ap (λ r. "task " ++ r) (append_assoc task more tail)
      ∙ sym (append_assoc "task " task (more ++ tail))
      ∙ ap (λ r. ("task " ++ r) ++ (more ++ tail)) (sym (append-nil task)) in
    let whole : reviewer_escalated (task ++ more) path
        ≡ "reviewer escalated " ++ (key ++ (more ++ tail)) =
      append_assoc "reviewer escalated " "task " ((task ++ more) ++ tail)
      ∙ ap (λ r. "reviewer escalated " ++ r) front in
    rw whole (
      includes-append_right "reviewer escalated " (key ++ (more ++ tail)) key
        (includes-append_left key (more ++ tail)))

-- A resolved escalation that a reviewer raised on a task, after the verdict, answers the verdict of any
-- task whose id the escalated id starts with: of the task itself, where nothing follows, and of another
-- task where something does.
pub escalation_answer_by_prefix :
    (obs : RunObservation) (t : TaskEntry) (r : ReviewInfo) (more path : String) (k : ℕ)
    (e : Escalation)
    → anchored (review_anchor obs (some r)) ≡ true
    → get_elem? (escalations_of obs.state) k ≡ some e
    → e.resolved ≡ true
    → e.reason ≡ reviewer_escalated (t.id ++ more) path
    → anchored (resolution_anchor obs k) ≡ true
    → after obs.order (resolution_anchor obs k) (review_anchor obs (some r)) ≡ true
    → is_some (escalation_answer obs t r) ≡ true
unfolding escalation_answer
escalation_answer_by_prefix obs t r more path k e s l h m a n =
    latest_resolution_complete obs (λ reason. includes reason (named t.id))
      (review_anchor obs (some r)) k e s l h (rw m (includes-reviewer_escalated t.id more path)) a n
