-- ===== src/Orchestrator/Derive/Loop.antt =====
-- An induction principle for the loop over the tasks of `implementPhase` in
-- packages/orchestrator/src/derive.ts: what every round keeps holds of all that the loop gathers.
use gateline.Prelude.{◌⊎◌, inl, inr}
use gateline.Prelude.{
  ◌≡◌, refl, String, true, false, Option, none, some, List, [], ◌∷◌, ◌++◌, arith, if_intro,
  if_split, option_split, text_eq, all,
}
use gateline.Record.State.{TaskEntry, RunState, g2_complete}
use gateline.Orchestrator.Observation.{
  RunObservation, ReviewInfo, Verdict, approved, request_changes, escalated,
}
use gateline.Orchestrator.Intents.{DispatchIntent, Bookkeeping, DerivedAction}
use gateline.Orchestrator.Routes.{
  review_of, Resolution, Route, settle, next_round, disposition_route, review_round, answer_round,
}
use gateline.Orchestrator.Derive.Launches.{
  Gathered, Flow, go, stop, send, note, dep_complete, depends_on, surface_of, busy, blocked,
  first_round, failed_step, pending_step,
}
use gateline.Orchestrator.Derive.Tasks.{
  escalation_answer, route_flow, guarded_review, escalated_step, answered_step, verdict_step,
  review_step, in_flight, task_step, task_loop,
}
use gateline.Orchestrator.Derive.Induction.{flow_split}

-- What is gathered with the task held back, and with its first round sent.
abbrev pub freeze : TaskEntry → Gathered → Gathered
freeze t g = record g { frozen = g.frozen ++ t.id ∷ [] }

abbrev pub launch : RunObservation → TaskEntry → Gathered → Gathered
launch obs t g = record g {
  launching = g.launching ++ surface_of obs t.id ∷ [];
  dispatches = g.dispatches ++ first_round obs t ∷ [];
}

-- A task that a round may send on: it is neither complete nor in flight.
pub record AtRest (obs : RunObservation) (t : TaskEntry) : Type 0 where
  pub incomplete : g2_complete t.status ≡ false
  pub idle : in_flight obs t ≡ false

-- A task whose first round may be sent.
pub record Launchable (obs : RunObservation) (s : RunState) (t : TaskEntry) (g : Gathered)
    : Type 0 where
  pub ready : all (dep_complete s) (depends_on obs t.id) ≡ true
  pub free : blocked (busy obs g) (surface_of obs t.id) ≡ false

-- `Q` of what a round goes on with.
pub record Goes (Q : Gathered → Type 0) (f : Flow) : Type 0 where
  pub apply : (g : Gathered) → f ≡ go g → Q g

module _ {Q : Gathered → Type 0} where
  Goes-go : {g : Gathered} → Q g → Goes Q (go g)
  Goes-go {g} q = record { apply = λ h e. let same : g ≡ h = cc e in rw (← same) q }

  Goes-stop : (a : DerivedAction) → Goes Q (stop a)
  Goes-stop a = record { apply = λ h e. cc e }

next_round_kind :
    (obs : RunObservation) (t : TaskEntry) (report : String) (r : Resolution) (d : DispatchIntent)
    → disposition_route obs t report r ≡ some (next_round d)
    → (d ≡ review_round obs t) ⊎ (d ≡ answer_round obs t report)
unfolding disposition_route
next_round_kind obs t report r d e = ground arith

module _ (obs : RunObservation) (s : RunState) (Q : Gathered → Type 0)
    (notes : (u : Bookkeeping) (g : Gathered) → Q g → Q (note u g))
    (freezes : (t : TaskEntry) (g : Gathered) → Q g → Q (freeze t g))
    (reviews : (t : TaskEntry) (g : Gathered)
      → AtRest obs t
      → Q g
      → Q (send (review_round obs t) g))
    (answers : (t : TaskEntry) (path : String) (g : Gathered)
      → AtRest obs t
      → Q g
      → Q (send (answer_round obs t path) g))
    (launches : (t : TaskEntry) (g : Gathered)
      → AtRest obs t
      → Launchable obs s t g
      → Q g
      → Q (launch obs t g)) where
  failed_step-Goes : (t : TaskEntry) (g : Gathered) → Q g → Goes Q (failed_step obs s t g)
  unfolding failed_step
  failed_step-Goes t g q = if_intro (Goes Q) _ (Goes-stop _) (Goes-go (freezes t g q))

  pending_step-Goes :
      (t : TaskEntry) (g : Gathered) → AtRest obs t → Q g → Goes Q (pending_step obs s t g)
  unfolding pending_step
  pending_step-Goes t g r q =
      if_split (Goes Q) _ (λ e. Goes-go q)
        (λ e. Goes-go (launches t g r (record { ready = ground arith; free = ground arith }) q))

  route_flow-Goes :
      (o : Option Route) (g : Gathered) {x : Flow}
      → ((d : DispatchIntent) → o ≡ some (next_round d) → Q (send d g))
      → Goes Q x
      → Goes Q (route_flow o g x)
  route_flow-Goes none g h k = k
  route_flow-Goes (some (settle a)) g h k = Goes-stop a
  route_flow-Goes (some (next_round d)) g h k = Goes-go (h d refl)

  next_round-Q :
      (t : TaskEntry) (report : String) (r : Resolution) (g : Gathered) (d : DispatchIntent)
      → AtRest obs t
      → Q g
      → disposition_route obs t report r ≡ some (next_round d)
      → Q (send d g)
  next_round-Q t report r g d a q e = elim (next_round_kind obs t report r d e) [
    | inl same ↦ rw same (reviews t g a q)
    | inr same ↦ rw same (answers t report g a q)
  ]

  guarded_review-Goes :
      (t : TaskEntry) (r : ReviewInfo) (g : Gathered)
      → AtRest obs t
      → Q g
      → Goes Q (guarded_review obs t r g)
  unfolding guarded_review
  guarded_review-Goes t r g a q = if_intro (Goes Q) _ (Goes-go (reviews t g a q)) (Goes-stop _)

  escalated_step-Goes :
      (t : TaskEntry) (r : ReviewInfo) (g : Gathered)
      → AtRest obs t
      → Q g
      → Goes Q (escalated_step obs t r g)
  unfolding escalated_step
  escalated_step-Goes t r g a q =
      option_split (Goes Q) (escalation_answer obs t r) (λ e. Goes-stop _)
        (λ resolution e.
          route_flow-Goes _ g (λ d. next_round-Q t r.path resolution g d a q)
            (guarded_review-Goes t r g a q))

  answered_step-Q :
      (t : TaskEntry) (r : ReviewInfo) (g : Gathered)
      → AtRest obs t
      → Q g
      → Q (answered_step obs t r g)
  unfolding answered_step
  answered_step-Q t r g a q = if_intro Q _ (reviews t g a q) (answers t r.path g a q)

  verdict_step-Goes :
      (t : TaskEntry) (r : ReviewInfo) (v : Option Verdict) (g : Gathered)
      → AtRest obs t
      → Q g
      → Goes Q (verdict_step obs t r v g)
  unfolding verdict_step
  verdict_step-Goes t r none g a q = Goes-go (reviews t g a q)
  verdict_step-Goes t r (some approved) g a q = Goes-go (notes _ g q)
  verdict_step-Goes t r (some escalated) g a q = escalated_step-Goes t r g a q
  verdict_step-Goes t r (some request_changes) g a q = Goes-go (answered_step-Q t r g a q)

  review_step-Goes :
      (t : TaskEntry) (g : Gathered) → AtRest obs t → Q g → Goes Q (review_step obs t g)
  unfolding review_step
  review_step-Goes t g a q =
      option_split (Goes Q) (review_of obs t.id) (λ e. Goes-go (reviews t g a q))
        (λ r e. if_intro (Goes Q) _ (Goes-go (notes _ g q)) (verdict_step-Goes t r _ g a q))

  task_step-Goes : (t : TaskEntry) (g : Gathered) → Q g → Goes Q (task_step obs s t g)
  unfolding task_step
  task_step-Goes t g q =
      if_split (Goes Q) (g2_complete t.status) (λ e. Goes-go q)
        (λ e1.
          if_split (Goes Q) (in_flight obs t) (λ e. Goes-go q)
            (λ e2.
              let a : AtRest obs t = record { incomplete = e1; idle = e2 } in
              if_intro (Goes Q) (text_eq t.status "in-progress") (Goes-stop _) (
                if_intro (Goes Q) (text_eq t.status "failed") (failed_step-Goes t g q) (
                  if_intro (Goes Q) (text_eq t.status "pending") (pending_step-Goes t g a q) (
                    if_intro (Goes Q) (text_eq t.status "in-review") (review_step-Goes t g a q)
                      (Goes-stop _))))))

  pub loop_induction : (ts : List TaskEntry) (g : Gathered) → Q g → Goes Q (task_loop obs s ts g)
  unfolding task_loop
  loop_induction [] g q = Goes-go q
  loop_induction (t ∷ ts) g q =
      flow_split (Goes Q) (task_step obs s t g) (λ a e. Goes-stop _)
        (λ g' e. loop_induction ts g' ((task_step-Goes t g q).apply g' e))
