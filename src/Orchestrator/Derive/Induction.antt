-- ===== src/Orchestrator/Derive/Induction.antt =====
-- An induction principle for the table: what holds of every rest, every bookkeeping, every escalation
-- that pauses, and every dispatch behind the two checks, holds of the derived action.
use gateline.Orchestrator.Routes.{review_of}
use gateline.Orchestrator.Derive.Tasks.{escalation_answer, route_flow, guarded_review}
use gateline.Prelude.{text_eq}
use gateline.Record.State.{g2_complete}
use gateline.Orchestrator.Intents.{d4}
use gateline.Orchestrator.Derive.Tasks.{in_flight, unknown_status}
use gateline.Prelude.{not, is_empty}
use gateline.Record.Phases.{is_patch}
use gateline.Orchestrator.Intents.{d20, d12, d10}
use gateline.Orchestrator.Derive.Tasks.{all_complete}
use gateline.Prelude.{
  ◌≡◌, refl, Option, none, some, List, [], ◌∷◌, arith, String, if_intro, option_split,
}
use gateline.Record.Phases.{Phase, GateId, spec, plan, implement, integrate, release, Profile}
use gateline.Record.State.{TaskEntry, RunState, Gates}
use gateline.Orchestrator.Observation.{
  RunObservation, ReviewInfo, Verdict, approved, request_changes, escalated,
}
use gateline.Orchestrator.Intents.{
  Rule, DispatchIntent, Bookkeeping, DerivedAction, rest, book, escalate,
}
use gateline.Orchestrator.Routes.{Resolution, Route, settle, next_round, replan, disposition_route}
use gateline.Orchestrator.Checks.{gated_dispatch}
use gateline.Orchestrator.Derive.{
  bounce_or_escalate, decline_redispatch, producer_phase, bounce_first, plan_phase, or_then,
}
use gateline.Orchestrator.Derive.Launches.{Gathered, Flow, go, stop, failed_step, pending_step}
use gateline.Orchestrator.Derive.Tasks.{
  escalated_step, verdict_step, review_step, task_step, task_loop, nothing_gathered,
  verification_phase, after_loop, seed_phase, implement_phase,
}
use gateline.Orchestrator.Derive.Table.{
  route_action, granted_round, granted_action, cap_step, cap_loop, foreign_gate, foreign_phase,
  advance_gate, phase_action, active_action, held, derive_action,
}

-- `P` of the action that an option, a route or a round of the loop may hold.
pub record Maybe (P : DerivedAction → Type 0) (o : Option DerivedAction) : Type 0 where
  pub apply : (a : DerivedAction) → o ≡ some a → P a

pub record Routed (P : DerivedAction → Type 0) (o : Option Route) : Type 0 where
  pub apply : (a : DerivedAction) → o ≡ some (settle a) → P a

pub record Stops (P : DerivedAction → Type 0) (f : Flow) : Type 0 where
  pub apply : (a : DerivedAction) → f ≡ stop a → P a

some-injective : {a b : DerivedAction} → some a ≡ some b → a ≡ b
some-injective e = cc e

-- A property of both kinds of round holds of the match.
pub flow_split {ℓ κ} :
    {B : Type ℓ} (Q : B → Type κ) (f : Flow) {x : DerivedAction → B} {y : Gathered → B}
    → ((a : DerivedAction) → f ≡ stop a → Q (x a))
    → ((g : Gathered) → f ≡ go g → Q (y g))
    → Q (elim f [ stop a ↦ x a | go g ↦ y g ])
flow_split Q (stop a) p q = p a refl
flow_split Q (go g) p q = q g refl

module _ {P : DerivedAction → Type 0} where
  Maybe-none : Maybe P none
  Maybe-none = record { apply = λ a e. cc e }

  Maybe-some : {a : DerivedAction} → P a → Maybe P (some a)
  Maybe-some {a} p = record { apply = λ b e. rw (← some-injective e) p }

  Maybe-or_then : (o : Option DerivedAction) {a : DerivedAction} → Maybe P o → P a → P (or_then o a)
  Maybe-or_then none h k = k
  Maybe-or_then (some b) h k = h.apply b refl

  Stops-go : (g : Gathered) → Stops P (go g)
  Stops-go g = record { apply = λ a e. cc e }

  Stops-stop : {a : DerivedAction} → P a → Stops P (stop a)
  Stops-stop {a} p = record { apply = λ b e. let s : a ≡ b = cc e in rw (← s) p }

module _ (obs : RunObservation) (P : DerivedAction → Type 0) (rests : (r : Rule) → P (rest r))
    (books : (r : Rule) (us : List Bookkeeping) → P (book r us))
    (pauses : (r : Rule) (reason pause : String) → P (escalate r reason (some pause)))
    (gated : (ds : List DispatchIntent) (r : Rule) → P (gated_dispatch obs ds r)) where
  bounce_or_escalate-Maybe :
      (role artifact : String) → Maybe P (bounce_or_escalate obs role artifact)
  unfolding bounce_or_escalate
  bounce_or_escalate-Maybe role artifact =
      option_split (Maybe P) (obs.validations artifact) (λ e. Maybe-none)
        (λ v e.
          if_intro (Maybe P) v.passed Maybe-none
            (if_intro (Maybe P) _ (Maybe-some (pauses _ _ _)) (Maybe-some (gated _ _))))

  decline_redispatch-Maybe :
      (g : GateId) (role artifact : String) → Maybe P (decline_redispatch obs g role artifact)
  unfolding decline_redispatch
  decline_redispatch-Maybe g role artifact = if_intro (Maybe P) _ Maybe-none (
      option_split (Maybe P) (obs.decline_events g) (λ e. Maybe-none)
        (λ d e. if_intro (Maybe P) d.redone Maybe-none (Maybe-some (gated _ _))))

  producer_phase_induction : (g : GateId) → P (producer_phase obs g)
  unfolding producer_phase
  producer_phase_induction g = if_intro P _ (rests _) (
      if_intro P _ (gated _ _) (
        Maybe-or_then _ (bounce_or_escalate-Maybe _ _)
          (Maybe-or_then _ (decline_redispatch-Maybe g _ _) (rests _))))

  bounce_first-Maybe : (role : String) (paths : List String) → Maybe P (bounce_first obs role paths)
  unfolding bounce_first
  bounce_first-Maybe role [] = Maybe-none
  bounce_first-Maybe role (path ∷ paths) =
      option_split (Maybe P) (bounce_or_escalate obs role path) (λ e. bounce_first-Maybe role paths)
        (λ a e. Maybe-some ((bounce_or_escalate-Maybe role path).apply a e))

  plan_phase_induction : P (plan_phase obs)
  unfolding plan_phase
  plan_phase_induction = if_intro P _ (if_intro P _ (pauses _ _ _) (rests _)) (
      if_intro P _ (rests _) (
        if_intro P _ (gated _ _) (
          Maybe-or_then _ (bounce_first-Maybe _ _)
            (Maybe-or_then _ (decline_redispatch-Maybe _ _ _) (rests _)))))

  replan_induction : (t : TaskEntry) (report : String) (r : Resolution) → P (replan obs t report r)
  unfolding replan
  replan_induction t report r = if_intro P _ (rests _) (if_intro P _ (pauses _ _ _) (gated _ _))

  disposition_route-Routed :
      (t : TaskEntry) (report : String) (r : Resolution)
      → Routed P (disposition_route obs t report r)
  unfolding disposition_route
  disposition_route-Routed t report r = record {
    apply = λ a e.
        let same : a ≡ replan obs t report r = ground arith in
        rw same (replan_induction t report r);
  }

  route_action-Maybe : (o : Option Route) → Routed P o → Maybe P (route_action obs o)
  route_action-Maybe none h = Maybe-none
  route_action-Maybe (some (settle a)) h = Maybe-some (h.apply a refl)
  route_action-Maybe (some (next_round d)) h = Maybe-some (gated _ _)

  granted_action-Maybe :
      (s : RunState) (t : TaskEntry) (r : Resolution) → Maybe P (granted_action obs s t r)
  unfolding granted_action
  granted_action-Maybe s t r =
      option_split (Maybe P) (review_of obs t.id) (λ e. Maybe-none)
        (λ v e.
          if_intro (Maybe P) _ (route_action-Maybe _ (disposition_route-Routed t v.path r))
            Maybe-none)

  cap_step-Maybe : (s : RunState) (t : TaskEntry) → Maybe P (cap_step obs s t)
  unfolding cap_step
  cap_step-Maybe s t = if_intro (Maybe P) _ Maybe-none (
      if_intro (Maybe P) _ Maybe-none (
        option_split (Maybe P) (granted_round obs t) (λ e. Maybe-some (pauses _ _ _))
          (λ r e. granted_action-Maybe s t r)))

  cap_loop-Maybe : (s : RunState) (ts : List TaskEntry) → Maybe P (cap_loop obs s ts)
  unfolding cap_loop
  cap_loop-Maybe s [] = Maybe-none
  cap_loop-Maybe s (t ∷ ts) =
      option_split (Maybe P) (cap_step obs s t) (λ e. cap_loop-Maybe s ts)
        (λ a e. Maybe-some ((cap_step-Maybe s t).apply a e))

  failed_step-Stops :
      (s : RunState) (t : TaskEntry) (g : Gathered) → Stops P (failed_step obs s t g)
  unfolding failed_step
  failed_step-Stops s t g = if_intro (Stops P) _ (Stops-stop (books _ _)) (Stops-go _)

  pending_step-Stops :
      (s : RunState) (t : TaskEntry) (g : Gathered) → Stops P (pending_step obs s t g)
  unfolding pending_step
  pending_step-Stops s t g = if_intro (Stops P) _ (Stops-go _) (Stops-go _)

  route_flow-Stops :
      (o : Option Route) (g : Gathered) {x : Flow}
      → Routed P o
      → Stops P x
      → Stops P (route_flow o g x)
  route_flow-Stops none g h k = k
  route_flow-Stops (some (settle a)) g h k = Stops-stop (h.apply a refl)
  route_flow-Stops (some (next_round d)) g h k = Stops-go _

  guarded_review-Stops :
      (t : TaskEntry) (r : ReviewInfo) (g : Gathered) → Stops P (guarded_review obs t r g)
  unfolding guarded_review
  guarded_review-Stops t r g = if_intro (Stops P) _ (Stops-go _) (Stops-stop (rests _))

  escalated_step-Stops :
      (t : TaskEntry) (r : ReviewInfo) (g : Gathered) → Stops P (escalated_step obs t r g)
  unfolding escalated_step
  escalated_step-Stops t r g =
      option_split (Stops P) (escalation_answer obs t r) (λ e. Stops-stop (pauses _ _ _))
        (λ resolution e.
          route_flow-Stops _ g (disposition_route-Routed t r.path resolution)
            (guarded_review-Stops t r g))

  verdict_step-Stops :
      (t : TaskEntry) (r : ReviewInfo) (v : Option Verdict) (g : Gathered)
      → Stops P (verdict_step obs t r v g)
  unfolding verdict_step
  verdict_step-Stops t r none g = Stops-go _
  verdict_step-Stops t r (some approved) g = Stops-go _
  verdict_step-Stops t r (some escalated) g = escalated_step-Stops t r g
  verdict_step-Stops t r (some request_changes) g = Stops-go _

  review_step-Stops : (t : TaskEntry) (g : Gathered) → Stops P (review_step obs t g)
  unfolding review_step
  review_step-Stops t g =
      option_split (Stops P) (review_of obs t.id) (λ e. Stops-go _)
        (λ r e. if_intro (Stops P) _ (Stops-go _) (verdict_step-Stops t r _ g))

  task_step-Stops : (s : RunState) (t : TaskEntry) (g : Gathered) → Stops P (task_step obs s t g)
  unfolding task_step
  task_step-Stops s t g = if_intro (Stops P) (g2_complete t.status) (Stops-go g) (
      if_intro (Stops P) (in_flight obs t) (Stops-go g) (
        if_intro (Stops P) (text_eq t.status "in-progress") (Stops-stop (books _ _)) (
          if_intro (Stops P) (text_eq t.status "failed") (failed_step-Stops s t g) (
            if_intro (Stops P) (text_eq t.status "pending") (pending_step-Stops s t g) (
              if_intro (Stops P) (text_eq t.status "in-review") (review_step-Stops t g)
                (Stops-stop (pauses d4 (unknown_status t.id t.status) "escalation")))))))

  task_loop-Stops :
      (s : RunState) (ts : List TaskEntry) (g : Gathered) → Stops P (task_loop obs s ts g)
  unfolding task_loop
  task_loop-Stops s [] g = Stops-go g
  task_loop-Stops s (t ∷ ts) g =
      flow_split (Stops P) (task_step obs s t g)
        (λ a e. Stops-stop ((task_step-Stops s t g).apply a e)) (λ g' e. task_loop-Stops s ts g')

  verification_phase_induction : P (verification_phase obs)
  unfolding verification_phase
  verification_phase_induction = if_intro P _ (pauses _ _ _) (producer_phase_induction _)

  after_loop_induction : (s : RunState) (g : Gathered) → P (after_loop obs s g)
  unfolding after_loop
  after_loop_induction s g = if_intro P _ (books _ _) (
      if_intro P _ (gated _ _) (
        if_intro P (not (is_empty g.frozen)) (rests d20) (
          if_intro P (not (all_complete s)) (rests d12)
            (if_intro P (is_patch s.profile) (rests d10) verification_phase_induction))))

  implement_phase_induction : (s : RunState) → P (implement_phase obs s)
  unfolding implement_phase seed_phase
  implement_phase_induction s = if_intro P _ (if_intro P _ (pauses _ _ _) (books _ _)) (
      flow_split P (task_loop obs s s.tasks nothing_gathered)
        (λ a e. (task_loop-Stops s s.tasks nothing_gathered).apply a e)
        (λ g e. after_loop_induction s g))

  foreign_gate-Maybe :
      (p : Profile) (gs : Gates) (ids : List GateId) → Maybe P (foreign_gate p gs ids)
  unfolding foreign_gate
  foreign_gate-Maybe p gs [] = Maybe-none
  foreign_gate-Maybe p gs (g ∷ ids) =
      if_intro (Maybe P) _ (Maybe-some (pauses _ _ _)) (foreign_gate-Maybe p gs ids)

  advance_gate-Maybe :
      (p : Profile) (ph : Phase) (gs : Gates) (ids : List GateId)
      → Maybe P (advance_gate p ph gs ids)
  unfolding advance_gate
  advance_gate-Maybe p ph gs [] = Maybe-none
  advance_gate-Maybe p ph gs (g ∷ ids) =
      if_intro (Maybe P) _ (Maybe-some (books _ _)) (advance_gate-Maybe p ph gs ids)

  foreign_phase-Maybe : (p : Profile) (ph : Phase) → Maybe P (foreign_phase p ph)
  unfolding foreign_phase
  foreign_phase-Maybe p ph = if_intro (Maybe P) _ Maybe-none (Maybe-some (pauses _ _ _))

  phase_action_induction : (s : RunState) (ph : Phase) → P (phase_action obs s ph)
  unfolding phase_action
  phase_action_induction s spec = producer_phase_induction _
  phase_action_induction s plan = plan_phase_induction
  phase_action_induction s implement = implement_phase_induction s
  phase_action_induction s integrate = implement_phase_induction s
  phase_action_induction s release = producer_phase_induction _
  phase_action_induction s _ = rests _

  active_action_induction : (s : RunState) → P (active_action obs s)
  unfolding active_action
  active_action_induction s = Maybe-or_then _ (cap_loop-Maybe s s.tasks) (
      Maybe-or_then _ (foreign_gate-Maybe _ _ _) (
        Maybe-or_then _ (foreign_phase-Maybe _ _)
          (Maybe-or_then _ (advance_gate-Maybe _ _ _ _) (phase_action_induction s s.phase))))

  pub derive_induction : P (derive_action obs)
  unfolding derive_action
  derive_induction =
      option_split P obs.state (λ e. rests _)
        (λ s e.
          option_split P (held s s.phase) (λ e'. active_action_induction s) (λ rule e'. rests _))
