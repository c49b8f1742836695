-- ===== src/Orchestrator/Derive/Rounds.antt =====
-- The rounds that the loop over the tasks sends, and the surfaces that no task file declares: rules D11
-- to D17 of packages/orchestrator/src/derive.ts.
use gateline.Prelude.{
  ◌≡◌, refl, String, Bool, true, false, none, some, List, [], ◌∷◌, All, All-append, arith, any, all,
  is_empty, text_eq,
}
use gateline.Record.State.{TaskEntry, RunState}
use gateline.Orchestrator.Observation.{RunObservation, OpenDispatch}
use gateline.Orchestrator.Intents.{DispatchIntent}
use gateline.Orchestrator.Routes.{review_round, answer_round}
use gateline.Orchestrator.Derive.Launches.{
  Gathered, go, dep_complete, depends_on, surface_of, overlaps, busy, blocked, first_round,
  pending_step,
}
use gateline.Orchestrator.Derive.Tasks.{task_loop, nothing_gathered}
use gateline.Orchestrator.Derive.Loop.{AtRest, launch, loop_induction}

-- Some dispatch on the task is open.
abbrev pub open_on : RunObservation → String → Bool
open_on obs task =
    any (λ (d : OpenDispatch). elim d.task [ none ↦ false | some k ↦ text_eq k task ])
      obs.open_dispatches

-- A dispatch on a task on which none is open.
pub record SendsIdle (obs : RunObservation) (d : DispatchIntent) : Type 0 where
  pub task : String
  pub named : d.task ≡ some task
  pub idle : open_on obs task ≡ false

AtRest-SendsIdle :
    (obs : RunObservation) (t : TaskEntry) (d : DispatchIntent)
    → d.task ≡ some t.id
    → AtRest obs t
    → SendsIdle obs d
AtRest-SendsIdle obs t d e a =
    let idle = a.idle in record { task = t.id; named = e; idle = ground arith }

-- Each dispatch that the loop gathers is on a task, and no dispatch on that task is open.
pub loop-SendsIdle :
    (obs : RunObservation) (s : RunState) (ts : List TaskEntry) (g : Gathered)
    → task_loop obs s ts nothing_gathered ≡ go g
    → All (SendsIdle obs) g.dispatches
unfolding review_round answer_round first_round
loop-SendsIdle obs s ts g e =
    (loop_induction obs s (λ h. All (SendsIdle obs) h.dispatches) (λ u h p. p) (λ t h p. p)
        (λ t h a p.
          All-append (SendsIdle obs) h.dispatches _ p (AtRest-SendsIdle obs t _ refl a, tt))
        (λ t path h a p.
          All-append (SendsIdle obs) h.dispatches _ p (AtRest-SendsIdle obs t _ refl a, tt))
        (λ t h a l p.
          All-append (SendsIdle obs) h.dispatches _ p (AtRest-SendsIdle obs t _ refl a, tt))
        ts nothing_gathered tt).apply
      g e

no_overlap :
    (surfaces : List (List String)) (s : List String)
    → all is_empty surfaces ≡ true
    → any (λ o. overlaps o s) surfaces ≡ false
no_overlap [] s h = refl
no_overlap ([] ∷ os) s h = no_overlap os s h
no_overlap ((p ∷ o) ∷ os) s h = cc h

-- A task that declares a surface is launched beside tasks that declare none: where its dependencies are
-- complete and every surface that is busy is undeclared, nothing holds its first round back.
pub undeclared_surface_holds_nothing :
    (obs : RunObservation) (s : RunState) (t : TaskEntry) (g : Gathered)
    → all (dep_complete s) (depends_on obs t.id) ≡ true
    → is_empty (surface_of obs t.id) ≡ false
    → all is_empty (busy obs g) ≡ true
    → pending_step obs s t g ≡ go (launch obs t g)
unfolding pending_step blocked
undeclared_surface_holds_nothing obs s t g ready declared undeclared =
    let apart = no_overlap (busy obs g) (surface_of obs t.id) undeclared in
    rw ready (rw declared (rw apart refl))
