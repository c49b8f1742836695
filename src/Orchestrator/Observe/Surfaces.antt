-- ===== src/Orchestrator/Observe/Surfaces.antt =====
-- Tasks at work whose files declare no surface are not seen by the serialization of surfaces: from
-- packages/orchestrator/src/observe.ts to rule D11 of packages/orchestrator/src/derive.ts.
use gateline.Prelude.{◌∙◌, Bool-cases, inl, inr}
use gateline.Prelude.{
  ◌≡◌, refl, String, true, false, not, ◌&&◌, List, [], ◌∷◌, All, all, is_empty, mem_text,
}
use gateline.Record.State.{TaskEntry, RunState}
use gateline.Orchestrator.Observation.{RunObservation, TaskFileInfo}
use gateline.Orchestrator.Derive.Launches.{
  go, dep_complete, depends_on, surface_of, blocked, pending_step,
}
use gateline.Orchestrator.Derive.Tasks.{nothing_gathered}
use gateline.Orchestrator.Derive.Loop.{launch}
use gateline.Orchestrator.Observe.{declared_surface, in_flight_surfaces_of, working_statuses}

-- No task at work declares a surface.
abbrev pub NoneDeclared : List (String × TaskFileInfo) → List TaskEntry → Type 0
NoneDeclared task_files ts =
    All
      (λ (t : TaskEntry).
        (mem_text t.status working_statuses && not (is_empty (declared_surface task_files t)))
        ≡ false)
      ts

none_in_flight :
    (task_files : List (String × TaskFileInfo)) (ts : List TaskEntry)
    → NoneDeclared task_files ts
    → in_flight_surfaces_of task_files ts ≡ []
unfolding in_flight_surfaces_of
none_in_flight task_files [] h = refl
none_in_flight task_files (t ∷ ts) h = rw h.0 (none_in_flight task_files ts h.1)

-- Where no task at work declares a surface, the first ready task is launched, whatever its own surface,
-- and also when it declares none itself.
pub undeclared_work_unseen :
    (obs : RunObservation) (s : RunState) (t : TaskEntry)
    → obs.in_flight_surfaces ≡ in_flight_surfaces_of obs.task_files s.tasks
    → NoneDeclared obs.task_files s.tasks
    → all (dep_complete s) (depends_on obs t.id) ≡ true
    → pending_step obs s t nothing_gathered ≡ go (launch obs t nothing_gathered)
unfolding pending_step blocked
undeclared_work_unseen obs s t seen h ready =
    let none_busy : obs.in_flight_surfaces ≡ [] = seen ∙ none_in_flight obs.task_files s.tasks h in
    elim (Bool-cases (is_empty (surface_of obs t.id))) [
      | inl undeclared ↦ rw (ready, none_busy, undeclared) refl
      | inr declared ↦ rw (ready, none_busy, declared) refl
    ]
