-- ===== src/Orchestrator/Derive/Launching.antt =====
-- What the loop over the tasks launches: rule D11 of packages/orchestrator/src/derive.ts, the
-- serialization of file-contact surfaces and the dependencies of a task.
use mathlib.Core.List.{append_assoc, append-nil}
use gateline.Prelude.{
  ◌≡◌, refl, sym, ap, ◌∙◌, String, true, false, ◌&&◌, none, some, List, [], ◌∷◌, ◌++◌, map, All,
  All-append, arith, any, all, is_none, text_eq, mem_text, if◌then◌else◌,
}
use gateline.Record.State.{TaskEntry, RunState}
use gateline.Orchestrator.Observation.{RunObservation}
use gateline.Orchestrator.Intents.{DispatchIntent}
use gateline.Orchestrator.Routes.{review_round, answer_round}
use gateline.Orchestrator.Derive.Launches.{
  Gathered, go, send, dep_complete, depends_on, surface_of, overlaps, busy, blocked, first_round,
}
use gateline.Orchestrator.Derive.Tasks.{task_loop, nothing_gathered}
use gateline.Orchestrator.Derive.Loop.{Goes, Launchable, launch, loop_induction}

-- No path of the first list stands in the second.
abbrev pub Apart : List String → List String → Type 0
Apart xs ys = All (λ p. mem_text p ys ≡ false) xs

-- Each surface, in its turn, is apart from those that are busy and from those before it.
abbrev pub Separate : List (List String) → List (List String) → Type 0
Separate others [] = Unit
Separate others (s ∷ ss) = All (λ o. Apart o s) others × Separate (others ++ s ∷ []) ss

-- The tasks whose first round, or a round with no review to answer, the implementer is sent on.
abbrev pub launched_task : DispatchIntent → List String
launched_task d =
    if text_eq d.role "implementer" && is_none d.bounce
    then elim d.task [ none ↦ [] | some t ↦ t ∷ [] ]
    else []

abbrev pub launched : List DispatchIntent → List String
launched [] = []
launched (d ∷ ds) = launched_task d ++ launched ds

launched-snoc :
    (ds : List DispatchIntent) (d : DispatchIntent)
    → launched (ds ++ d ∷ []) ≡ launched ds ++ launched_task d
launched-snoc [] d = append-nil _
launched-snoc (e ∷ ds) d =
    rw (launched-snoc ds d) (sym (append_assoc (launched_task e) (launched ds) (launched_task d)))

map-snoc :
    {A B : Type 0} (f : A → B) (xs : List A) (x : A) → map f (xs ++ x ∷ []) ≡ map f xs ++ f x ∷ []
map-snoc f [] x = refl
map-snoc f (y ∷ ys) x = ap (λ r. f y ∷ r) (map-snoc f ys x)

Separate-snoc :
    (others news : List (List String)) (s : List String)
    → Separate others news
    → All (λ o. Apart o s) (others ++ news)
    → Separate others (news ++ s ∷ [])
Separate-snoc others [] s h k = (rw (← append-nil others) k, tt)
Separate-snoc others (n ∷ news) s h k =
    (h.0, Separate-snoc (others ++ n ∷ []) news s h.1 (rw (append_assoc others (n ∷ []) news) k))

overlaps-Apart : (xs ys : List String) → overlaps xs ys ≡ false → Apart xs ys
overlaps-Apart [] ys h = tt
overlaps-Apart (x ∷ xs) ys h = (ground arith, overlaps-Apart xs ys (ground arith))

no_overlap-All :
    (surfaces : List (List String)) (s : List String)
    → any (λ o. overlaps o s) surfaces ≡ false
    → All (λ o. Apart o s) surfaces
no_overlap-All [] s h = tt
no_overlap-All (o ∷ os) s h =
    (overlaps-Apart o s (ground arith), no_overlap-All os s (ground arith))

blocked-Apart :
    (surfaces : List (List String)) (s : List String)
    → blocked surfaces s ≡ false
    → All (λ o. Apart o s) surfaces
unfolding blocked
blocked-Apart surfaces s h = no_overlap-All surfaces s (ground arith)

-- What holds of all that is gathered.
record Planned (obs : RunObservation) (s : RunState) (g : Gathered) : Type 0 where
  separate : Separate obs.in_flight_surfaces g.launching
  surfaces : g.launching ≡ map (surface_of obs) (launched g.dispatches)
  ready : All (λ task. all (dep_complete s) (depends_on obs task) ≡ true) (launched g.dispatches)

-- A round that launches nothing keeps it.
Planned-send :
    (obs : RunObservation) (s : RunState) (d : DispatchIntent) (g : Gathered)
    → launched_task d ≡ []
    → Planned obs s g
    → Planned obs s (send d g)
Planned-send obs s d g e p =
    let same : launched (g.dispatches ++ d ∷ []) ≡ launched g.dispatches =
      launched-snoc g.dispatches d ∙ ap (λ r. launched g.dispatches ++ r) e ∙ append-nil _ in
    record { separate = p.separate; surfaces = rw same p.surfaces; ready = rw same p.ready }

Planned-launch :
    (obs : RunObservation) (s : RunState) (t : TaskEntry) (g : Gathered)
    → Launchable obs s t g
    → Planned obs s g
    → Planned obs s (launch obs t g)
unfolding first_round
Planned-launch obs s t g l p =
    let same : launched (g.dispatches ++ first_round obs t ∷ [])
        ≡ launched g.dispatches ++ t.id ∷ [] =
      launched-snoc g.dispatches (first_round obs t) in
    record {
      separate =
          Separate-snoc obs.in_flight_surfaces g.launching (surface_of obs t.id) p.separate
            (blocked-Apart (busy obs g) (surface_of obs t.id) l.free);
      surfaces = rw same (
          ap (λ r. r ++ surface_of obs t.id ∷ []) p.surfaces
          ∙ sym (map-snoc (surface_of obs) (launched g.dispatches) t.id));
      ready = rw same (All-append _ (launched g.dispatches) (t.id ∷ []) p.ready (l.ready, tt));
    }

loop-Planned :
    (obs : RunObservation) (s : RunState) (ts : List TaskEntry)
    → Goes (Planned obs s) (task_loop obs s ts nothing_gathered)
unfolding review_round answer_round
loop-Planned obs s ts =
    loop_induction obs s (Planned obs s)
      (λ u g p. record { separate = p.separate; surfaces = p.surfaces; ready = p.ready })
      (λ t g p. record { separate = p.separate; surfaces = p.surfaces; ready = p.ready })
      (λ t g a p. Planned-send obs s (review_round obs t) g refl p)
      (λ t path g a p. Planned-send obs s (answer_round obs t path) g refl p)
      (λ t g a l p. Planned-launch obs s t g l p) ts nothing_gathered
      (record { separate = tt; surfaces = refl; ready = tt })

-- The implementers that the loop launches can work side by side: the surface of each shares no path
-- with one that is in flight, nor with one launched before it.
pub launched_surfaces_apart :
    (obs : RunObservation) (s : RunState) (ts : List TaskEntry) (g : Gathered)
    → task_loop obs s ts nothing_gathered ≡ go g
    → Separate obs.in_flight_surfaces (map (surface_of obs) (launched g.dispatches))
launched_surfaces_apart obs s ts g e =
    let p = (loop-Planned obs s ts).apply g e in rw (← p.surfaces) p.separate

-- Where the loop sends the implementer on a task with no review to answer, every dependency of the task
-- is the id of a task of the state whose status counts as complete.
pub launched_dependencies_complete :
    (obs : RunObservation) (s : RunState) (ts : List TaskEntry) (g : Gathered)
    → task_loop obs s ts nothing_gathered ≡ go g
    → All (λ task. all (dep_complete s) (depends_on obs task) ≡ true) (launched g.dispatches)
launched_dependencies_complete obs s ts g e = ((loop-Planned obs s ts).apply g e).ready
