-- ===== src/Orchestrator/Derive/Launches.antt =====
-- The first part of the loop of `implementPhase` in packages/orchestrator/src/derive.ts: what it gathers,
-- a failed task (D20) and a pending one (D11).
use gateline.Prelude.{
  lookup_text, ℕ, suc, ◌+◌, String, Bool, false, not, ◌&&◌, ◌||◌, Option, none, some, List, [], ◌∷◌,
  ◌++◌, is_some, join, find_by, any, all, is_empty, text_eq, mem_text, includes, if◌then◌else◌,
}
use gateline.Record.State.{TaskEntry, Escalation, RunState, g2_complete}
use gateline.Record.Ledger.{BudgetLedgerEntry}
use gateline.Orchestrator.Observation.{
  TaskFileInfo, RunObservation, Anchor, after, anchored, resolution_anchor, ledger_close_anchor,
}
use gateline.Orchestrator.Intents.{
  d20, DispatchIntent, Bookkeeping, set_status, DerivedAction, book,
}
use gateline.Orchestrator.Routes.{lands_task}

-- What the loop gathers.
pub record Gathered : Type 0 where
  pub updates : List Bookkeeping
  pub dispatches : List DispatchIntent
  pub launching : List (List String)
  pub frozen : List String

-- A round of the loop goes on, or returns from the function.
pub data Flow : Type 0 where
  go : Gathered → Flow
  stop : DerivedAction → Flow

abbrev pub send : DispatchIntent → Gathered → Gathered
send d g = record g { dispatches = g.dispatches ++ d ∷ [] }

abbrev pub note : Bookkeeping → Gathered → Gathered
note u g = record g { updates = g.updates ++ u ∷ [] }

-- ---- D20: a failed task.

abbrev pub failed_on : String → BudgetLedgerEntry → Bool
failed_on task e =
    e.failed
    && text_eq e.role "implementer"
    && elim e.task [ none ↦ false | some t ↦ text_eq t task ]

abbrev pub raise_anchor : RunObservation → Anchor → Option Anchor → Option Anchor
raise_anchor obs closed none = some closed
raise_anchor obs closed (some floor) =
    if after obs.order closed floor then some closed else some floor

-- The latest closing of a failed attempt at the task.
unfoldable pub last_failure :
    RunObservation → String → List BudgetLedgerEntry → ℕ → Option Anchor → Option Anchor
last_failure obs task [] i floor = floor
last_failure obs task (e ∷ es) i floor =
    let closed = ledger_close_anchor obs i in
    last_failure obs task es (suc i)
      (if failed_on task e && anchored closed then raise_anchor obs closed floor else floor)

unfoldable pub failure_key : String → String
failure_key task = join ("(" ∷ task ∷ ")" ∷ [])

unfoldable pub acknowledges : RunObservation → Option Anchor → Escalation → ℕ → Bool
acknowledges obs none e i = is_some e.resolved_at
acknowledges obs (some floor) e i =
    let at = resolution_anchor obs i in anchored at && after obs.order at floor

unfoldable pub acknowledged_from :
    RunObservation → String → Option Anchor → List Escalation → ℕ → Bool
acknowledged_from obs task floor [] i = false
acknowledged_from obs task floor (e ∷ es) i =
    e.resolved && includes e.reason (failure_key task) && acknowledges obs floor e i
    || acknowledged_from obs task floor es (suc i)

unfoldable pub failed_step : RunObservation → RunState → TaskEntry → Gathered → Flow
failed_step obs s t g =
    if acknowledged_from obs t.id (last_failure obs t.id obs.ledger 0 none) s.escalations 0
    then stop (book d20 (set_status t.id "pending" ∷ []))
    else go (record g { frozen = g.frozen ++ t.id ∷ [] })

-- ---- D11: a pending task.

abbrev pub dep_complete : RunState → String → Bool
dep_complete s dep = elim (find_by (λ (t : TaskEntry). text_eq t.id dep) s.tasks) [
  | none ↦ false
  | some t ↦ g2_complete t.status
]

abbrev pub file_of : RunObservation → String → Option TaskFileInfo
file_of obs task = lookup_text task obs.task_files

abbrev pub depends_on : RunObservation → String → List String
depends_on obs task = elim (file_of obs task) [ none ↦ [] | some f ↦ f.depends_on ]

abbrev pub surface_of : RunObservation → String → List String
surface_of obs task = elim (file_of obs task) [ none ↦ [] | some f ↦ f.surface ]

abbrev pub overlaps : List String → List String → Bool
overlaps a b = any (λ p. mem_text p b) a

abbrev pub busy : RunObservation → Gathered → List (List String)
busy obs g = obs.in_flight_surfaces ++ g.launching

unfoldable pub blocked : List (List String) → List String → Bool
blocked surfaces surface =
    any (λ s. overlaps s surface) surfaces || is_empty surface && not (is_empty surfaces)

unfoldable pub first_round : RunObservation → TaskEntry → DispatchIntent
first_round obs t = record {
  role = "implementer";
  task = some t.id;
  round = some (t.review_rounds + 1);
  bounce = none;
  lands = some (lands_task obs t.id);
}

unfoldable pub pending_step : RunObservation → RunState → TaskEntry → Gathered → Flow
pending_step obs s t g =
    let surface = surface_of obs t.id in
    if not (all (dep_complete s) (depends_on obs t.id)) || blocked (busy obs g) surface
    then go g
    else go (record g {
      launching = g.launching ++ surface ∷ [];
      dispatches = g.dispatches ++ first_round obs t ∷ [];
    })
