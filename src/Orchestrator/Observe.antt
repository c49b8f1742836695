-- ===== src/Orchestrator/Observe.antt =====
-- What `observeRun` of packages/orchestrator/src/observe.ts derives from the ledger and the tasks.
pub mod Surfaces
use gateline.Prelude.{
  lookup_text, ℤ, pos, ◌+ℤ◌, String, Bool, true, false, not, ◌&&◌, Option, none, some, List, [],
  ◌∷◌, is_none, is_empty, or_else, text_eq, mem_text, if◌then◌else◌,
}
use gateline.Record.State.{TaskEntry, RunState}
use gateline.Record.Ledger.{BudgetLedgerEntry, is_open_dispatch}
use gateline.Orchestrator.Observation.{OpenDispatch, TaskFileInfo}

abbrev pub working_statuses : List String
working_statuses = "dispatched" ∷ "in-progress" ∷ "in-review" ∷ []

-- The entries with neither a cost nor a failure.
unfoldable pub open_dispatches_of : List BudgetLedgerEntry → List OpenDispatch
open_dispatches_of [] = []
open_dispatches_of (e ∷ es) =
    let rest = open_dispatches_of es in
    if is_open_dispatch e then record { role = e.role; task = e.task; at = e.at } ∷ rest else rest

unfoldable pub closed_sum : List BudgetLedgerEntry → ℤ → ℤ
closed_sum [] total = total
closed_sum (e ∷ es) total = closed_sum es (total +ℤ or_else e.cost_usd (pos 0))

abbrev pub recorded_spend : Option RunState → ℤ
recorded_spend none = pos 0
recorded_spend (some s) = elim s.budget [ none ↦ pos 0 | some b ↦ or_else b.cost_spent_usd (pos 0) ]

-- `ledgerSpentUsd`: the ledger's sum, or the recorded sum of a run with no ledger.
unfoldable pub ledger_spent : Option RunState → List BudgetLedgerEntry → ℤ
unfolding closed_sum
ledger_spent state ledger =
    if is_empty ledger then recorded_spend state else closed_sum ledger (pos 0)

abbrev pub declared_surface : List (String × TaskFileInfo) → TaskEntry → List String
declared_surface task_files t = elim (lookup_text t.id task_files) [
  | none ↦ []
  | some f ↦ f.surface
]

-- `inFlightSurfaces`: the surfaces of the tasks at work, the empty ones left out.
unfoldable pub in_flight_surfaces_of :
    List (String × TaskFileInfo) → List TaskEntry → List (List String)
in_flight_surfaces_of task_files [] = []
in_flight_surfaces_of task_files (t ∷ ts) =
    let rest = in_flight_surfaces_of task_files ts in
    let surface = declared_surface task_files t in
    if mem_text t.status working_statuses && not (is_empty surface) then surface ∷ rest else rest
