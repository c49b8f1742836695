-- ===== src/Orchestrator/Idle.antt =====
-- The landing counters: `idleDispatchCounts` of packages/orchestrator/src/observe.ts, for each role and
-- task the dispatches that closed without landing what they were sent for.
pub mod Counting
use gateline.Prelude.{
  lookup_text, ℕ, suc, ◌+◌, String, Bool, true, false, not, ◌&&◌, ◌||◌, Option, none, some, List,
  [], ◌∷◌, ◌++◌, is_some, is_none, or_else, get_elem?, text_eq, includes, if◌then◌else◌,
}
use gateline.Record.Phases.{GateId, g0, g1, g2, g3}
use gateline.Record.State.{Escalation}
use gateline.Record.Ledger.{BudgetLedgerEntry}
use gateline.Sources.Order.{CommitInfo, BranchOrder}
use gateline.Orchestrator.Observation.{
  ReviewInfo, TaskFileInfo, LedgerCommits, Anchor, after, anchored, commit_anchor, iso_time,
  at_index, idle_key,
}
use gateline.Orchestrator.Intents.{gate_role, gate_artifact, landing_escalation_key}

pub record IdleInput : Type 0 where
  pub ledger : List BudgetLedgerEntry
  pub reviews : List ReviewInfo
  pub task_files : List (String × TaskFileInfo)
  pub last_touched : String → Option ℕ
  pub escalations : List Escalation
  pub order : BranchOrder
  pub last_touched_oid : String → Option String
  pub ledger_commits : List LedgerCommits
  pub resolution_commits : List (Option CommitInfo)

-- `producerArtifact`: the artifact of the gate whose producer the role is.
abbrev pub produced_by : String → List GateId → List String
produced_by role [] = []
produced_by role (g ∷ gates) =
    if text_eq (gate_role g) role then gate_artifact g ∷ [] else produced_by role gates

abbrev pub reviews_of : String → List ReviewInfo → List String
reviews_of task [] = []
reviews_of task (r ∷ rs) =
    let rest = reviews_of task rs in
    if elim r.task [ none ↦ false | some t ↦ text_eq t task ] then r.path ∷ rest else rest

abbrev pub item_path : Option TaskFileInfo → List String
item_path none = []
item_path (some f) = if text_eq f.path "" then [] else f.path ∷ []

-- `expectedArtifacts(role, task)`.
unfoldable pub expected_artifacts : IdleInput → String → Option String → List String
expected_artifacts input role none = produced_by role (g0 ∷ g1 ∷ g2 ∷ g3 ∷ [])
expected_artifacts input role (some task) =
    item_path (lookup_text task input.task_files) ++ reviews_of task input.reviews

-- `raise(candidate)`.
unfoldable pub raise_floor : BranchOrder → Anchor → Option Anchor → Option Anchor
raise_floor order candidate floor = if not (anchored candidate) then floor else elim floor [
  | none ↦ some candidate
  | some f ↦ if after order candidate f then some candidate else some f
]

unfoldable pub raise_by_artifacts : IdleInput → List String → Option Anchor → Option Anchor
unfolding raise_floor
raise_by_artifacts input [] floor = floor
raise_by_artifacts input (path ∷ paths) floor = raise_by_artifacts input paths (
    raise_floor input.order
      (record { oid = input.last_touched_oid path; time = input.last_touched path }) floor)

unfoldable pub raise_by_resolutions :
    IdleInput → String → List Escalation → ℕ → Option Anchor → Option Anchor
raise_by_resolutions input key [] i floor = floor
raise_by_resolutions input key (e ∷ es) i floor = raise_by_resolutions input key es (suc i) (
    if not e.resolved || not (includes e.reason key)
    then floor
    else raise_floor input.order
        (commit_anchor (at_index input.resolution_commits i) (iso_time e.resolved_at)) floor)

-- What `floorFor(role, task, key)` computes where it has not computed it before.
unfoldable pub floor_for : IdleInput → String → Option String → Option Anchor
unfolding raise_by_artifacts raise_by_resolutions
floor_for input role task =
    raise_by_resolutions input (landing_escalation_key role task) input.escalations 0
      (raise_by_artifacts input (expected_artifacts input role task) none)

-- The map `floors`, by its insertions.
abbrev pub cached : List (String × Option Anchor) → String → Option Anchor → Option Anchor
cached floors key fresh = or_else (lookup_text key floors) fresh

abbrev pub remember :
    List (String × Option Anchor) → String → Option Anchor → List (String × Option Anchor)
remember floors key fresh =
    if is_some (lookup_text key floors) then floors else (key, fresh) ∷ floors

abbrev pub above : BranchOrder → Anchor → Option Anchor → Bool
above order opened none = true
above order opened (some floor) = after order opened floor

abbrev pub count_up : List (String × ℕ) → String → List (String × ℕ)
count_up counts key = (key, or_else (lookup_text key counts) 0 + 1) ∷ counts

abbrev pub closed_ok : BudgetLedgerEntry → Bool
closed_ok e = not (is_none e.cost_usd || e.failed || e.refused)

unfoldable pub opening_anchor : IdleInput → BudgetLedgerEntry → ℕ → Anchor
opening_anchor input e i =
    commit_anchor (elim (get_elem? input.ledger_commits i) [ none ↦ none | some c ↦ c.opened ])
      (iso_time e.at)

-- The loop over the ledger, with what it has cached and counted.
unfoldable pub count_idle :
    IdleInput
    → List BudgetLedgerEntry
    → ℕ
    → List (String × Option Anchor)
    → List (String × ℕ)
    → List (String × ℕ)
count_idle input [] i floors counts = counts
count_idle input (e ∷ es) i floors counts =
    let opened = opening_anchor input e i in
    let key = idle_key e.role e.task in
    let fresh = floor_for input e.role e.task in
    let looks = closed_ok e && anchored opened in
    count_idle input es (suc i) (if looks then remember floors key fresh else floors) (
      if looks && above input.order opened (cached floors key fresh)
      then count_up counts key
      else counts)

unfoldable pub idle_dispatch_counts : IdleInput → List (String × ℕ)
idle_dispatch_counts input = count_idle input input.ledger 0 [] []
