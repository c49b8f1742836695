-- ===== src/Orchestrator/Observation.antt =====
-- What derivation reads of a run, and when one fact is after another:
-- packages/orchestrator/src/observe.ts. Times are in milliseconds.
use gateline.Prelude.{
  ℕ, ◌*◌, ℤ, String, Bool, false, ◌||◌, Option, none, some, List, [], ◌∷◌, get_elem?, is_some, ltb,
  or_else, join, text_eq, if◌then◌else◌,
}
use gateline.Record.Raw.{Stamp}
use gateline.Record.Phases.{GateId}
use gateline.Record.State.{RunState}
use gateline.Record.Ledger.{BudgetLedgerEntry}
use gateline.Sources.Order.{CommitInfo, BranchOrder, branch_after}

pub data Verdict : Type 0 where
  approved request_changes escalated : Verdict

pub data VerificationVerdict : Type 0 where
  pass fail escalated : VerificationVerdict

pub record ReviewInfo : Type 0 where
  pub path : String
  pub task : Option String
  pub verdicts : List Verdict
  pub last_touched : Option ℕ

pub record VerificationInfo : Type 0 where
  pub verdict : Option VerificationVerdict
  pub last_touched : Option ℕ

pub record TaskFileInfo : Type 0 where
  pub path : String
  pub surface : List String
  pub depends_on : List String

pub record OpenDispatch : Type 0 where
  pub role : String
  pub task : Option String
  pub at : Option Stamp

pub record Validation : Type 0 where
  pub passed : Bool
  pub missing : List String

pub record DeclineEvent : Type 0 where
  pub at : ℕ
  pub notes : Option String
  pub redone : Bool

pub record LedgerCommits : Type 0 where
  pub opened : Option CommitInfo
  pub closed : Option CommitInfo

-- Records by path are functions; `Map`s that are walked are lists of pairs.
pub record RunObservation : Type 0 where
  pub slug : String
  pub state : Option RunState
  pub artifacts : List String
  pub validations : String → Option Validation
  pub reviews : List ReviewInfo
  pub verification : Option VerificationInfo
  pub last_touched : String → Option ℕ
  pub last_touched_oid : String → Option String
  pub last_non_state_commit : Option ℕ
  pub last_non_state_oid : Option String
  pub order : BranchOrder
  pub resolution_commits : List (Option CommitInfo)
  pub ledger_commits : List LedgerCommits
  pub decline_events : GateId → Option DeclineEvent
  pub bounce_counts : String → Option ℕ
  pub ledger : List BudgetLedgerEntry
  pub open_dispatches : List OpenDispatch
  pub idle_dispatches : String → Option ℕ
  pub ledger_spent_usd : ℤ
  pub task_files : List (String × TaskFileInfo)
  pub in_flight_surfaces : List (List String)
  pub estimates : String → Option ℤ
  pub enforce_budget : Bool

-- One fact, placed on the branch and by a clock.
pub record Anchor : Type 0 where
  pub oid : Option String
  pub time : Option ℕ

abbrev pub no_anchor : Anchor
no_anchor = record { oid = none; time = none }

abbrev pub later : Option ℕ → Option ℕ → Bool
later none y = false
later (some x) none = false
later (some x) (some y) = ltb y x

-- `after(order, x, y)`: the branch first, the clocks where the branch cannot say.
unfoldable pub after : BranchOrder → Anchor → Anchor → Bool
after order x y = elim (branch_after order x.oid y.oid) [
  | some by_branch ↦ by_branch
  | none ↦ later x.time y.time
]

abbrev pub anchored : Anchor → Bool
anchored a = is_some a.oid || is_some a.time

-- `commitAnchor(commit, fallback)`; a commit's time is in seconds.
unfoldable pub commit_anchor : Option CommitInfo → Option ℕ → Anchor
commit_anchor none fallback = record { oid = none; time = fallback }
commit_anchor (some c) fallback = record { oid = some c.oid; time = some (c.time * 1000) }

abbrev pub iso_time : Option Stamp → Option ℕ
iso_time none = none
iso_time (some s) = s.ms

-- `xs[i]`, where an absent element is absent.
abbrev pub at_index {ℓ} : {A : Type ℓ} → List (Option A) → ℕ → Option A
at_index xs i = elim (get_elem? xs i) [ none ↦ none | some o ↦ o ]

unfoldable pub artifact_anchor : RunObservation → Option String → Anchor
artifact_anchor obs none = no_anchor
artifact_anchor obs (some path) =
    if text_eq path ""
    then no_anchor
    else record { oid = obs.last_touched_oid path; time = obs.last_touched path }

unfoldable pub non_state_anchor : RunObservation → Anchor
non_state_anchor obs = record { oid = obs.last_non_state_oid; time = obs.last_non_state_commit }

abbrev pub resolved_at : Option RunState → ℕ → Option Stamp
resolved_at none i = none
resolved_at (some s) i = elim (get_elem? s.escalations i) [ none ↦ none | some e ↦ e.resolved_at ]

unfoldable pub resolution_anchor : RunObservation → ℕ → Anchor
unfolding commit_anchor
resolution_anchor obs i =
    commit_anchor (at_index obs.resolution_commits i) (iso_time (resolved_at obs.state i))

abbrev pub opened_at : List BudgetLedgerEntry → ℕ → Option Stamp
opened_at ledger i = elim (get_elem? ledger i) [ none ↦ none | some e ↦ e.at ]

unfoldable pub ledger_open_anchor : RunObservation → ℕ → Anchor
unfolding commit_anchor
ledger_open_anchor obs i =
    commit_anchor (elim (get_elem? obs.ledger_commits i) [ none ↦ none | some c ↦ c.opened ])
      (iso_time (opened_at obs.ledger i))

unfoldable pub ledger_close_anchor : RunObservation → ℕ → Anchor
unfolding commit_anchor
ledger_close_anchor obs i =
    commit_anchor (elim (get_elem? obs.ledger_commits i) [ none ↦ none | some c ↦ c.closed ])
      (iso_time (opened_at obs.ledger i))

-- `idleKey(role, task)`.
abbrev pub idle_key : String → Option String → String
idle_key role task = join (role ∷ "|" ∷ or_else task "" ∷ [])
