-- ===== src/Orchestrator/History.antt =====
-- The facts that `observeRun` of packages/orchestrator/src/observe.ts reads off a run's history: where
-- ledger entries opened and closed, and the declines.

use gateline.Prelude.{
  lookup_text, ℕ, suc, ◌*◌, ltb, String, Bool, true, false, not, ◌&&◌, ◌||◌, Option, none, some,
  List, [], ◌∷◌, is_some, or_else, get_elem?, set, map, text_eq, join, if◌then◌else◌,
}
use gateline.Record.Phases.{GateId}
use gateline.Record.State.{GateEntry, gate_entry}
use gateline.Record.Raw.{Stamp}
use gateline.Record.Ledger.{BudgetLedgerEntry, parse_ledger}
use gateline.Sources.Order.{CommitInfo, StateCommit}
use gateline.Orchestrator.Observation.{DeclineEvent, LedgerCommits}
use gateline.Orchestrator.Intents.{number_text}

-- ---- Where a ledger entry opened and closed.

abbrev pub stamp_text : Option Stamp → String
stamp_text none = ""
stamp_text (some s) = s.text

unfoldable pub ledger_entry_key : BudgetLedgerEntry → String
ledger_entry_key e = join (
    stamp_text e.at
    ∷ "|"
    ∷ e.role
    ∷ "|"
    ∷ or_else e.task ""
    ∷ "|"
    ∷ elim e.round [ none ↦ "" | some n ↦ number_text n ]
    ∷ [])

-- `ledgerIndex`: of two entries with one key, the later.
unfoldable pub ledger_index : List BudgetLedgerEntry → ℕ → List (String × ℕ) → List (String × ℕ)
ledger_index [] i m = m
ledger_index (e ∷ es) i m = ledger_index es (suc i) ((ledger_entry_key e, i) ∷ m)

pub record LedgerSlot : Type 0 where
  pub commits : LedgerCommits
  pub settled : Bool

abbrev pub is_closed_entry : BudgetLedgerEntry → Bool
is_closed_entry e = is_some e.cost_usd || e.failed

unfoldable pub mark_entry : CommitInfo → BudgetLedgerEntry → LedgerSlot → LedgerSlot
mark_entry c e slot =
    let seen = record slot { commits = record slot.commits { opened = some c } } in
    if slot.settled
    then seen
    else if is_closed_entry e
    then record seen { commits = record seen.commits { closed = some c } }
    else if is_some slot.commits.closed
    then record seen { settled = true }
    else seen

abbrev pub mark_at : CommitInfo → BudgetLedgerEntry → Option ℕ → List LedgerSlot → List LedgerSlot
mark_at c e none slots = slots
mark_at c e (some i) slots = elim (get_elem? slots i) [
  | none ↦ slots
  | some slot ↦ set slots i (mark_entry c e slot)
]

unfoldable pub mark_entries :
    CommitInfo → List BudgetLedgerEntry → List (String × ℕ) → List LedgerSlot → List LedgerSlot
mark_entries c [] index slots = slots
mark_entries c (e ∷ es) index slots =
    mark_entries c es index (mark_at c e (lookup_text (ledger_entry_key e) index) slots)

unfoldable pub walk_ledger :
    List StateCommit → List (String × ℕ) → List LedgerSlot → List LedgerSlot
walk_ledger [] index slots = slots
walk_ledger (c ∷ cs) index slots = walk_ledger cs index (elim c.state [
  | none ↦ slots
  | some s ↦ mark_entries c.commit (parse_ledger (some s)) index slots
])

abbrev pub fresh_slot : LedgerSlot
fresh_slot = record { commits = record { opened = none; closed = none }; settled = false }

unfoldable pub ledger_commits_of : List StateCommit → List BudgetLedgerEntry → List LedgerCommits
unfolding walk_ledger ledger_index
ledger_commits_of history ledger =
    map (λ (s : LedgerSlot). s.commits)
      (walk_ledger history (ledger_index ledger 0 [])
        (map (λ (e : BudgetLedgerEntry). fresh_slot) ledger))

-- ---- Declines.

abbrev pub declined_in : GateId → StateCommit → Option GateEntry
declined_in gate c = elim c.state [
  | none ↦ none
  | some s ↦
      let entry = gate_entry s.gates gate in
      if not entry.approved && is_some entry.by then some entry else none
]

-- The newest commit in which the gate stands declined.
unfoldable pub last_decline : GateId → List StateCommit → Option (CommitInfo × GateEntry)
last_decline gate [] = none
last_decline gate (c ∷ cs) = elim (declined_in gate c) [
  | none ↦ last_decline gate cs
  | some entry ↦ some (c.commit, entry)
]

-- Whether the producer's artifact was touched after the decline: by ancestry where it is known.
unfoldable pub is_redone : Option (String → String → Bool) → CommitInfo → Option CommitInfo → Bool
is_redone is_ancestor declined none = false
is_redone none declined (some touched) = ltb declined.time touched.time
is_redone (some is_ancestor) declined (some touched) =
    not (text_eq touched.oid declined.oid) && is_ancestor declined.oid touched.oid

unfoldable pub decline_event :
    Option (String → String → Bool)
    → (GateId → Option CommitInfo)
    → List StateCommit
    → GateId
    → Option DeclineEvent
decline_event is_ancestor touched history gate = elim (last_decline gate history) [
  | none ↦ none
  | some found ↦ some (record {
    at = found.0.time * 1000;
    notes = found.1.notes;
    redone = is_redone is_ancestor found.0 (touched gate);
  })
]
