-- ===== src/Examples/Histories.antt =====
-- What is read off a run's history and ledger by packages/orchestrator/src/observe.ts, on samples.
use gateline.Prelude.{is_space}
use gateline.Prelude.{
  zero, suc, true, get_elem?, ℕ, ◌≡◌, refl, pos, String, false, Option, none, some, List, [], ◌∷◌,
  ◌++◌,
}
use gateline.Record.Phases.{implement}
use gateline.Record.State.{RunState, TaskEntry, Escalation}
use gateline.Record.Ledger.{BudgetLedgerEntry}
use gateline.Sources.Order.{CommitInfo, StateCommit, branch_order}
use gateline.Orchestrator.Observation.{Anchor, RunObservation}
use gateline.Orchestrator.Derive.{dispute_reason}
use gateline.Orchestrator.Derive.Launches.{go, pending_step}
use gateline.Orchestrator.Derive.Tasks.{nothing_gathered}
use gateline.Orchestrator.Derive.Loop.{launch}
use gateline.Orchestrator.Idle.{
  IdleInput, floor_for, expected_artifacts, raise_by_artifacts, raise_by_resolutions, raise_floor,
  idle_dispatch_counts,
}
use gateline.Orchestrator.Idle.Counting.{counted, idle_total, idle_dispatch_counts_lem}
use gateline.Orchestrator.Bouncing.{bounce_counts_of, contract_dispute}
use gateline.Orchestrator.Bouncing.Bounces.{bounces_of}
use gateline.Orchestrator.Bouncing.Resets.{Disputed, bounce_counts_of-reset}
use gateline.Orchestrator.Bouncing.Disputes.{contract_dispute-dispute_reason}
use gateline.Orchestrator.Observe.{in_flight_surfaces_of}
use gateline.Orchestrator.Observe.Surfaces.{undeclared_work_unseen}
use gateline.Examples.{planning, question, observed, noon, commit}

-- An analyst's dispatch that closed well.
abbrev closed_entry : BudgetLedgerEntry
closed_entry = record {
  at = some noon;
  role = "analyst";
  task = none;
  round = none;
  adapter = none;
  model = none;
  tokens_in = none;
  tokens_out = none;
  cost_usd = some (pos 1000000);
  failed = false;
  refused = false;
  engine = none;
  session = none;
}

-- The specification was touched between the two openings.
abbrev idle_input : IdleInput
idle_input = record {
  ledger = closed_entry ∷ closed_entry ∷ [];
  reviews = [];
  task_files = [];
  last_touched = λ path. none;
  escalations = [];
  order = branch_order (commit "c2" 300 ∷ commit "c1" 200 ∷ commit "c0" 100 ∷ []);
  last_touched_oid = λ path. some "c1";
  ledger_commits =
      record { opened = some (commit "c0" 100); closed = none }
      ∷ record { opened = some (commit "c2" 300); closed = none }
      ∷ [];
  resolution_commits = [];
}

abbrev spec_floor : String → Option Anchor
spec_floor key = some (record { oid = some "c1"; time = none })

idle_dispatch_counts_lem_example :
    counted "analyst|" (idle_dispatch_counts idle_input)
    ≡ idle_total idle_input "analyst|" idle_input.ledger 0
unfolding floor_for expected_artifacts raise_by_artifacts raise_by_resolutions raise_floor
idle_dispatch_counts_lem_example =
    idle_dispatch_counts_lem idle_input spec_floor "analyst|" (refl, (refl, tt))

abbrev bounce : String → ℕ → StateCommit
bounce oid time = record {
  commit = record (commit oid time) { subject = "state(gate-inbox): bounced spec.md" };
  state = none;
}

-- The spec's dispute, resolved in the commit `c2`.
abbrev spec_dispute : Escalation
spec_dispute = record question {
  reason = dispute_reason "spec.md" 2;
  resolved = true;
  resolved_at = some noon;
}

abbrev dispute_commits : List (Option CommitInfo)
dispute_commits = some (commit "c2" 300) ∷ []

spec_named : contract_dispute spec_dispute.reason ≡ some "spec.md"
unfolding is_space
spec_named = contract_dispute-dispute_reason "spec.md" 2 refl refl

spec-Disputed : Disputed 0 (spec_dispute ∷ []) dispute_commits "c2" "spec.md"
spec-Disputed = record {
  index = 0;
  entry = spec_dispute;
  commit = commit "c2" 300;
  listed = refl;
  resolved = refl;
  about = spec_named;
  placed = refl;
  same = refl;
}

-- It is the only one.
about_at :
    (k : ℕ) (e : Escalation) (b : String)
    → get_elem? (spec_dispute ∷ []) k ≡ some e
    → contract_dispute e.reason ≡ some b
    → b ≡ "spec.md"
about_at zero e b l h = let same : spec_dispute ≡ e = cc l in cc (same, h, spec_named)
about_at (suc k) e b l h = cc l

bounce_counts_of-reset_example :
    bounces_of "spec.md" (
      bounce_counts_of
        ((bounce "c3" 400 ∷ []) ++ bounce "c2" 300 ∷ bounce "c1" 200 ∷ [])
        (spec_dispute ∷ [])
        dispute_commits)
    ≡ bounces_of "spec.md"
        (bounce_counts_of (bounce "c3" 400 ∷ []) (spec_dispute ∷ []) dispute_commits)
bounce_counts_of-reset_example =
    bounce_counts_of-reset (spec_dispute ∷ []) dispute_commits (bounce "c3" 400 ∷ [])
      (bounce "c1" 200 ∷ []) (bounce "c2" 300) "spec.md" spec-Disputed
      (λ b d. about_at d.index d.entry b d.listed d.about)

abbrev plan_dispute : Escalation
plan_dispute = record spec_dispute { reason = dispute_reason "plan.md" 1 }

contract_dispute-dispute_reason_example :
    contract_dispute (dispute_reason "spec.md" 2) ≡ some "spec.md"
unfolding is_space
contract_dispute-dispute_reason_example = contract_dispute-dispute_reason "spec.md" 2 refl refl

abbrev at_work : RunState
at_work = record planning {
  phase = implement;
  escalations = [];
  tasks =
      record { id = "01"; status = "dispatched"; review_rounds = 0 }
      ∷ record { id = "02"; status = "pending"; review_rounds = 0 }
      ∷ [];
}

abbrev working : RunObservation
working = record (observed at_work) {
  task_files =
      ("01", record { path = "tasks/01.yaml"; surface = []; depends_on = [] })
      ∷ ("02", record { path = "tasks/02.yaml"; surface = []; depends_on = [] })
      ∷ [];
}

abbrev second_task : TaskEntry
second_task = record { id = "02"; status = "pending"; review_rounds = 0 }

undeclared_work_unseen_example :
    pending_step working at_work second_task nothing_gathered
    ≡ go (launch working second_task nothing_gathered)
unfolding in_flight_surfaces_of
undeclared_work_unseen_example =
    undeclared_work_unseen working at_work second_task refl (refl, (refl, tt)) refl
