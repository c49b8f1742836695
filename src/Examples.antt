-- ===== src/Examples.antt =====
-- Sample runs, on which the theorems about packages/core and packages/orchestrator are applied.
mod Decisions
mod Compositions
mod Deriving
mod Tasks
mod Branches
mod Histories
mod Routing
mod Governing
mod Naming
use gateline.Prelude.{ℕ, String, Bool, true, false, Option, none, some, List, [], ◌∷◌, ℤ, pos}
use gateline.Record.Raw.{Stamp}
use gateline.Record.Phases.{
  Phase, plan, implement, paused, closed, Profile, full, budget_reason, escalation_reason, obsolete,
}
use gateline.Record.State.{
  GateEntry, Gates, TaskEntry, Escalation, ClosureRecord, Budget, RunState, undecided_gate,
}
use gateline.Record.Decision.{DecisionAction, DecisionInput}
use gateline.Record.Decision.Plan.{Signature}
use gateline.Sources.Order.{CommitInfo, branch_order}
use gateline.Orchestrator.Observation.{RunObservation, TaskFileInfo, ReviewInfo}

abbrev pub noon : Stamp
noon = record { text = "2026-01-01T12:00:00Z"; ms = some 1767268800000 }

abbrev pub ada : Signature
ada = record { who = "ada"; now = 1767268800000; at = noon }

abbrev pub approved_gate : GateEntry
approved_gate = record {
  approved = true;
  by = some "ada";
  at = some noon;
  notes = none;
  burden = none;
}

abbrev pub question : Escalation
question = record {
  at = some noon;
  from_role = some "orchestrator";
  reason = "the tests of two tasks disagree";
  resolved = false;
  resolved_by = none;
  resolved_at = none;
  resolution = none;
  disposition = none;
}

-- A run in its planning phase: G0 is approved, and one escalation is open.
abbrev pub planning : RunState
planning = record {
  run = "gate-inbox";
  branch = "run/gate-inbox";
  phase = plan;
  profile = full;
  paused_reason = none;
  closure = none;
  budget =
      some (record { cost_limit_usd = some (pos 20000000); cost_spent_usd = none; ledger = none });
  gates = record {
    g0 = approved_gate;
    g1 = undecided_gate;
    g2 = undecided_gate;
    g3 = undecided_gate;
  };
  tasks = [];
  escalations = question ∷ [];
}

abbrev pub exhausted : RunState
exhausted = record planning { phase = paused; paused_reason = some budget_reason }

-- A decision with nothing but its action.
abbrev pub request : DecisionAction → DecisionInput
request action = record {
  action = action;
  gate = none;
  notes = none;
  burden = none;
  escalation_index = none;
  disposition = none;
  advance_phase = none;
  hold = none;
  hold_reason = none;
  pause_reason = none;
  resume_phase = none;
  cost_limit_usd = none;
  closure = none;
}

abbrev pub commit : String → ℕ → CommitInfo
commit oid time = record {
  oid = oid;
  time = time;
  author = "ada";
  email = "ada@example.org";
  subject = "state: a decision";
}

-- A run of which nothing but its state is known.
abbrev pub observed : RunState → RunObservation
observed s = record {
  slug = "gate-inbox";
  state = some s;
  artifacts = [];
  validations = λ path. none;
  reviews = [];
  verification = none;
  last_touched = λ path. none;
  last_touched_oid = λ path. none;
  last_non_state_commit = none;
  last_non_state_oid = none;
  order = branch_order [];
  resolution_commits = [];
  ledger_commits = [];
  decline_events = λ gate. none;
  bounce_counts = λ path. none;
  ledger = [];
  open_dispatches = [];
  idle_dispatches = λ key. none;
  ledger_spent_usd = pos 0;
  task_files = [];
  in_flight_surfaces = [];
  estimates = λ role. none;
  enforce_budget = true;
}
