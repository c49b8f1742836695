-- ===== src/Examples/Decisions.antt =====
-- The decisions of packages/core/src/record/actions.ts on a sample run.
use gateline.Prelude.{trim, trim_start, trim_end, is_space}
use gateline.Record.Decision.{required_text, decline_reason_required}
use gateline.Record.Decision.Approval.{Decides}
use gateline.Record.Decision.Resolving.{resolve_closes_one, open_escalations}
use gateline.Record.Decision.Resuming.{resume_raises_limit, IsBelow}
use gateline.Examples.{question}
use gateline.Record.Phases.{phase_after_gate}
use gateline.Prelude.{
  ◌↔◌, ◌≡◌, ◌≢◌, refl, ℕ, ℤ, pos, ◌<ℤ◌, String, true, false, none, some, [], ◌∷◌, arith, get_elem?,
  length, suc,
}
use gateline.Record.Phases.{
  GateId, g1, implement, paused, confirmation, declined_reason, gate_producer, Producer,
}
use gateline.Record.State.{
  RunState, gate_entry, Escalation, decision_phase, pending_gate_at, pending_from,
  derive_resume_phase, resume_from,
}
use gateline.Record.Ledger.{parse_ledger}
use gateline.Record.Decision.{
  DecisionInput, approve, decline, resolve_escalation, resume, dollars, ok, ◌>>=◌, ◌>>◌, throw_if,
  require_gate, require_on_the_table, require_producer_at_rest, err, producer_in_flight,
}
use gateline.Record.Decision.Plan.{
  plan_approve, plan_decline, plan_resolve, plan_resume, plan_advance, approve_gate, advance_state,
  move_to, decline_gate, resolve_entry, check_limit, set_limit, plan_decision, plan_action,
}
use gateline.Record.Decision.Approval.{approve-Decides_frontier, decline-Decides_frontier}
use gateline.Record.Decision.Resting.{HasRunning, approve_waits_for_producer}
use gateline.Record.Decision.Sound.{IsSound, plan_decision-IsSound}
use gateline.Record.Raw.{RawFields, obj, arr, str, date, cons, nil, field, end}
use gateline.Examples.{planning, exhausted, ada, request, noon}

abbrev pub approval : DecisionInput
approval = record (request approve) { gate = some g1; burden = some confirmation }

abbrev pub approved_run : RunState
approved_run = advance_state (move_to implement) (approve_gate g1 confirmation none ada planning)

pub approval_ok : plan_approve planning approval ada ≡ ok approved_run
unfolding plan_approve require_gate require_on_the_table require_producer_at_rest plan_advance
    pending_gate_at pending_from decision_phase derive_resume_phase resume_from ◌>>=◌ ◌>>◌ throw_if
    gate_producer parse_ledger approve_gate advance_state phase_after_gate
approval_ok = refl

approve-Decides_frontier_example :
    (g : GateId) × (some g1 ≡ some g)
    × Decides planning g approved_run
    × ((gate_entry approved_run.gates g).approved ≡ true)
    × ((gate_entry approved_run.gates g).by ≡ some "ada")
    × ((gate_entry approved_run.gates g).notes ≡ none)
    × ((gate_entry approved_run.gates g).burden ≡ some confirmation)
approve-Decides_frontier_example =
    approve-Decides_frontier planning approval ada approved_run approval_ok

abbrev architect : Producer
architect = record { role = "architect"; artifact = "plan.md" }

abbrev architect_out : RawFields
architect_out =
    field "role" (str (record { text = "architect"; ms = none })) (field "at" (date noon) end)

-- The plan's gate is on the table while the architect, dispatched this minute, is still out.
abbrev waiting : RunState
waiting = record planning {
  budget = some (record {
    cost_limit_usd = some (pos 20000000);
    cost_spent_usd = none;
    ledger = some (arr (cons (obj architect_out) nil));
  });
}

approve_waits_for_producer_example :
    (plan_approve waiting approval ada ≡ err producer_in_flight)
    ↔ HasRunning ada.now "architect" (parse_ledger (some waiting))
unfolding gate_producer pending_gate_at pending_from decision_phase derive_resume_phase resume_from
approve_waits_for_producer_example =
    approve_waits_for_producer waiting approval ada g1 architect refl refl refl refl

abbrev pub refusal : DecisionInput
refusal = record (request decline) { gate = some g1; notes = some " the plan skips the migration " }

abbrev pub declined_run : RunState
declined_run = decline_gate g1 "the plan skips the migration" ada planning

pub refusal_ok : plan_decline planning refusal ada ≡ ok declined_run
unfolding plan_decline require_gate require_on_the_table pending_gate_at pending_from decision_phase
    derive_resume_phase resume_from ◌>>=◌ ◌>>◌ throw_if trim trim_start trim_end is_space
    decline_gate
refusal_ok = refl

decline-Decides_frontier_example :
    (g : GateId) × (reason : String) × (some g1 ≡ some g)
    × Decides planning g declined_run
    × (required_text refusal.notes decline_reason_required ≡ ok reason)
    × ((gate_entry declined_run.gates g).approved ≡ false)
    × ((gate_entry declined_run.gates g).by ≡ some "ada")
    × ((gate_entry declined_run.gates g).notes ≡ some reason)
    × (declined_run.phase ≡ paused)
    × (declined_run.paused_reason ≡ some declined_reason)
decline-Decides_frontier_example =
    decline-Decides_frontier planning refusal ada declined_run refusal_ok

abbrev answer : DecisionInput
answer = record (request resolve_escalation) {
  escalation_index = some (pos 0);
  notes = some "the second test is right";
}

abbrev answered_run : RunState
answered_run = record planning {
  escalations = resolve_entry "the second test is right" none ada question ∷ [];
}

answer_ok : plan_resolve planning answer ada ≡ ok answered_run
unfolding plan_resolve ◌>>=◌ ◌>>◌ throw_if trim trim_start trim_end is_space resolve_entry
answer_ok = refl

resolve_closes_one_example :
    (n : ℕ) × (e : Escalation) × (f : Escalation) × (some (pos 0) ≡ some (pos n))
    × (get_elem? planning.escalations n ≡ some e)
    × (get_elem? answered_run.escalations n ≡ some f)
    × (e.resolved ≡ false)
    × (f.resolved ≡ true)
    × (f.reason ≡ e.reason)
    × (f.resolved_by ≡ some "ada")
    × ((m : ℕ) → m ≢ n → get_elem? answered_run.escalations m ≡ get_elem? planning.escalations m)
    × (length answered_run.escalations ≡ length planning.escalations)
    × (open_escalations planning.escalations ≡ suc (open_escalations answered_run.escalations))
    × (answered_run.phase ≡ planning.phase)
    × (answered_run.gates ≡ planning.gates)
unfolding resolve_entry
resolve_closes_one_example = resolve_closes_one planning answer ada answered_run answer_ok

abbrev raise : DecisionInput
raise = record (request resume) { cost_limit_usd = some (dollars (pos 30000000)) }

abbrev raised_run : RunState
raised_run = record planning {
  budget =
      some (record { cost_limit_usd = some (pos 30000000); cost_spent_usd = none; ledger = none });
}

raise_ok : plan_resume exhausted raise ≡ ok raised_run
unfolding plan_resume derive_resume_phase resume_from check_limit set_limit ◌>>=◌ ◌>>◌ throw_if
raise_ok = refl

resume_raises_limit_example :
    (amount : ℤ) × (some (dollars (pos 30000000)) ≡ some (dollars amount))
    × (pos 0 <ℤ amount)
    × IsBelow (some (pos 20000000)) amount
    × (some (pos 30000000) ≡ some amount)
resume_raises_limit_example = resume_raises_limit exhausted raise raised_run raise_ok refl

pub planning-IsSound : IsSound planning
planning-IsSound = record {
  explained = refl;
  placed = refl;
  in_order = ground arith;
  none_outside = ground arith;
}

decision_ok : plan_decision planning approval ada ≡ ok approved_run
unfolding plan_decision plan_action ◌>>=◌ ◌>>◌ throw_if
decision_ok = approval_ok

plan_decision-IsSound_example : IsSound approved_run
plan_decision-IsSound_example =
    plan_decision-IsSound planning approval ada approved_run decision_ok (λ e. cc e)
      planning-IsSound
