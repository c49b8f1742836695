-- ===== src/Record/Decision/Plan.antt =====
-- The branches of `planDecision` in packages/core/src/record/actions.ts, a function for each action:
-- the checks in their order, and the state that the planned mutation leaves.
use gateline.Prelude.{
  ℕ, ℤ, pos, negsuc, ltb_ℤ, String, Bool, true, false, not, ◌&&◌, ◌||◌, Option, none, some, List,
  [], ◌∷◌, set, get_elem?, is_none, is_some, or_else, text_eq, if◌then◌else◌,
}
use gateline.Record.Raw.{Stamp}
use gateline.Record.Phases.{
  Phase, finished, paused, closed, GateId, Disposition, Burden, profile_gates, profile_phases,
  phase_eq, mem_phase, phase_after_gate, staged_reason, declined_reason, budget_reason,
  escalation_reason,
}
use gateline.Record.State.{
  GateEntry, Gates, Escalation, ClosureRecord, Budget, RunState, gate_entry, set_gate,
  gate_undecided, derive_resume_phase,
}
use gateline.Record.Decision.{
  DecisionAction, approve, decline, resolve_escalation, pause, resume, arm, close, reopen, Amount,
  dollars, not_finite, DecisionInput, run_closed, gate_already_approved, gate_was_declined,
  burden_required, hold_reason_required, hold_implies_no_advance, gate_already_decided,
  decline_reason_required, index_out_of_range, already_resolved, resolution_required,
  already_paused, nothing_to_pause, staging_is_no_pause, not_paused, use_arm, invalid_resume_phase,
  phase_not_in_profile, limit_not_positive, limit_not_higher, budget_needs_limit, not_staged,
  done_not_closable, already_closed, disposition_required, close_reason_required, not_closed,
  Result, ok, err, ◌>>=◌, ◌>>◌, throw_if, required_text, text_or, reason_is, is_given, is_true,
  is_false, require_gate, require_on_the_table, require_producer_at_rest,
}

-- The person who decides, and when: `who.name`, `Date.now()` and `nowIso()`.
pub record Signature : Type 0 where
  pub who : String
  pub now : ℕ
  pub at : Stamp

-- What an approval does with the phase.
pub data Advance : Type 0 where
  move_to : Phase → Advance
  hold_for : String → Advance
  stay : Advance

unfoldable pub advance_state : Advance → RunState → RunState
advance_state (move_to p) s = record s { phase = p; paused_reason = none }
advance_state (hold_for reason) s = record s { phase = paused; paused_reason = some reason }
advance_state stay s = s

unfoldable pub approve_gate : GateId → Burden → Option String → Signature → RunState → RunState
approve_gate gate burden notes sig s =
    let entry : GateEntry = record {
      approved = true;
      by = some sig.who;
      at = some sig.at;
      notes = notes;
      burden = some burden;
    } in
    record s { gates = set_gate s.gates gate entry }

-- `hold`, its reason and `advancePhase`, as one choice.
unfoldable pub plan_advance : RunState → DecisionInput → GateId → Result Advance
plan_advance s input gate = do
  let advance = not (is_false input.advance_phase)
  if is_true input.hold
      then (do
        reason ← required_text input.hold_reason hold_reason_required
        throw_if (not advance) hold_implies_no_advance
        ok (hold_for reason))
      else ok (if advance then move_to (phase_after_gate gate s.profile) else stay)

unfoldable pub plan_approve : RunState → DecisionInput → Signature → Result RunState
plan_approve s input sig = do
  gate ← require_gate s input
  let entry = gate_entry s.gates gate
  throw_if (not (gate_undecided entry))
      (if entry.approved then gate_already_approved else gate_was_declined)
  require_on_the_table s gate
  require_producer_at_rest sig.now s gate
  burden ← is_given input.burden burden_required
  advance ← plan_advance s input gate
  ok (advance_state advance (approve_gate gate burden input.notes sig s))

abbrev pub declined_entry : String → Signature → GateEntry → GateEntry
declined_entry reason sig e = record e {
  approved = false;
  by = some sig.who;
  at = some sig.at;
  notes = some reason;
}

unfoldable pub decline_gate : GateId → String → Signature → RunState → RunState
decline_gate gate reason sig s = record s {
  gates = set_gate s.gates gate (declined_entry reason sig (gate_entry s.gates gate));
  phase = paused;
  paused_reason = some declined_reason;
}

unfoldable pub plan_decline : RunState → DecisionInput → Signature → Result RunState
plan_decline s input sig = do
  gate ← require_gate s input
  throw_if (not (gate_undecided (gate_entry s.gates gate))) gate_already_decided
  require_on_the_table s gate
  reason ← required_text input.notes decline_reason_required
  ok (decline_gate gate reason sig s)

unfoldable pub resolve_entry : String → Option Disposition → Signature → Escalation → Escalation
resolve_entry resolution disposition sig e = record e {
  resolved = true;
  resolved_by = some sig.who;
  resolved_at = some sig.at;
  resolution = some resolution;
  disposition = if is_some disposition then disposition else e.disposition;
}

-- The entry at an index that is given, not negative and in range.
abbrev pub indexed : Option ℤ → List Escalation → Result (ℕ × Escalation)
indexed none es = err index_out_of_range
indexed (some (negsuc n)) es = err index_out_of_range
indexed (some (pos n)) es = elim (get_elem? es n) [
  | none ↦ err index_out_of_range
  | some e ↦ ok (n, e)
]

unfoldable pub plan_resolve : RunState → DecisionInput → Signature → Result RunState
plan_resolve s input sig = do
  found ← indexed input.escalation_index s.escalations
  throw_if found.1.resolved already_resolved
  resolution ← required_text input.notes resolution_required
  let entry = resolve_entry resolution input.disposition sig found.1
  ok (record s { escalations = set s.escalations found.0 entry })

unfoldable pub plan_pause : RunState → DecisionInput → Result RunState
plan_pause s input = do
  throw_if (phase_eq s.phase paused) already_paused
  throw_if (phase_eq s.phase finished) nothing_to_pause
  let reason = text_or input.pause_reason escalation_reason
  throw_if (text_eq reason staged_reason) staging_is_no_pause
  ok (record s { phase = paused; paused_reason = some reason })

-- The gates of the profile that were declined, reset.
unfoldable pub reopen_gates : List GateId → Gates → Gates
reopen_gates [] gs = gs
reopen_gates (g ∷ rest) gs =
    let entry = gate_entry gs g in
    let open_entry = record entry { approved = false; by = none; at = none; notes = none } in
    reopen_gates rest
      (if not entry.approved && is_some entry.by then set_gate gs g open_entry else gs)

abbrev pub current_limit : RunState → Option ℤ
current_limit s = elim s.budget [ none ↦ none | some b ↦ b.cost_limit_usd ]

-- A new limit is a positive finite number above the one in force.
unfoldable pub check_limit : Option ℤ → Option Amount → Result (Option ℤ)
check_limit limit none = ok none
check_limit limit (some not_finite) = err limit_not_positive
check_limit limit (some (dollars raise)) = do
  throw_if (not (ltb_ℤ (pos 0) raise)) limit_not_positive
  elim limit [
    | none ↦ ok (some raise)
    | some l ↦ (do throw_if (not (ltb_ℤ l raise)) limit_not_higher; ok (some raise))
  ]

unfoldable pub set_limit : Option ℤ → Option Budget → Option Budget
set_limit none b = b
set_limit (some raise) none =
    some (record { cost_limit_usd = some raise; cost_spent_usd = none; ledger = none })
set_limit (some raise) (some b) = some (record b { cost_limit_usd = some raise })

unfoldable pub plan_resume : RunState → DecisionInput → Result RunState
plan_resume s input = do
  throw_if (not (phase_eq s.phase paused)) not_paused
  throw_if (reason_is s.paused_reason staged_reason) use_arm
  let target = or_else input.resume_phase (derive_resume_phase s)
  throw_if (phase_eq target paused) invalid_resume_phase
  throw_if (not (mem_phase target (profile_phases s.profile))) phase_not_in_profile
  raise ← check_limit (current_limit s) input.cost_limit_usd
  throw_if (reason_is s.paused_reason budget_reason && is_none raise) budget_needs_limit
  let declined = reason_is s.paused_reason declined_reason
  ok (record s {
    phase = target;
    paused_reason = none;
    budget = set_limit raise s.budget;
    gates = if declined then reopen_gates (profile_gates s.profile) s.gates else s.gates;
  })

unfoldable pub plan_arm : RunState → Result RunState
plan_arm s = do
  throw_if (not (phase_eq s.phase paused) || not (reason_is s.paused_reason staged_reason))
      not_staged
  ok (record s { phase = derive_resume_phase s; paused_reason = none })

unfoldable pub plan_close : RunState → DecisionInput → Signature → Result RunState
plan_close s input sig = do
  throw_if (phase_eq s.phase finished) done_not_closable
  throw_if (phase_eq s.phase closed) already_closed
  disposition ← is_given input.closure disposition_required
  reason ← required_text input.notes close_reason_required
  let closure : ClosureRecord = record {
    closed_as = disposition;
    by = some sig.who;
    at = some sig.at;
    reason = some reason;
  }
  ok (record s { phase = closed; paused_reason = none; closure = some closure })

unfoldable pub plan_reopen : RunState → Result RunState
plan_reopen s = do
  throw_if (not (phase_eq s.phase closed)) not_closed
  ok (record s { phase = derive_resume_phase s; paused_reason = none; closure = none })

-- The `switch` on the action.
unfoldable pub plan_action : DecisionAction → RunState → DecisionInput → Signature → Result RunState
plan_action approve s input sig = plan_approve s input sig
plan_action decline s input sig = plan_decline s input sig
plan_action resolve_escalation s input sig = plan_resolve s input sig
plan_action pause s input sig = plan_pause s input
plan_action resume s input sig = plan_resume s input
plan_action arm s input sig = plan_arm s
plan_action close s input sig = plan_close s input sig
plan_action reopen s input sig = plan_reopen s

abbrev pub ends_a_closure : DecisionAction → Bool
ends_a_closure close = true
ends_a_closure reopen = true
ends_a_closure _ = false

unfoldable pub plan_decision : RunState → DecisionInput → Signature → Result RunState
unfolding plan_action
plan_decision s input sig = do
  throw_if (phase_eq s.phase closed && not (ends_a_closure input.action)) run_closed
  plan_action input.action s input sig
