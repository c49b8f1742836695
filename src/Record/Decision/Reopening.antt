-- ===== src/Record/Decision/Reopening.antt =====
-- A gate that was declined can be decided again after a resume; an approval leaves the run where its
-- gates say that it should be; and what a resume into `closed` leaves.
use gateline.Record.Decision.Plan.{declined_entry}
use gateline.Prelude.{◌<◌, All}
use gateline.Record.Phases.{patch, g0}
use gateline.Record.State.{resume_from, pending_from, decision_phase}
use gateline.Prelude.{ℤ}
use gateline.Prelude.{
  true, false, ◌≡◌, refl, ap, sym, ◌∙◌, Option, none, some, arith, String, is_some, or_else,
}
use gateline.Record.Phases.{
  Phase, paused, closed, GateId, Profile, profile_gates, staged_reason, budget_reason,
  phase_after_gate, first_phase, gate_index, mem_gate,
}
use gateline.Record.State.{
  Gates, GateEntry, gate_entry, set_gate, RunState, derive_resume_phase, pending_gate,
  pending_gate_at,
}
use gateline.Record.Decision.{resume, DecisionInput, ok, ◌>>=◌, ◌>>◌, throw_if, reason_is}
use gateline.Record.Decision.Plan.{
  Signature, Advance, move_to, advance_state, plan_advance, approve_gate, decline_gate,
  plan_approve, plan_decline, check_limit, set_limit, plan_resume, reopen_gates, plan_action,
  plan_decision,
}
use gateline.Record.Decision.Frontier.{IsFrontier, pending_gate_at-IsFrontier}
use gateline.Record.Decision.Approval.{plan_approve_lem, plan_decline_lem}
use gateline.Record.Decision.Resuming.{plan_resume_lem, resumed}
use gateline.Record.Decision.Sound.{refined, InOrder, IsSound}

-- The gates before `g` in the profile are approved, and `g` is one of the profile's.
abbrev Reached : Profile → Gates → GateId → Type 0
Reached p gs g =
    (mem_gate g (profile_gates p) ≡ true)
    × All (λ h. gate_index h < gate_index g → (gate_entry gs h).approved ≡ true) (profile_gates p)

resume_from-set_gate :
    (p : Profile) (gs : Gates) (g : GateId) (e : GateEntry)
    → Reached p gs g
    → e.approved ≡ false
    → resume_from (profile_gates p) (set_gate gs g e) ≡ first_phase g
unfolding resume_from
resume_from-set_gate patch gs g e h n = ground arith
resume_from-set_gate _ gs g e h n = ground arith

pending_from-reopen_gates :
    (p : Profile) (g : GateId) (gs : Gates) (e : GateEntry)
    → Reached p gs g
    → e.approved ≡ false
    → is_some e.by ≡ true
    → pending_from
        (profile_gates p)
        (reopen_gates (profile_gates p) (set_gate gs g e))
        (first_phase g)
      ≡ some g
unfolding pending_from reopen_gates
pending_from-reopen_gates patch g0 gs e h n b = ground arith
pending_from-reopen_gates _ _ gs e h n b = ground arith

reopened_pending :
    (s : RunState) (g : GateId) (reason : String) (sig : Signature) (raise : Option ℤ)
    → IsFrontier s g
    → let t = decline_gate g reason sig s in
      pending_gate (resumed (derive_resume_phase t) raise t) ≡ some g
unfolding pending_gate decline_gate derive_resume_phase
reopened_pending s g reason sig raise h =
    let e = declined_entry reason sig (gate_entry s.gates g) in
    rw (resume_from-set_gate s.profile s.gates g e (h.declared, h.earlier) refl)
      (pending_from-reopen_gates s.profile g s.gates e (h.declared, h.earlier) refl refl)

-- After a decline and a resume that names no phase, the declined gate is on the table again.
pub pending_gate-resume-decline :
    (s t u : RunState) (i j : DecisionInput) (sig : Signature)
    → plan_decline s i sig ≡ ok t
    → plan_resume t j ≡ ok u
    → j.resume_phase ≡ none
    → pending_gate u ≡ i.gate
pending_gate-resume-decline s t u i j sig e f n =
    let d = plan_decline_lem s i sig t e in
    let r = plan_resume_lem t j u f in
    let frontier = (pending_gate_at-IsFrontier s _ d.gate d.pending).0 in
    let target : u ≡ resumed (derive_resume_phase t) r.raise t =
      r.result ∙ ap (λ o. resumed (or_else o (derive_resume_phase t)) r.raise t) n in
    rw target (rw d.result (reopened_pending s d.gate d.reason sig r.raise frontier ∙ sym d.named))

approve_advances :
    (s : RunState) (ph : Phase) (g : GateId) (e : GateEntry)
    → pending_gate_at s ph ≡ some g
    → InOrder (profile_gates s.profile) s.gates
    → e.approved ≡ true
    → derive_resume_phase (record s { gates = set_gate s.gates g e }) ≡ phase_after_gate g s.profile
unfolding pending_gate_at derive_resume_phase phase_after_gate
approve_advances s ph g e h o a = ground arith

advance_of_default :
    (s : RunState) (i : DecisionInput) (g : GateId) (a : Advance)
    → plan_advance s i g ≡ ok a
    → i.hold ≡ none
    → i.advance_phase ≡ none
    → a ≡ move_to (phase_after_gate g s.profile)
unfolding plan_advance ◌>>=◌
advance_of_default s i g a e h n = ground arith

-- An approval with neither `hold` nor `advancePhase` moves a sound run to the phase that its gates
-- then derive: the table of `phaseAfterGate` and the walk of `deriveResumePhase` agree.
pub approve_lands_in_phase :
    (s t : RunState) (i : DecisionInput) (sig : Signature)
    → IsSound s
    → plan_approve s i sig ≡ ok t
    → i.hold ≡ none
    → i.advance_phase ≡ none
    → (t.phase ≡ derive_resume_phase t) × (t.paused_reason ≡ none)
unfolding advance_state approve_gate derive_resume_phase
approve_lands_in_phase s t i sig v e h n =
    let a = plan_approve_lem s i sig t e in
    let moved = advance_of_default s i a.gate a.advance a.planned h n in
    rw a.result (
      rw moved
        (sym (approve_advances s (decision_phase s) a.gate _ a.pending v.in_order refl), refl))

-- Resuming a paused run into `closed` is accepted, and leaves a closed run without a closure record,
-- which the state contract refuses: it needs only that the run is paused, for a reason other than
-- being staged or out of budget, with no closure record.
pub resume_into_closed :
    (s : RunState) (i : DecisionInput) (sig : Signature)
    → s.phase ≡ paused
    → reason_is s.paused_reason staged_reason ≡ false
    → reason_is s.paused_reason budget_reason ≡ false
    → s.closure ≡ none
    → i.action ≡ resume
    → i.resume_phase ≡ some closed
    → i.cost_limit_usd ≡ none
    → (t : RunState) × (plan_decision s i sig ≡ ok t) × (refined t ≡ false)
unfolding plan_decision plan_action plan_resume check_limit set_limit ◌>>=◌ ◌>>◌ throw_if
resume_into_closed s i sig p n b c a r l = (resumed closed none s, ground arith, ground arith)
