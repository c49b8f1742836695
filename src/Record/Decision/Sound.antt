-- ===== src/Record/Decision/Sound.antt =====
-- What every decision keeps: the refinements of the state contract (`superRefine` in schema.ts), and
-- that gates are approved in the order of the profile.
use gateline.Prelude.{or_else}
use gateline.Prelude.{
  Bool, true, false, not, ◌&&◌, ◌≡◌, ◌≢◌, refl, Option, none, some, List, [], ◌∷◌, All, is_none,
  arith, if◌then◌else◌,
}
use gateline.Record.Phases.{
  Phase, paused, closed, GateId, Profile, profile_gates, profile_phases, gate_ids, mem_gate,
  mem_phase, phase_eq, phase_after_gate, declined_reason,
}
use gateline.Record.State.{
  Gates, GateEntry, RunState, gate_entry, set_gate, gate_undecided, derive_resume_phase,
  pending_gate_at,
}
use gateline.Record.Decision.{
  DecisionAction, approve, decline, resolve_escalation, pause, resume, arm, close, reopen,
  DecisionInput, ok, >>-eq-ok, ◌>>=◌, ◌>>◌, throw_if, reason_is,
}
use gateline.Record.Decision.Plan.{
  Signature, Advance, move_to, hold_for, stay, advance_state, plan_advance, approve_gate,
  decline_gate, plan_approve, plan_decline, plan_resolve, plan_pause, reopen_gates, plan_resume,
  plan_arm, plan_close, plan_reopen, plan_action, plan_decision,
}
use gateline.Record.Decision.Frontier.{pending_gate_at-IsFrontier}
use gateline.Record.Decision.Resolving.{plan_resolve_lem}
use gateline.Record.Decision.Resuming.{plan_resume_lem}
use gateline.Record.Decision.Approval.{plan_approve_lem, plan_decline_lem}

-- The check of `superRefine` that a parsed state has still to pass: a closed run says why.
abbrev pub refined : RunState → Bool
refined s = not (phase_eq s.phase closed && is_none s.closure)

-- No gate is approved behind one that is not.
abbrev pub InOrder : List GateId → Gates → Type 0
InOrder [] gs = Unit
InOrder (g ∷ rest) gs =
    ((gate_entry gs g).approved ≡ false → All (λ h. (gate_entry gs h).approved ≡ false) rest)
    × InOrder rest gs

-- A gate outside the profile is undecided.
abbrev pub NoneOutside : Profile → Gates → Type 0
NoneOutside p gs =
    All (λ g. mem_gate g (profile_gates p) ≡ false → gate_undecided (gate_entry gs g) ≡ true)
      gate_ids

pub record IsSound (s : RunState) : Type 0 where
  pub explained : refined s ≡ true
  pub placed : mem_phase s.phase (profile_phases s.profile) ≡ true
  pub in_order : InOrder (profile_gates s.profile) s.gates
  pub none_outside : NoneOutside s.profile s.gates

module _ (p : Profile) (gs : Gates) (g : GateId) (e : GateEntry) where
  set_gate-NoneOutside :
      mem_gate g (profile_gates p) ≡ true → NoneOutside p gs → NoneOutside p (set_gate gs g e)
  set_gate-NoneOutside m h = ground arith

pub derive_resume_phase-placed :
    (s : RunState) → mem_phase (derive_resume_phase s) (profile_phases s.profile) ≡ true
unfolding derive_resume_phase
derive_resume_phase-placed s = ground arith

derive_resume_phase-ne-closed : (s : RunState) → phase_eq (derive_resume_phase s) closed ≡ false
unfolding derive_resume_phase
derive_resume_phase-ne-closed s = ground arith

pub derive_resume_phase-ne-paused : (s : RunState) → phase_eq (derive_resume_phase s) paused ≡ false
unfolding derive_resume_phase
derive_resume_phase-ne-paused s = ground arith

phase_after_gate-placed :
    (p : Profile) (g : GateId)
    → mem_gate g (profile_gates p) ≡ true
    → mem_phase (phase_after_gate g p) (profile_phases p) ≡ true
unfolding phase_after_gate
phase_after_gate-placed p g h = ground arith

approve_gate-InOrder :
    (s : RunState) (ph : Phase) (g : GateId) (e : GateEntry)
    → pending_gate_at s ph ≡ some g
    → InOrder (profile_gates s.profile) s.gates
    → InOrder (profile_gates s.profile) (set_gate s.gates g e)
unfolding pending_gate_at
approve_gate-InOrder s ph g e h o = ground arith

advance_state-IsSound :
    (s : RunState) (i : DecisionInput) (g : GateId) (a : Advance)
    → plan_advance s i g ≡ ok a
    → mem_gate g (profile_gates s.profile) ≡ true
    → IsSound s
    → (gs : Gates) → InOrder (profile_gates s.profile) gs
    → NoneOutside s.profile gs
    → IsSound (advance_state a (record s { gates = gs }))
unfolding plan_advance advance_state phase_after_gate ◌>>=◌ ◌>>◌ throw_if
advance_state-IsSound s i g (move_to p) e m h gs o n =
    let same : p ≡ phase_after_gate g s.profile = ground arith in
    record {
      explained = ground arith;
      placed = rw same (phase_after_gate-placed s.profile g m);
      in_order = o;
      none_outside = n;
    }
advance_state-IsSound s i g (hold_for r) e m h gs o n = record {
  explained = refl;
  placed = ground arith;
  in_order = o;
  none_outside = n;
}
advance_state-IsSound s i g stay e m h gs o n = record {
  explained = h.explained;
  placed = h.placed;
  in_order = o;
  none_outside = n;
}

approve-IsSound :
    (s : RunState) (i : DecisionInput) (sig : Signature) (t : RunState)
    → plan_approve s i sig ≡ ok t
    → IsSound s
    → IsSound t
unfolding approve_gate
approve-IsSound s i sig t e h =
    let a = plan_approve_lem s i sig t e in
    let m = (pending_gate_at-IsFrontier s _ a.gate a.pending).0.declared in
    rw a.result (
      advance_state-IsSound s i a.gate a.advance a.planned m h _
        (approve_gate-InOrder s _ a.gate _ a.pending h.in_order)
        (set_gate-NoneOutside s.profile s.gates a.gate _ m h.none_outside))

decline-IsSound :
    (s : RunState) (i : DecisionInput) (sig : Signature) (t : RunState)
    → plan_decline s i sig ≡ ok t
    → IsSound s
    → IsSound t
unfolding decline_gate
decline-IsSound s i sig t e h =
    let a = plan_decline_lem s i sig t e in
    let m = (pending_gate_at-IsFrontier s _ a.gate a.pending).0.declared in
    rw a.result (record {
      explained = refl;
      placed = ground arith;
      in_order = approve_gate-InOrder s _ a.gate _ a.pending h.in_order;
      none_outside = set_gate-NoneOutside s.profile s.gates a.gate _ m h.none_outside;
    })

resolve-IsSound :
    (s : RunState) (i : DecisionInput) (sig : Signature) (t : RunState)
    → plan_resolve s i sig ≡ ok t
    → IsSound s
    → IsSound t
resolve-IsSound s i sig t e h =
    let r = plan_resolve_lem s i sig t e in
    rw r.result (record {
      explained = h.explained;
      placed = h.placed;
      in_order = h.in_order;
      none_outside = h.none_outside;
    })

pause-IsSound :
    (s : RunState) (i : DecisionInput) (t : RunState)
    → plan_pause s i ≡ ok t
    → IsSound s
    → IsSound t
unfolding plan_pause ◌>>◌ ◌>>=◌ throw_if
pause-IsSound s i t e h = ground arith

arm-IsSound : (s t : RunState) → plan_arm s ≡ ok t → IsSound s → IsSound t
unfolding plan_arm ◌>>◌ ◌>>=◌ throw_if
arm-IsSound s t e h = ground (arith, derive_resume_phase-placed s, derive_resume_phase-ne-closed s)

close-IsSound :
    (s : RunState) (i : DecisionInput) (sig : Signature) (t : RunState)
    → plan_close s i sig ≡ ok t
    → IsSound s
    → IsSound t
unfolding plan_close ◌>>◌ ◌>>=◌ throw_if
close-IsSound s i sig t e h = ground arith

reopen-IsSound : (s t : RunState) → plan_reopen s ≡ ok t → IsSound s → IsSound t
unfolding plan_reopen ◌>>◌ ◌>>=◌ throw_if
reopen-IsSound s t e h =
    ground (arith, derive_resume_phase-placed s, derive_resume_phase-ne-closed s)

reopen_gates-InOrder :
    (p : Profile) (gs : Gates)
    → InOrder (profile_gates p) gs
    → InOrder (profile_gates p) (reopen_gates (profile_gates p) gs)
unfolding reopen_gates
reopen_gates-InOrder p gs h = ground arith

reopen_gates-NoneOutside :
    (p : Profile) (gs : Gates)
    → NoneOutside p gs
    → NoneOutside p (reopen_gates (profile_gates p) gs)
unfolding reopen_gates
reopen_gates-NoneOutside p gs h = ground arith

target-ne-closed :
    (o : Option Phase) (s : RunState)
    → o ≢ some closed
    → phase_eq (or_else o (derive_resume_phase s)) closed ≡ false
target-ne-closed none s h = derive_resume_phase-ne-closed s
target-ne-closed (some closed) s h = absurd (h refl)
target-ne-closed (some _) s h = refl

resumed_gates :
    (P : Gates → Type 0) (b : Bool) (gs hs : Gates) → P gs → P hs → P (if b then hs else gs)
resumed_gates P true gs hs p q = q
resumed_gates P false gs hs p q = p

resume-IsSound :
    (s : RunState) (i : DecisionInput) (t : RunState)
    → plan_resume s i ≡ ok t
    → i.resume_phase ≢ some closed
    → IsSound s
    → IsSound t
resume-IsSound s i t e n h =
    let r = plan_resume_lem s i t e in
    rw r.result (record {
      explained = rw (target-ne-closed i.resume_phase s n) refl;
      placed = r.declared;
      in_order =
          resumed_gates (InOrder (profile_gates s.profile))
            (reason_is s.paused_reason declined_reason) s.gates _ h.in_order
            (reopen_gates-InOrder s.profile s.gates h.in_order);
      none_outside =
          resumed_gates (NoneOutside s.profile) (reason_is s.paused_reason declined_reason) s.gates
            _ h.none_outside (reopen_gates-NoneOutside s.profile s.gates h.none_outside);
    })

plan_action-IsSound :
    (a : DecisionAction) (s : RunState) (i : DecisionInput) (sig : Signature) (t : RunState)
    → plan_action a s i sig ≡ ok t
    → i.resume_phase ≢ some closed
    → IsSound s
    → IsSound t
unfolding plan_action
plan_action-IsSound approve s i sig t e n h = approve-IsSound s i sig t e h
plan_action-IsSound decline s i sig t e n h = decline-IsSound s i sig t e h
plan_action-IsSound resolve_escalation s i sig t e n h = resolve-IsSound s i sig t e h
plan_action-IsSound pause s i sig t e n h = pause-IsSound s i t e h
plan_action-IsSound resume s i sig t e n h = resume-IsSound s i t e n h
plan_action-IsSound arm s i sig t e n h = arm-IsSound s t e h
plan_action-IsSound close s i sig t e n h = close-IsSound s i sig t e h
plan_action-IsSound reopen s i sig t e n h = reopen-IsSound s t e h

-- Whatever is decided, short of resuming into `closed`, a sound state stays sound: a closed run has
-- its closure record, the phase is one of the profile's, no gate is approved behind one that is not,
-- and no gate outside the profile is decided.
pub plan_decision-IsSound :
    (s : RunState) (i : DecisionInput) (sig : Signature) (t : RunState)
    → plan_decision s i sig ≡ ok t
    → i.resume_phase ≢ some closed
    → IsSound s
    → IsSound t
unfolding plan_decision
plan_decision-IsSound s i sig t e n h =
    let (open_run, done) = >>-eq-ok _ _ e in plan_action-IsSound i.action s i sig t done n h
