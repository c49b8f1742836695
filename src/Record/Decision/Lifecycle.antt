-- ===== src/Record/Decision/Lifecycle.antt =====
-- How decisions compose: closing and reopening, pausing and resuming, declining and deciding again.
use gateline.Record.Decision.Sound.{derive_resume_phase-placed, derive_resume_phase-ne-paused}
use gateline.Record.Phases.{escalation_reason}
use gateline.Record.Decision.{text_or}
use gateline.Prelude.{◌⊎◌, ◌↔◌}
use gateline.Prelude.{
  Bool, true, false, ◌≡◌, ◌≢◌, refl, none, some, arith, String, is_some, text_eq,
}
use gateline.Record.Phases.{
  paused, closed, finished, phase_eq, staged_reason, budget_reason, declined_reason,
}
use gateline.Record.State.{RunState, derive_resume_phase}
use gateline.Record.Decision.{
  close, reopen, DecisionInput, Result, ok, err, run_closed, already_closed, ◌>>=◌, ◌>>◌, throw_if,
  reason_is, required_text, close_reason_required,
}
use gateline.Record.Decision.Plan.{
  Signature, plan_pause, check_limit, set_limit, plan_resume, plan_close, plan_reopen, plan_action,
  plan_decision,
}

-- A closed run refuses every decision but to reopen it: closing it again is answered that it is already
-- closed, and any other decision that the run is closed.
pub closed_is_final :
    (s : RunState) (i : DecisionInput) (sig : Signature)
    → s.phase ≡ closed
    → i.action ≢ reopen
    → (i.action ≡ close) × (plan_decision s i sig ≡ err already_closed)
      ⊎ (i.action ≢ close) × (plan_decision s i sig ≡ err run_closed)
unfolding plan_decision plan_action plan_close ◌>>=◌ ◌>>◌ throw_if
closed_is_final s i sig c n = ground arith

-- Reopening what was closed gives back the run as it was, at the phase that its gates derive.
pub reopen-close :
    (s t : RunState) (i : DecisionInput) (sig : Signature)
    → plan_close s i sig ≡ ok t
    → plan_reopen t
      ≡ ok (record s { phase = derive_resume_phase s; paused_reason = none; closure = none })
unfolding plan_close plan_reopen derive_resume_phase ◌>>=◌ ◌>>◌ throw_if
reopen-close s t i sig e = ground arith

abbrev pub is_ok {ℓ} : {A : Type ℓ} → Result A → Bool
is_ok (ok a) = true
is_ok (err e) = false

-- A run can be closed exactly when it is neither done nor closed, a disposition is given, and the
-- notes are not blank.
pub close_iff :
    (s : RunState) (i : DecisionInput) (sig : Signature)
    → (is_ok (plan_close s i sig) ≡ true) ↔ (
        (phase_eq s.phase finished ≡ false)
        × (phase_eq s.phase closed ≡ false)
        × (is_some i.closure ≡ true)
        × (is_ok (required_text i.notes close_reason_required) ≡ true))
unfolding plan_close ◌>>=◌ ◌>>◌ throw_if
close_iff s i sig = (λ e. ground arith, λ h. ground arith)

plan_pause_lem :
    (s t : RunState) (i : DecisionInput)
    → plan_pause s i ≡ ok t
    → (r : String) × (t ≡ record s { phase = paused; paused_reason = some r })
      × (text_eq r staged_reason ≡ false)
unfolding plan_pause ◌>>=◌ ◌>>◌ throw_if
plan_pause_lem s t i e = (text_or i.pause_reason escalation_reason, ground arith, ground arith)

abbrev paused_with : String → RunState → RunState
paused_with r s = record s { phase = paused; paused_reason = some r }

derive_resume_phase-paused_with :
    (r : String) (s : RunState) → derive_resume_phase (paused_with r s) ≡ derive_resume_phase s
unfolding derive_resume_phase
derive_resume_phase-paused_with r s = refl

resume_paused_with :
    (s : RunState) (r : String) (j : DecisionInput)
    → text_eq r staged_reason ≡ false
    → text_eq r declined_reason ≡ false
    → text_eq r budget_reason ≡ false
    → j.resume_phase ≡ none
    → j.cost_limit_usd ≡ none
    → plan_resume (paused_with r s) j
      ≡ ok (record s { phase = derive_resume_phase s; paused_reason = none })
unfolding plan_resume check_limit set_limit ◌>>=◌ ◌>>◌ throw_if
resume_paused_with s r j n d b p c =
    rw (p, c, n, d, b, derive_resume_phase-paused_with)
      (ground (arith, derive_resume_phase-placed s, derive_resume_phase-ne-paused s))

-- Resuming a paused run, with nothing else asked for, undoes the pause, at the phase that the gates
-- derive, whatever the reason for the pause was, short of `gate-declined` and `budget-exhausted`.
pub resume-pause :
    (s t : RunState) (i j : DecisionInput)
    → plan_pause s i ≡ ok t
    → reason_is t.paused_reason declined_reason ≡ false
    → reason_is t.paused_reason budget_reason ≡ false
    → j.resume_phase ≡ none
    → j.cost_limit_usd ≡ none
    → plan_resume t j ≡ ok (record s { phase = derive_resume_phase s; paused_reason = none })
resume-pause s t i j e d b p c =
    let (r, t_lem, n) = plan_pause_lem s t i e in
    rw t_lem (resume_paused_with s r j n (rw t_lem at d) (rw t_lem at b) p c)
