-- ===== src/Examples/Compositions.antt =====
-- How the decisions of packages/core/src/record/actions.ts compose, on a sample run.
use gateline.Prelude.{
  ◌≢◌, ◌≡◌, ◌⊎◌, ◌↔◌, refl, true, false, none, some, is_some, trim, trim_start, trim_end, is_space,
}
use gateline.Record.Phases.{
  g1, plan, paused, closed, finished, obsolete, phase_eq, escalation_reason,
}
use gateline.Record.State.{RunState, derive_resume_phase, resume_from, pending_gate}
use gateline.Record.Decision.{
  DecisionInput, pause, resume, close, approve, ok, err, run_closed, already_closed, required_text,
  close_reason_required, ◌>>=◌, ◌>>◌, throw_if,
}
use gateline.Record.Decision.Plan.{
  plan_pause, plan_resume, plan_close, plan_reopen, plan_decision, decline_gate, reopen_gates,
  check_limit, set_limit,
}
use gateline.Record.Decision.Lifecycle.{
  closed_is_final, reopen-close, close_iff, is_ok, resume-pause,
}
use gateline.Record.Decision.Reopening.{
  pending_gate-resume-decline, approve_lands_in_phase, resume_into_closed,
}
use gateline.Record.Decision.Sound.{refined}
use gateline.Examples.{planning, ada, request, noon}
use gateline.Examples.Decisions.{
  approval, approved_run, approval_ok, refusal, declined_run, refusal_ok, planning-IsSound,
}

abbrev closing : DecisionInput
closing = record (request close) { notes = some "superseded by the inbox"; closure = some obsolete }

abbrev closed_run : RunState
closed_run = record planning {
  phase = closed;
  closure = some (record {
    closed_as = obsolete;
    by = some "ada";
    at = some noon;
    reason = some "superseded by the inbox";
  });
}

closing_ok : plan_close planning closing ada ≡ ok closed_run
unfolding plan_close ◌>>=◌ ◌>>◌ throw_if trim trim_start trim_end is_space
closing_ok = refl

closed_is_final_example :
    (approve ≡ close) × (plan_decision closed_run approval ada ≡ err already_closed)
    ⊎ (approve ≢ close) × (plan_decision closed_run approval ada ≡ err run_closed)
closed_is_final_example = closed_is_final closed_run approval ada refl (λ e. cc e)

reopen-close_example :
    plan_reopen closed_run
    ≡ ok (record planning {
      phase = derive_resume_phase planning;
      paused_reason = none;
      closure = none;
    })
reopen-close_example = reopen-close planning closed_run closing ada closing_ok

close_iff_example : (is_ok (plan_close planning closing ada) ≡ true) ↔ (
    (phase_eq plan finished ≡ false)
    × (phase_eq plan closed ≡ false)
    × (is_some (some obsolete) ≡ true)
    × (is_ok (required_text (some "superseded by the inbox") close_reason_required) ≡ true))
close_iff_example = close_iff planning closing ada

abbrev paused_run : RunState
paused_run = record planning { phase = paused; paused_reason = some escalation_reason }

pausing_ok : plan_pause planning (request pause) ≡ ok paused_run
unfolding plan_pause ◌>>=◌ ◌>>◌ throw_if
pausing_ok = refl

resume-pause_example :
    plan_resume paused_run (request resume)
    ≡ ok (record planning { phase = derive_resume_phase planning; paused_reason = none })
resume-pause_example =
    resume-pause planning paused_run (request pause) (request resume) pausing_ok refl refl refl refl

abbrev resumed_run : RunState
resumed_run = planning

resuming_ok : plan_resume declined_run (request resume) ≡ ok resumed_run
unfolding plan_resume derive_resume_phase resume_from check_limit set_limit ◌>>=◌ ◌>>◌ throw_if
    reopen_gates decline_gate
resuming_ok = refl

pending_gate-resume-decline_example : pending_gate resumed_run ≡ some g1
pending_gate-resume-decline_example =
    pending_gate-resume-decline planning declined_run resumed_run refusal (request resume) ada
      refusal_ok resuming_ok refl

approve_lands_in_phase_example :
    (approved_run.phase ≡ derive_resume_phase approved_run) × (approved_run.paused_reason ≡ none)
approve_lands_in_phase_example =
    approve_lands_in_phase planning approved_run approval ada planning-IsSound approval_ok refl refl

abbrev into_closed : DecisionInput
into_closed = record (request resume) { resume_phase = some closed }

resume_into_closed_example :
    (t : RunState) × (plan_decision paused_run into_closed ada ≡ ok t) × (refined t ≡ false)
resume_into_closed_example =
    resume_into_closed paused_run into_closed ada refl refl refl refl refl refl refl
