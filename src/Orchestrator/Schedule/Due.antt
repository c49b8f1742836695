-- ===== src/Orchestrator/Schedule/Due.antt =====
-- When a sweep is dispatched: packages/orchestrator/src/schedule.ts.
use gateline.Prelude.{◌≡◌, ◌↔◌, true, false, arith}
use gateline.Orchestrator.Schedule.{
  SweepFacts, dispatch_due, is_open, is_recent, over_limit, derive_sweep,
}

-- A sweep is dispatched exactly when its schedule is enabled, no sweep of the role is open, the last one
-- whose time is readable is at least the interval old, none was made today, and its estimate is within
-- the schedule's limit.
pub derive_sweep_iff :
    (f : SweepFacts)
    → (derive_sweep f ≡ dispatch_due) ↔ (
        (f.entry.enabled ≡ true)
        × (is_open f.open_sweep ≡ false)
        × (is_recent f.now f.entry.every_ms f.last_swept_at ≡ false)
        × (f.slug_taken ≡ false)
        × (over_limit f.estimate_usd f.entry.cost_limit_usd ≡ false))
unfolding derive_sweep
derive_sweep_iff f = (λ e. ground arith, λ h. ground arith)
