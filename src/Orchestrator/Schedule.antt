-- ===== src/Orchestrator/Schedule.antt =====
-- Whether a scheduled sweep is due: `deriveSweep` of packages/orchestrator/src/schedule.ts.
pub mod Due
use gateline.Prelude.{
  ℕ, ◌+◌, ℤ, ltb, ltb_ℤ, String, Bool, true, false, not, Option, none, some, text_eq, if◌then◌else◌,
}
use gateline.Record.Raw.{Stamp}

pub record ScheduleEntry : Type 0 where
  pub role : String
  pub every_ms : ℕ
  pub cost_limit_usd : Option ℤ
  pub enabled : Bool
  pub every : String

pub record SweepFacts : Type 0 where
  pub now : ℕ
  pub entry : ScheduleEntry
  pub last_swept_at : Option Stamp
  pub open_sweep : Option String
  pub slug_taken : Bool
  pub estimate_usd : ℤ

-- The decision, by its rule.
pub data SweepDecision : Type 0 where
  rest_disabled rest_open rest_recent rest_taken skip_budget dispatch_due : SweepDecision

abbrev pub is_open : Option String → Bool
is_open none = false
is_open (some sweep) = not (text_eq sweep "")

-- `now - last < everyMs`, where the last sweep's time is readable.
abbrev pub is_recent : ℕ → ℕ → Option Stamp → Bool
is_recent now every_ms none = false
is_recent now every_ms (some stamp) = elim stamp.ms [
  | none ↦ false
  | some last ↦ ltb now (last + every_ms)
]

abbrev pub over_limit : ℤ → Option ℤ → Bool
over_limit estimate none = false
over_limit estimate (some limit) = ltb_ℤ limit estimate

unfoldable pub derive_sweep : SweepFacts → SweepDecision
derive_sweep f =
    if not f.entry.enabled
    then rest_disabled
    else if is_open f.open_sweep
    then rest_open
    else if is_recent f.now f.entry.every_ms f.last_swept_at
    then rest_recent
    else if f.slug_taken
    then rest_taken
    else if over_limit f.estimate_usd f.entry.cost_limit_usd
    then skip_budget
    else dispatch_due
