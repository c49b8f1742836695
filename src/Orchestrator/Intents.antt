-- ===== src/Orchestrator/Intents.antt =====
-- What derivation answers: the actions, dispatches and bookkeeping of
-- packages/orchestrator/src/derive.ts. The texts shown to a reader (`why`, and the reason of a
-- dispatch) are left out; the reasons of escalations are written to the state and read again.
use Prim.Native.Nat.{◌^◌}
use gateline.Prelude.{suc, zero, digit, text_eq, ◌≡◌, refl}
use gateline.Prelude.{
  ℕ, ℤ, pos, negsuc, String, Option, none, some, List, [], ◌∷◌, join, decimal, ◌/◌, ◌%◌, ◌+◌, ◌==◌,
  if◌then◌else◌,
}
use gateline.Record.Phases.{Phase, GateId, g0, g1, g2, g3}

pub data Rule : Type 0 where
  d0 d1 d2 d3 d4 d5 d6 d7 d8 d9 d10 d11 d12 d13 d16 d17 d19 d20 d21 d22 d23 d24 d25 dl db : Rule

pub data Bounce : Type 0 where
  malformed : String → List String → Bounce
  gate_declined : GateId → Option String → Bounce
  review : String → Bounce
  amendment : String → String → String → Bounce

pub record DispatchIntent : Type 0 where
  pub role : String
  pub task : Option String
  pub round : Option ℕ
  pub bounce : Option Bounce
  pub lands : Option String

pub data Bookkeeping : Type 0 where
  set_phase : Phase → Bookkeeping
  set_status : String → String → Bookkeeping
  set_rounds : String → ℕ → Bookkeeping
  seed_tasks : List String → Bookkeeping

pub data DerivedAction : Type 0 where
  rest : Rule → DerivedAction
  dispatch : Rule → List DispatchIntent → DerivedAction
  book : Rule → List Bookkeeping → DerivedAction
  escalate : Rule → String → Option String → DerivedAction

abbrev pub bounce_cap : ℕ
bounce_cap = 2

abbrev pub landing_cap : ℕ
landing_cap = 2

-- Five dollars.
abbrev pub default_estimate : ℤ
default_estimate = pos 5000000

abbrev pub gate_role : GateId → String
gate_role g0 = "analyst"
gate_role g1 = "architect"
gate_role g2 = "verifier"
gate_role g3 = "ops"

abbrev pub gate_artifact : GateId → String
gate_artifact g0 = "spec.md"
gate_artifact g1 = "plan.md"
gate_artifact g2 = "verification-report.md"
gate_artifact g3 = "release-plan.md"

abbrev pub verifier_escalation_key : String
verifier_escalation_key = "verifier escalated"

abbrev pub verifier_escalation_reason : String
verifier_escalation_reason = join (
    verifier_escalation_key
    ∷ " — a failure traces to the spec, plan, or gate process, not the implementation; see verification-report.md"
    ∷ [])

abbrev on_task : Option String → String
on_task none = ""
on_task (some task) = if text_eq task "" then "" else join (" on " ∷ task ∷ [])

unfoldable pub landing_escalation_key : String → Option String → String
landing_escalation_key role task = join (role ∷ on_task task ∷ " returned" ∷ [])

unfoldable pub landing_escalation_reason : String → Option String → ℕ → String → String
landing_escalation_reason role task times artifact = join (
    landing_escalation_key role task
    ∷ " "
    ∷ decimal times
    ∷ "× without landing "
    ∷ artifact
    ∷ " — a human should look"
    ∷ [])

-- The key by which rule D4 finds its own escalation.
unfoldable pub task_key : String → String
task_key task = join ("task " ∷ task ∷ ":" ∷ [])

unfoldable pub round_cap_reason : String → ℕ → String
round_cap_reason task rounds = join (
    "task "
    ∷ task
    ∷ ": "
    ∷ decimal rounds
    ∷ " review rounds without convergence — usually a spec ambiguity"
    ∷ [])

-- An amount with two places, as `toFixed(2)` prints it.
abbrev fixed_part : ℕ → String
fixed_part n =
    let cents = (n + 5000) / 10000 in
    join (decimal (cents / 100) ∷ "." ∷ digit (cents % 100 / 10) ∷ digit (cents % 10) ∷ [])

unfoldable pub to_fixed : ℤ → String
to_fixed (pos n) = fixed_part n
to_fixed (negsuc n) = join ("-" ∷ fixed_part (suc n) ∷ [])

-- The digits behind the point, the last zeros left out.
fraction : ℕ → ℕ → String
fraction zero n = ""
fraction (suc places) n =
    let unit = 10 ^ places in
    let behind = fraction places (n % unit) in
    if n == 0 then "" else join (digit (n / unit) ∷ behind ∷ [])

abbrev number_part : ℕ → String
number_part n = join (
    decimal (n / 1000000)
    ∷ (if n % 1000000 == 0 then "" else join ("." ∷ fraction 6 (n % 1000000) ∷ []))
    ∷ [])

-- An amount as a template literal prints it.
unfoldable pub number_text : ℤ → String
unfolding fraction
number_text (pos n) = number_part n
number_text (negsuc n) = join ("-" ∷ number_part (suc n) ∷ [])

unfoldable pub over_budget_reason : ℤ → ℤ → ℤ → String
unfolding to_fixed number_text
over_budget_reason projected spent limit = join (
    "projected spend $"
    ∷ to_fixed projected
    ∷ " (ledger $"
    ∷ to_fixed spent
    ∷ " + estimates) exceeds cost_limit_usd $"
    ∷ number_text limit
    ∷ " — pausing rather than degrading"
    ∷ [])

reason_test :
    over_budget_reason (pos 31500000) (pos 26499999) (pos 30250000)
    ≡ "projected spend $31.50 (ledger $26.50 + estimates) exceeds cost_limit_usd $30.25 — pausing rather than degrading"
unfolding over_budget_reason decimal
reason_test = refl
