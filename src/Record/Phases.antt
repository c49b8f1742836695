-- ===== src/Record/Phases.antt =====
-- The vocabulary and the fixed tables of packages/core/src/record/schema.ts.
use gateline.Prelude.{ℕ, String, Bool, true, false, Option, none, some, List, [], ◌∷◌, ◌==◌, any}

pub data Phase : Type 0 where
  spec plan implement integrate release finished paused closed : Phase

pub data GateId : Type 0 where
  g0 g1 g2 g3 : GateId

pub data Profile : Type 0 where
  patch standard full : Profile

pub data Burden : Type 0 where
  confirmation light_correction heavy_correction : Burden

pub data Disposition : Type 0 where
  re_review return_to_implement re_plan : Disposition

pub data Closure : Type 0 where
  already_delivered superseded obsolete abandoned : Closure

-- `===` on the literals of an enumeration.
abbrev pub phase_index : Phase → ℕ
phase_index spec = 0
phase_index plan = 1
phase_index implement = 2
phase_index integrate = 3
phase_index release = 4
phase_index finished = 5
phase_index paused = 6
phase_index closed = 7

abbrev pub phase_eq : Phase → Phase → Bool
phase_eq p q = phase_index p == phase_index q

abbrev pub gate_index : GateId → ℕ
gate_index g0 = 0
gate_index g1 = 1
gate_index g2 = 2
gate_index g3 = 3

abbrev pub gate_eq : GateId → GateId → Bool
gate_eq g h = gate_index g == gate_index h

abbrev pub is_full : Profile → Bool
is_full full = true
is_full _ = false

abbrev pub is_patch : Profile → Bool
is_patch patch = true
is_patch _ = false

abbrev pub gate_ids : List GateId
gate_ids = g0 ∷ g1 ∷ g2 ∷ g3 ∷ []

abbrev pub profile_gates : Profile → List GateId
profile_gates patch = g1 ∷ g2 ∷ []
profile_gates standard = g0 ∷ g1 ∷ g2 ∷ []
profile_gates full = g0 ∷ g1 ∷ g2 ∷ g3 ∷ []

abbrev pub profile_phases : Profile → List Phase
profile_phases patch = plan ∷ implement ∷ integrate ∷ finished ∷ paused ∷ closed ∷ []
profile_phases standard = spec ∷ plan ∷ implement ∷ integrate ∷ finished ∷ paused ∷ closed ∷ []
profile_phases full =
    spec ∷ plan ∷ implement ∷ integrate ∷ release ∷ finished ∷ paused ∷ closed ∷ []

abbrev pub gate_phases : GateId → List Phase
gate_phases g0 = spec ∷ []
gate_phases g1 = plan ∷ []
gate_phases g2 = implement ∷ integrate ∷ []
gate_phases g3 = release ∷ []

-- `GATE_PHASES[gate][0]`.
abbrev pub first_phase : GateId → Phase
first_phase g0 = spec
first_phase g1 = plan
first_phase g2 = implement
first_phase g3 = release

abbrev pub phase_after : GateId → Phase
phase_after g0 = plan
phase_after g1 = implement
phase_after g2 = release
phase_after g3 = finished

abbrev pub mem_phase : Phase → List Phase → Bool
mem_phase p ps = any (phase_eq p) ps

abbrev pub mem_gate : GateId → List GateId → Bool
mem_gate g gs = any (gate_eq g) gs

unfoldable pub phase_after_gate : GateId → Profile → Phase
phase_after_gate g2 full = release
phase_after_gate g2 _ = finished
phase_after_gate g _ = phase_after g

pub record Producer : Type 0 where
  pub role : String
  pub artifact : String

unfoldable pub gate_producer : GateId → Profile → Option Producer
gate_producer g0 _ = some (record { role = "analyst"; artifact = "spec.md" })
gate_producer g1 patch = none
gate_producer g1 _ = some (record { role = "architect"; artifact = "plan.md" })
gate_producer g2 patch = some (record { role = "reviewer"; artifact = "a review report" })
gate_producer g2 _ = some (record { role = "verifier"; artifact = "verification-report.md" })
gate_producer g3 _ = some (record { role = "ops"; artifact = "release-plan.md" })

-- The constants of schema.ts.
abbrev pub staged_reason : String
staged_reason = "staged"

abbrev pub declined_reason : String
declined_reason = "gate-declined"

abbrev pub budget_reason : String
budget_reason = "budget-exhausted"

abbrev pub escalation_reason : String
escalation_reason = "escalation"

abbrev pub round_cap : ℕ
round_cap = 3

abbrev pub g2_complete_statuses : List String
g2_complete_statuses = "review-approved" ∷ "verified" ∷ "done" ∷ []
