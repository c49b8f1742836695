-- ===== src/Record/State.antt =====
-- The parsed state of a run and what is derived from it: packages/core/src/record/schema.ts.
use gateline.Prelude.{
  suc, ℕ, ℤ, String, Bool, false, not, ◌&&◌, Option, none, some, List, [], ◌∷◌, filter_by, is_none,
  ltb, mem_text, if◌then◌else◌,
}
use gateline.Record.Raw.{Raw, Stamp}
use gateline.Record.Phases.{
  Phase, finished, paused, closed, GateId, g0, g1, g2, g3, Profile, Burden, Disposition, Closure,
  profile_gates, profile_phases, gate_phases, first_phase, phase_eq, mem_phase,
  g2_complete_statuses,
}

pub record GateEntry : Type 0 where
  pub approved : Bool
  pub by : Option String
  pub at : Option Stamp
  pub notes : Option String
  pub burden : Option Burden

pub record Gates : Type 0 where
  pub g0 : GateEntry
  pub g1 : GateEntry
  pub g2 : GateEntry
  pub g3 : GateEntry

pub record TaskEntry : Type 0 where
  pub id : String
  pub status : String
  pub review_rounds : ℕ

pub record Escalation : Type 0 where
  pub at : Option Stamp
  pub from_role : Option String
  pub reason : String
  pub resolved : Bool
  pub resolved_by : Option String
  pub resolved_at : Option Stamp
  pub resolution : Option String
  pub disposition : Option Disposition

pub record ClosureRecord : Type 0 where
  pub closed_as : Closure
  pub by : Option String
  pub at : Option Stamp
  pub reason : Option String

-- `ledger` rides in the passthrough fields.
pub record Budget : Type 0 where
  pub cost_limit_usd : Option ℤ
  pub cost_spent_usd : Option ℤ
  pub ledger : Option Raw

pub record RunState : Type 0 where
  pub run : String
  pub branch : String
  pub phase : Phase
  pub profile : Profile
  pub paused_reason : Option String
  pub closure : Option ClosureRecord
  pub budget : Option Budget
  pub gates : Gates
  pub tasks : List TaskEntry
  pub escalations : List Escalation

-- `gates[g]`, and `doc.setIn(['gates', g, …], …)`.
abbrev pub gate_entry : Gates → GateId → GateEntry
gate_entry gs g0 = gs.g0
gate_entry gs g1 = gs.g1
gate_entry gs g2 = gs.g2
gate_entry gs g3 = gs.g3

abbrev pub set_gate : Gates → GateId → GateEntry → Gates
set_gate gs g0 e = record gs { g0 = e }
set_gate gs g1 e = record gs { g1 = e }
set_gate gs g2 e = record gs { g2 = e }
set_gate gs g3 e = record gs { g3 = e }

abbrev pub undecided_gate : GateEntry
undecided_gate = record { approved = false; by = none; at = none; notes = none; burden = none }

abbrev pub gate_undecided : GateEntry → Bool
gate_undecided g = not g.approved && is_none g.by

unfoldable pub resume_from : List GateId → Gates → Phase
resume_from [] gs = finished
resume_from (g ∷ rest) gs =
    if not (gate_entry gs g).approved then first_phase g else resume_from rest gs

unfoldable pub derive_resume_phase : RunState → Phase
unfolding resume_from
derive_resume_phase s = resume_from (profile_gates s.profile) s.gates

unfoldable pub pending_from : List GateId → Gates → Phase → Option GateId
pending_from [] gs phase = none
pending_from (g ∷ rest) gs phase =
    if (gate_entry gs g).approved
    then pending_from rest gs phase
    else if mem_phase phase (gate_phases g) && gate_undecided (gate_entry gs g)
    then some g
    else none

unfoldable pub pending_gate_at : RunState → Phase → Option GateId
unfolding pending_from
pending_gate_at s phase = pending_from (profile_gates s.profile) s.gates phase

unfoldable pub pending_gate : RunState → Option GateId
unfolding pending_gate_at
pending_gate s = pending_gate_at s s.phase

-- `sequence.indexOf(phase)`, `none` for -1.
abbrev pub index_of : Phase → List Phase → Option ℕ
index_of p [] = none
index_of p (q ∷ qs) =
    if phase_eq q p then some 0 else elim (index_of p qs) [ none ↦ none | some i ↦ some (suc i) ]

abbrev pub sequence : Profile → List Phase
sequence p = filter_by (λ q. not (phase_eq q paused) && not (phase_eq q closed)) (profile_phases p)

-- `x > here`, where an absent x is -1.
abbrev is_past : Option ℕ → ℕ → Bool
is_past none here = false
is_past (some i) here = ltb here i

unfoldable pub decision_phase : RunState → Phase
unfolding derive_resume_phase
decision_phase s =
    let derived = derive_resume_phase s in
    elim (index_of s.phase (sequence s.profile)) [
      | none ↦ derived
      | some here ↦
          if is_past (index_of derived (sequence s.profile)) here then derived else s.phase
    ]

abbrev pub g2_complete : String → Bool
g2_complete status = mem_text status g2_complete_statuses
