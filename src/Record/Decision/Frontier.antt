-- ===== src/Record/Decision/Frontier.antt =====
-- Which gate a decision may be about: `requireGate`, `requireOnTheTable` and `pendingGateAt`.
use gateline.Prelude.{◌<◌, true, ◌≡◌, Option, none, some, All, arith}
use gateline.Record.Phases.{
  Phase, GateId, profile_gates, gate_phases, gate_index, mem_gate, mem_phase,
}
use gateline.Record.State.{RunState, gate_entry, gate_undecided, pending_gate_at, decision_phase}
use gateline.Record.Decision.{ok, ◌>>=◌, ◌>>◌, throw_if, require_on_the_table, is_gate}

-- The first gate of the profile that is not approved: each one before it is, and nobody has decided it.
pub record IsFrontier (s : RunState) (g : GateId) : Type 0 where
  pub declared : mem_gate g (profile_gates s.profile) ≡ true
  pub undecided : gate_undecided (gate_entry s.gates g) ≡ true
  pub earlier :
      All
        (λ h. gate_index h < gate_index g → (gate_entry s.gates h).approved ≡ true)
        (profile_gates s.profile)

pub pending_gate_at-IsFrontier :
    (s : RunState) (p : Phase) (g : GateId)
    → pending_gate_at s p ≡ some g
    → IsFrontier s g × (mem_phase p (gate_phases g) ≡ true)
unfolding pending_gate_at
pending_gate_at-IsFrontier s p g e = ground arith

is_gate_lem : (o : Option GateId) (g : GateId) → is_gate o g ≡ true → o ≡ some g
is_gate_lem none g e = cc
is_gate_lem (some p) g e = ground arith

pub require_on_the_table_lem :
    (s : RunState) (g : GateId) {u : Unit {0}}
    → require_on_the_table s g ≡ ok u
    → pending_gate_at s (decision_phase s) ≡ some g
unfolding require_on_the_table ◌>>◌ ◌>>=◌ throw_if
require_on_the_table_lem s g e = is_gate_lem _ _ (ground arith)
