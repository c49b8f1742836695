-- ===== src/Record/Decision/Approval.antt =====
-- What an approval and a decline require, and what they write.
use gateline.Prelude.{◌∙◌, sym, true, false, ◌≡◌, ◌≢◌, refl, some, arith, String, ap}
use gateline.Record.Phases.{
  GateId, g0, g1, g2, g3, gate_phases, mem_phase, paused, declined_reason, Burden,
}
use gateline.Record.State.{
  RunState, Gates, GateEntry, gate_entry, set_gate, decision_phase, pending_gate_at,
}
use gateline.Record.Decision.{
  DecisionInput, required_text, decline_reason_required, ok, require_gate, require_producer_at_rest,
  >>=-eq-ok, >>-eq-ok, ◌>>=◌, ◌>>◌, throw_if,
}
use gateline.Record.Decision.Plan.{
  Signature, Advance, move_to, plan_approve, plan_decline, plan_advance, approve_gate,
  advance_state, decline_gate,
}
use gateline.Record.Decision.Frontier.{
  IsFrontier, pending_gate_at-IsFrontier, require_on_the_table_lem,
}

require_gate_lem :
    (s : RunState) (i : DecisionInput) (g : GateId) → require_gate s i ≡ ok g → i.gate ≡ some g
unfolding require_gate ◌>>◌ ◌>>=◌ throw_if
require_gate_lem s i g e = ground arith

-- The state after an approval, before the phase moves.
pub record Approves (s : RunState) (i : DecisionInput) (sig : Signature) (t : RunState)
    : Type 0 where
  pub gate : GateId
  pub burden : Burden
  pub advance : Advance
  pub named : i.gate ≡ some gate
  pub categorised : i.burden ≡ some burden
  pub pending : pending_gate_at s (decision_phase s) ≡ some gate
  pub planned : plan_advance s i gate ≡ ok advance
  pub at_rest : require_producer_at_rest sig.now s gate ≡ ok tt
  pub result : t ≡ advance_state advance (approve_gate gate burden i.notes sig s)

pub plan_approve_lem :
    (s : RunState) (i : DecisionInput) (sig : Signature) (t : RunState)
    → plan_approve s i sig ≡ ok t
    → Approves s i sig t
unfolding plan_approve
plan_approve_lem s i sig t e =
    let (gate, named, e₁) = >>=-eq-ok _ _ e in
    let (undecided, e₂) = >>-eq-ok _ _ e₁ in
    let (table, e₃) = >>-eq-ok _ _ e₂ in
    let (at_rest, e₄) = >>-eq-ok _ _ e₃ in
    let (burden, categorised, e₅) = >>=-eq-ok _ _ e₄ in
    let (advance, planned, e₆) = >>=-eq-ok _ _ e₅ in
    record {
      gate = gate;
      burden = burden;
      advance = advance;
      named = require_gate_lem s i gate named;
      categorised = ground arith;
      pending = require_on_the_table_lem s gate table;
      planned = planned;
      at_rest = at_rest;
      result = ground arith;
    }

-- The state after a decline.
pub record Declines (s : RunState) (i : DecisionInput) (sig : Signature) (t : RunState)
    : Type 0 where
  pub gate : GateId
  pub reason : String
  pub named : i.gate ≡ some gate
  pub pending : pending_gate_at s (decision_phase s) ≡ some gate
  pub given : required_text i.notes decline_reason_required ≡ ok reason
  pub result : t ≡ decline_gate gate reason sig s

pub plan_decline_lem :
    (s : RunState) (i : DecisionInput) (sig : Signature) (t : RunState)
    → plan_decline s i sig ≡ ok t
    → Declines s i sig t
unfolding plan_decline
plan_decline_lem s i sig t e =
    let (gate, named, e₁) = >>=-eq-ok _ _ e in
    let (undecided, e₂) = >>-eq-ok _ _ e₁ in
    let (table, e₃) = >>-eq-ok _ _ e₂ in
    let (reason, given, e₄) = >>=-eq-ok (required_text i.notes decline_reason_required) _ e₃ in
    record {
      gate = gate;
      reason = reason;
      named = require_gate_lem s i gate named;
      pending = require_on_the_table_lem s gate table;
      given = given;
      result = ground arith;
    }

-- What a decision about the gate `g` may rest on and touch: it is the first gate of the profile that
-- is not approved, nobody has decided it, and it is decided in the phase that the run stands in (or
-- that its gates derive); the entries of the other gates are left as they were.
pub record Decides (s : RunState) (g : GateId) (t : RunState) : Type 0 where
  pub frontier : IsFrontier s g
  pub on_the_table : mem_phase (decision_phase s) (gate_phases g) ≡ true
  pub others : (h : GateId) → h ≢ g → gate_entry t.gates h ≡ gate_entry s.gates h

pub set_gate_ne :
    (gs : Gates) (g h : GateId) (e : GateEntry)
    → h ≢ g
    → gate_entry (set_gate gs g e) h ≡ gate_entry gs h
set_gate_ne gs g0 g0 e n = absurd (n refl)
set_gate_ne gs g1 g1 e n = absurd (n refl)
set_gate_ne gs g2 g2 e n = absurd (n refl)
set_gate_ne gs g3 g3 e n = absurd (n refl)
set_gate_ne gs _ _ e n = refl

pub set_gate_self : (gs : Gates) (g : GateId) (e : GateEntry) → gate_entry (set_gate gs g e) g ≡ e
set_gate_self gs g0 e = refl
set_gate_self gs _ e = refl

gates-advance_state : (a : Advance) (s : RunState) → (advance_state a s).gates ≡ s.gates
unfolding advance_state
gates-advance_state (move_to p) s = refl
gates-advance_state _ s = refl

-- An approval is of a named gate that is on the table: the profile's first gate that is not approved,
-- undecided, in a phase that the gate belongs to. It records the gate as approved by the signer, with
-- the burden and the notes that were given, and changes no other gate.
pub approve-Decides_frontier :
    (s : RunState) (i : DecisionInput) (sig : Signature) (t : RunState)
    → plan_approve s i sig ≡ ok t
    → (g : GateId) × (i.gate ≡ some g)
      × Decides s g t
      × ((gate_entry t.gates g).approved ≡ true)
      × ((gate_entry t.gates g).by ≡ some sig.who)
      × ((gate_entry t.gates g).notes ≡ i.notes)
      × ((gate_entry t.gates g).burden ≡ i.burden)
unfolding approve_gate
approve-Decides_frontier s i sig t e =
    let a = plan_approve_lem s i sig t e in
    let (frontier, table) = pending_gate_at-IsFrontier s (decision_phase s) a.gate a.pending in
    let gates : t.gates ≡ (approve_gate a.gate a.burden i.notes sig s).gates =
      ap (λ (u : RunState). u.gates) a.result ∙ gates-advance_state a.advance _ in
    let written =
      ap (λ (gs : Gates). gate_entry gs a.gate) gates ∙ set_gate_self s.gates a.gate _ in
    (
      a.gate,
      a.named,
      record {
        frontier = frontier;
        on_the_table = table;
        others =
            λ h n. ap (λ (gs : Gates). gate_entry gs h) gates ∙ set_gate_ne s.gates a.gate h _ n;
      },
      ap (λ (x : GateEntry). x.approved) written,
      ap (λ (x : GateEntry). x.by) written,
      ap (λ (x : GateEntry). x.notes) written,
      ap (λ (x : GateEntry). x.burden) written ∙ sym a.categorised,
    )

-- A decline is of a named gate that is on the table, with a reason that is not blank; it records who
-- declined it and the trimmed reason, changes no other gate, and pauses the run as declined.
pub decline-Decides_frontier :
    (s : RunState) (i : DecisionInput) (sig : Signature) (t : RunState)
    → plan_decline s i sig ≡ ok t
    → (g : GateId) × (reason : String) × (i.gate ≡ some g)
      × Decides s g t
      × (required_text i.notes decline_reason_required ≡ ok reason)
      × ((gate_entry t.gates g).approved ≡ false)
      × ((gate_entry t.gates g).by ≡ some sig.who)
      × ((gate_entry t.gates g).notes ≡ some reason)
      × (t.phase ≡ paused)
      × (t.paused_reason ≡ some declined_reason)
unfolding decline_gate
decline-Decides_frontier s i sig t e =
    let a = plan_decline_lem s i sig t e in
    let (frontier, table) = pending_gate_at-IsFrontier s (decision_phase s) a.gate a.pending in
    let gates : t.gates ≡ (decline_gate a.gate a.reason sig s).gates =
      ap (λ (u : RunState). u.gates) a.result in
    let written =
      ap (λ (gs : Gates). gate_entry gs a.gate) gates ∙ set_gate_self s.gates a.gate _ in
    (
      a.gate,
      a.reason,
      a.named,
      record {
        frontier = frontier;
        on_the_table = table;
        others =
            λ h n. ap (λ (gs : Gates). gate_entry gs h) gates ∙ set_gate_ne s.gates a.gate h _ n;
      },
      a.given,
      ap (λ (x : GateEntry). x.approved) written,
      ap (λ (x : GateEntry). x.by) written,
      ap (λ (x : GateEntry). x.notes) written,
      ap (λ (u : RunState). u.phase) a.result,
      ap (λ (u : RunState). u.paused_reason) a.result,
    )
