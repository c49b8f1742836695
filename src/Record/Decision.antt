-- ===== src/Record/Decision.antt =====
-- What a human may decide about a run: `planDecision` of packages/core/src/record/actions.ts.
-- A decision is planned on a state, and its mutation is applied to that state. The document that the
-- source mutates is read back as the parsed state, so `doc.setIn` is an update of a field.
pub mod Plan
pub mod Frontier
pub mod Approval
pub mod Resting
pub mod Resuming
pub mod Resolving
pub mod Sound
pub mod Reopening
pub mod Lifecycle
use gateline.Prelude.{
  ◌≡◌, refl, ℕ, ◌+◌, ℤ, pos, negsuc, ltb_ℤ, String, Bool, true, false, not, ◌&&◌, ◌||◌, Option,
  none, some, List, [], ◌∷◌, any, ltb, set, get_elem?, is_none, is_some, or_else, text_eq, trim,
  if◌then◌else◌,
}
use gateline.Record.Raw.{Stamp}
use gateline.Record.Phases.{
  Phase, finished, paused, closed, GateId, Profile, Burden, Disposition, Closure, profile_gates,
  profile_phases, phase_eq, gate_eq, mem_phase, mem_gate, phase_after_gate, gate_producer,
  staged_reason, declined_reason, budget_reason, escalation_reason,
}
use gateline.Record.State.{
  GateEntry, Gates, Escalation, ClosureRecord, Budget, RunState, gate_entry, set_gate,
  gate_undecided, derive_resume_phase, pending_gate_at, decision_phase,
}
use gateline.Record.Ledger.{BudgetLedgerEntry, role_timeout_ms, parse_ledger, is_open_dispatch}

pub data DecisionAction : Type 0 where
  approve decline resolve_escalation pause resume arm close reopen : DecisionAction

-- A number that a caller passed in.
pub data Amount : Type 0 where
  dollars : ℤ → Amount
  not_finite : Amount

pub record DecisionInput : Type 0 where
  pub action : DecisionAction
  pub gate : Option GateId
  pub notes : Option String
  pub burden : Option Burden
  pub escalation_index : Option ℤ
  pub disposition : Option Disposition
  pub advance_phase : Option Bool
  pub hold : Option Bool
  pub hold_reason : Option String
  pub pause_reason : Option String
  pub resume_phase : Option Phase
  pub cost_limit_usd : Option Amount
  pub closure : Option Closure

-- One constructor for each `throw new DecisionError(…)`.
pub data DecisionError : Type 0 where
  run_closed gate_required gate_not_in_profile gate_already_approved gate_was_declined :
      DecisionError
  run_staged gate_not_on_the_table producer_in_flight burden_required : DecisionError
  hold_reason_required hold_implies_no_advance gate_already_decided : DecisionError
  decline_reason_required index_out_of_range already_resolved : DecisionError
  resolution_required already_paused nothing_to_pause staging_is_no_pause : DecisionError
  not_paused use_arm invalid_resume_phase phase_not_in_profile : DecisionError
  limit_not_positive limit_not_higher budget_needs_limit not_staged : DecisionError
  done_not_closable already_closed disposition_required close_reason_required : DecisionError
  not_closed : DecisionError

pub data Result {ℓ} (A : Type ℓ) : Type ℓ where
  ok : A → Result A
  err : DecisionError → Result A

infixl 5 ◌>>=◌ ◌>>◌
unfoldable pub ◌>>=◌ {ℓ κ} : {A : Type ℓ} {B : Type κ} → Result A → (A → Result B) → Result B
ok a >>= f = f a
err e >>= f = err e

unfoldable pub ◌>>◌ {ℓ} : {B : Type ℓ} → Result (Unit {0}) → Result B → Result B
m >> k = m >>= λ _. k

-- A chain that succeeds has succeeded at its first step.
pub >>=-eq-ok {ℓ κ} :
    {A : Type ℓ} {B : Type κ} (first : Result A) (next : A → Result B) {last : B}
    → (first >>= next) ≡ ok last
    → (a : A) × (first ≡ ok a) × (next a ≡ ok last)
unfolding ◌>>=◌
>>=-eq-ok (err refused) next e = cc
>>=-eq-ok (ok given) next e = (given, refl, e)

-- `if (b) throw new DecisionError(e)`.
unfoldable pub throw_if : Bool → DecisionError → Result (Unit {0})
throw_if true e = err e
throw_if false e = ok tt

pub throw_if-eq-ok : (b : Bool) (e : DecisionError) {u : Unit {0}} → throw_if b e ≡ ok u → b ≡ false
unfolding throw_if
throw_if-eq-ok true e h = cc
throw_if-eq-ok false e h = refl

pub >>-eq-ok {ℓ} :
    {B : Type ℓ} (m : Result (Unit {0})) (k : Result B) {r : B}
    → (m >> k) ≡ ok r
    → (m ≡ ok tt) × (k ≡ ok r)
unfolding ◌>>◌
>>-eq-ok m k h = let (u, p, q) = >>=-eq-ok m (λ _. k) h in (p, q)

-- `text?.trim()`, where an absent or an empty text is refused with `e`.
abbrev pub required_text : Option String → DecisionError → Result String
required_text none e = err e
required_text (some s) e = if text_eq (trim s) "" then err e else ok (trim s)

-- `text?.trim() || d`.
abbrev pub text_or : Option String → String → String
text_or none d = d
text_or (some s) d = if text_eq (trim s) "" then d else trim s

-- `paused_reason === r`.
abbrev pub reason_is : Option String → String → Bool
reason_is none r = false
reason_is (some s) r = text_eq s r

abbrev pub is_given {ℓ} : {A : Type ℓ} → Option A → DecisionError → Result A
is_given none e = err e
is_given (some a) e = ok a

abbrev pub is_true : Option Bool → Bool
is_true (some b) = b
is_true none = false

abbrev pub is_false : Option Bool → Bool
is_false (some b) = not b
is_false none = false

unfoldable pub require_gate : RunState → DecisionInput → Result GateId
require_gate s input = do
  gate ← is_given input.gate gate_required
  throw_if (not (mem_gate gate (profile_gates s.profile))) gate_not_in_profile
  ok gate

abbrev pub is_gate : Option GateId → GateId → Bool
is_gate none g = false
is_gate (some p) g = gate_eq p g

unfoldable pub require_on_the_table : RunState → GateId → Result (Unit {0})
require_on_the_table s gate = do
  throw_if (phase_eq s.phase paused && reason_is s.paused_reason staged_reason) run_staged
  throw_if (not (is_gate (pending_gate_at s (decision_phase s)) gate)) gate_not_on_the_table

-- Whether `Date.now() - Date.parse(at)` is below the time-out.
abbrev pub is_fresh : ℕ → Option Stamp → Bool
is_fresh now none = false
is_fresh now (some stamp) = elim stamp.ms [
  | none ↦ false
  | some at ↦ ltb now (at + role_timeout_ms)
]

unfoldable pub is_live_entry : ℕ → String → BudgetLedgerEntry → Bool
is_live_entry now role e =
    text_eq e.role role && is_open_dispatch e && not e.refused && is_fresh now e.at

unfoldable pub require_producer_at_rest : ℕ → RunState → GateId → Result (Unit {0})
unfolding is_live_entry
require_producer_at_rest now s gate = elim (gate_producer gate s.profile) [
  | none ↦ ok tt
  | some producer ↦
      throw_if (any (is_live_entry now producer.role) (parse_ledger (some s))) producer_in_flight
]
