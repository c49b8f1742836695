-- ===== src/Record/Decision/Resuming.antt =====
-- What resuming a paused run requires and changes.
use mathlib.Core.Bool.{false≢true}
use gateline.Prelude.{
  ℤ, pos, ◌<ℤ◌, Bool, true, false, not, ◌&&◌, ◌≡◌, refl, ap, sym, ◌∙◌, Option, none, some, is_none,
  arith, if◌then◌else◌, or_else,
}
use gateline.Record.Phases.{
  Phase, paused, profile_gates, profile_phases, phase_eq, mem_phase, staged_reason, budget_reason,
  declined_reason,
}
use gateline.Record.State.{RunState, Budget, derive_resume_phase}
use gateline.Record.Decision.{
  DecisionInput, Amount, dollars, not_finite, ok, >>=-eq-ok, >>-eq-ok, ◌>>=◌, ◌>>◌, throw_if,
  throw_if-eq-ok, reason_is,
}
use gateline.Record.Decision.Plan.{reopen_gates, current_limit, check_limit, set_limit, plan_resume}

ok-injective : {a b : RunState} → ok a ≡ ok b → a ≡ b
ok-injective h = cc h

abbrev pub resumed : Phase → Option ℤ → RunState → RunState
resumed target raise s = record s {
  phase = target;
  paused_reason = none;
  budget = set_limit raise s.budget;
  gates =
      if reason_is s.paused_reason declined_reason
      then reopen_gates (profile_gates s.profile) s.gates
      else s.gates;
}

pub record Resumes (s : RunState) (i : DecisionInput) (t : RunState) : Type 0 where
  pub raise : Option ℤ
  pub was_paused : phase_eq s.phase paused ≡ true
  pub not_staged : reason_is s.paused_reason staged_reason ≡ false
  pub moves : phase_eq (or_else i.resume_phase (derive_resume_phase s)) paused ≡ false
  pub declared :
      mem_phase (or_else i.resume_phase (derive_resume_phase s)) (profile_phases s.profile) ≡ true
  pub limit : check_limit (current_limit s) i.cost_limit_usd ≡ ok raise
  pub funded : (reason_is s.paused_reason budget_reason && is_none raise) ≡ false
  pub result : t ≡ resumed (or_else i.resume_phase (derive_resume_phase s)) raise s

not-false : (b : Bool) → not b ≡ false → b ≡ true
not-false true h = refl
not-false false h = cc

pub plan_resume_lem :
    (s : RunState) (i : DecisionInput) (t : RunState) → plan_resume s i ≡ ok t → Resumes s i t
unfolding plan_resume
plan_resume_lem s i t e =
    let (was, e₁) = >>-eq-ok _ _ e in
    let (not_staged, e₂) = >>-eq-ok _ _ e₁ in
    let (moves, e₃) = >>-eq-ok _ _ e₂ in
    let (declared, e₄) = >>-eq-ok _ _ e₃ in
    let (raise, limit, e₅) = >>=-eq-ok _ _ e₄ in
    let (funded, e₆) = >>-eq-ok _ _ e₅ in
    record {
      raise = raise;
      was_paused = not-false _ (throw_if-eq-ok _ _ was);
      not_staged = throw_if-eq-ok _ _ not_staged;
      moves = throw_if-eq-ok _ _ moves;
      declared = not-false _ (throw_if-eq-ok _ _ declared);
      limit = limit;
      funded = throw_if-eq-ok _ _ funded;
      result = sym (ok-injective e₆);
    }

-- No limit at all, or one below the new limit.
abbrev pub IsBelow : Option ℤ → ℤ → Type 0
IsBelow none raise = Unit
IsBelow (some l) raise = l <ℤ raise

check_limit_lem :
    (limit : Option ℤ) (a : Option Amount) (raise : ℤ)
    → check_limit limit a ≡ ok (some raise)
    → (a ≡ some (dollars raise)) × (pos 0 <ℤ raise) × IsBelow limit raise
unfolding check_limit ◌>>◌ ◌>>=◌ throw_if
check_limit_lem none none raise e = cc
check_limit_lem none (some not_finite) raise e = cc
check_limit_lem none (some (dollars r)) raise e = ground arith
check_limit_lem (some l) none raise e = cc
check_limit_lem (some l) (some not_finite) raise e = cc
check_limit_lem (some l) (some (dollars r)) raise e = ground arith

given_limit :
    (s : RunState) (raise : Option ℤ)
    → s.paused_reason ≡ some budget_reason
    → (reason_is s.paused_reason budget_reason && is_none raise) ≡ false
    → (x : ℤ) × (raise ≡ some x)
given_limit s none b f = absurd (false≢true (sym f ∙ ap (λ o. reason_is o budget_reason && true) b))
given_limit s (some x) b f = (x, refl)

current_limit-set_limit :
    (b : Option Budget) (raise : Option ℤ) (x : ℤ)
    → raise ≡ some x
    → elim (set_limit raise b) [ none ↦ none | some c ↦ c.cost_limit_usd ] ≡ some x
unfolding set_limit
current_limit-set_limit b none x h = cc
current_limit-set_limit none (some y) x h = h
current_limit-set_limit (some b) (some y) x h = h

-- A run that is paused because its budget is exhausted resumes only with a new limit that is positive
-- and above the one in force, and that limit is in force afterwards.
pub resume_raises_limit :
    (s : RunState) (i : DecisionInput) (t : RunState)
    → plan_resume s i ≡ ok t
    → s.paused_reason ≡ some budget_reason
    → (raise : ℤ) × (i.cost_limit_usd ≡ some (dollars raise))
      × (pos 0 <ℤ raise)
      × IsBelow (current_limit s) raise
      × (current_limit t ≡ some raise)
unfolding set_limit
resume_raises_limit s i t e b =
    let r = plan_resume_lem s i t e in
    let (raise, given) : (x : ℤ) × (r.raise ≡ some x) = given_limit s r.raise b r.funded in
    let (named, positive, below) =
      check_limit_lem (current_limit s) i.cost_limit_usd raise (rw given at r.limit) in
    (
      raise,
      named,
      positive,
      below,
      ap current_limit r.result ∙ current_limit-set_limit s.budget r.raise raise given,
    )
