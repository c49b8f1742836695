-- ===== src/Record/Decision/Resolving.antt =====
-- What resolving an escalation requires and changes.
use gateline.Prelude.{
  ℕ, zero, suc, ℤ, pos, negsuc, String, true, false, ◌≡◌, ◌≢◌, refl, ap, Option, none, some, List,
  [], ◌∷◌, length, get_elem?, set, arith, if◌then◌else◌, length-set,
}
use gateline.Record.State.{Escalation, RunState}
use gateline.Record.Decision.{
  DecisionInput, ok, >>=-eq-ok, >>-eq-ok, throw_if-eq-ok, required_text, resolution_required,
}
use gateline.Record.Decision.Plan.{Signature, indexed, resolve_entry, plan_resolve}

pub record Resolves (s : RunState) (i : DecisionInput) (sig : Signature) (t : RunState)
    : Type 0 where
  pub index : ℕ
  pub entry : Escalation
  pub resolution : String
  pub named : i.escalation_index ≡ some (pos index)
  pub found : get_elem? s.escalations index ≡ some entry
  pub unresolved : entry.resolved ≡ false
  pub given : required_text i.notes resolution_required ≡ ok resolution
  pub result : t ≡ record s {
    escalations = set s.escalations index (resolve_entry resolution i.disposition sig entry);
  }

indexed_lem :
    (o : Option ℤ) (es : List Escalation) (n : ℕ) (e : Escalation)
    → indexed o es ≡ ok (n, e)
    → (o ≡ some (pos n)) × (get_elem? es n ≡ some e)
indexed_lem none es n e h = cc
indexed_lem (some (negsuc k)) es n e h = cc
indexed_lem (some (pos k)) es n e h = ground arith

pub plan_resolve_lem :
    (s : RunState) (i : DecisionInput) (sig : Signature) (t : RunState)
    → plan_resolve s i sig ≡ ok t
    → Resolves s i sig t
unfolding plan_resolve
plan_resolve_lem s i sig t e =
    let ((n, entry), found, e₁) = >>=-eq-ok (indexed i.escalation_index s.escalations) _ e in
    let (unresolved, e₂) = >>-eq-ok _ _ e₁ in
    let (resolution, given, e₃) = >>=-eq-ok (required_text i.notes resolution_required) _ e₂ in
    let at = indexed_lem i.escalation_index s.escalations n entry found in
    record {
      index = n;
      entry = entry;
      resolution = resolution;
      named = at.0;
      found = at.1;
      unresolved = throw_if-eq-ok _ _ unresolved;
      given = given;
      result = ground arith;
    }

-- How many escalations are still open.
unfoldable pub open_escalations : List Escalation → ℕ
open_escalations [] = 0
open_escalations (e ∷ es) = if e.resolved then open_escalations es else suc (open_escalations es)

open_escalations-set :
    (es : List Escalation) (n : ℕ) (e f : Escalation)
    → get_elem? es n ≡ some e
    → e.resolved ≡ false
    → f.resolved ≡ true
    → open_escalations es ≡ suc (open_escalations (set es n f))
unfolding open_escalations
open_escalations-set [] n e f h u r = cc
open_escalations-set (x ∷ es) zero e f h u r = ground arith
open_escalations-set (x ∷ es) (suc n) e f h u r =
    ground (arith, open_escalations-set es n e f h u r)

pub get_elem?-set_ne :
    (es : List Escalation) (n m : ℕ) (f : Escalation)
    → m ≢ n
    → get_elem? (set es n f) m ≡ get_elem? es m
get_elem?-set_ne [] n m f h = refl
get_elem?-set_ne (x ∷ es) zero zero f h = absurd (h refl)
get_elem?-set_ne (x ∷ es) zero (suc m) f h = refl
get_elem?-set_ne (x ∷ es) (suc n) zero f h = refl
get_elem?-set_ne (x ∷ es) (suc n) (suc m) f h = get_elem?-set_ne es n m f (λ p. h (ap suc p))

pub get_elem?-set_self :
    (es : List Escalation) (n : ℕ) {e : Escalation} (f : Escalation)
    → get_elem? es n ≡ some e
    → get_elem? (set es n f) n ≡ some f
get_elem?-set_self [] n f h = cc
get_elem?-set_self (x ∷ es) zero f h = refl
get_elem?-set_self (x ∷ es) (suc n) f h = get_elem?-set_self es n f h

-- Resolving closes one open escalation, the one at the index that was given: it keeps its reason and
-- records the signer. Every other entry, the number of entries, the phase and
-- the gates stay.
pub resolve_closes_one :
    (s : RunState) (i : DecisionInput) (sig : Signature) (t : RunState)
    → plan_resolve s i sig ≡ ok t
    → (n : ℕ) × (e : Escalation) × (f : Escalation) × (i.escalation_index ≡ some (pos n))
      × (get_elem? s.escalations n ≡ some e)
      × (get_elem? t.escalations n ≡ some f)
      × (e.resolved ≡ false)
      × (f.resolved ≡ true)
      × (f.reason ≡ e.reason)
      × (f.resolved_by ≡ some sig.who)
      × ((m : ℕ) → m ≢ n → get_elem? t.escalations m ≡ get_elem? s.escalations m)
      × (length t.escalations ≡ length s.escalations)
      × (open_escalations s.escalations ≡ suc (open_escalations t.escalations))
      × (t.phase ≡ s.phase)
      × (t.gates ≡ s.gates)
unfolding resolve_entry
resolve_closes_one s i sig t h =
    let r = plan_resolve_lem s i sig t h in
    let f = resolve_entry r.resolution i.disposition sig r.entry in
    rw r.result (
      r.index,
      r.entry,
      f,
      r.named,
      r.found,
      get_elem?-set_self s.escalations r.index f r.found,
      r.unresolved,
      refl,
      refl,
      refl,
      (λ m n. get_elem?-set_ne s.escalations r.index m f n),
      length-set s.escalations r.index f,
      open_escalations-set s.escalations r.index r.entry f r.found r.unresolved refl,
      refl,
      refl,
    )
