-- ===== src/Record/Decision/Resting.antt =====
-- Whether an approval waits for the gate's producer: `requireProducerAtRest` of
-- packages/core/src/record/actions.ts, on the entries of the ledger.
use text.Mathlib.TextEquality.{eq_iff}
use gateline.Prelude.{
  ℕ, zero, suc, ◌+◌, ◌<◌, ◌≡◌, ◌↔◌, refl, true, false, some, none, Option, List, [], ◌∷◌, any,
  get_elem?, arith, String, ◌&&◌, Option-cases, Bool-cases, inl, inr, text_eq,
}
use gateline.Record.Raw.{Stamp}
use gateline.Record.Phases.{
  GateId, paused, staged_reason, phase_eq, gate_producer, Producer, gate_eq,
}
use gateline.Record.State.{RunState, decision_phase, pending_gate_at, gate_undecided, gate_entry}
use gateline.Record.Ledger.{BudgetLedgerEntry, parse_ledger}
use gateline.Record.Decision.{
  DecisionInput, ok, err, producer_in_flight, require_gate, require_on_the_table,
  require_producer_at_rest, is_live_entry, is_fresh, reason_is, ◌>>=◌, ◌>>◌, throw_if,
}
use gateline.Record.Decision.Plan.{Signature, plan_approve, plan_advance}
use gateline.Record.Decision.Frontier.{pending_gate_at-IsFrontier}

-- A dispatch of the role with no cost yet, that neither failed nor was refused, and that was opened at a
-- readable time less than half an hour ago.
pub record IsRunning (now : ℕ) (role : String) (e : BudgetLedgerEntry) : Type 0 where
  pub same_role : e.role ≡ role
  pub unpaid : e.cost_usd ≡ none
  pub not_failed : e.failed ≡ false
  pub not_refused : e.refused ≡ false
  pub stamp : Stamp
  pub opened : ℕ
  pub stamped : e.at ≡ some stamp
  pub readable : stamp.ms ≡ some opened
  pub young : now < opened + 1800000

pub record HasRunning (now : ℕ) (role : String) (es : List BudgetLedgerEntry) : Type 0 where
  pub index : ℕ
  pub entry : BudgetLedgerEntry
  pub listed : get_elem? es index ≡ some entry
  pub running : IsRunning now role entry

is_fresh-opened :
    (now : ℕ) (o : Option Stamp)
    → is_fresh now o ≡ true
    → (s : Stamp) × (t : ℕ) × (o ≡ some s) × (s.ms ≡ some t) × (now < t + 1800000)
is_fresh-opened now none h = cc h
is_fresh-opened now (some s) h = elim (Option-cases s.ms) [
  | inl missing ↦ ground arith
  | inr (t, here) ↦ (s, t, refl, here, ground arith)
]

is_live_entry-IsRunning :
    (now : ℕ) (role : String) (e : BudgetLedgerEntry)
    → is_live_entry now role e ≡ true
    → IsRunning now role e
unfolding is_live_entry
is_live_entry-IsRunning now role e h =
    let fresh : is_fresh now e.at ≡ true = ground arith in
    let named : text_eq e.role role ≡ true = ground arith in
    let (s, t, stamped, readable, young) = is_fresh-opened now e.at fresh in
    record {
      same_role = (eq_iff e.role role).0 named;
      unpaid = ground arith;
      not_failed = ground arith;
      not_refused = ground arith;
      stamp = s;
      opened = t;
      stamped = stamped;
      readable = readable;
      young = young;
    }

IsRunning-is_live_entry :
    (now : ℕ) (role : String) (e : BudgetLedgerEntry)
    → IsRunning now role e
    → is_live_entry now role e ≡ true
unfolding is_live_entry
IsRunning-is_live_entry now role e r =
    let named : text_eq e.role role ≡ true = (eq_iff e.role role).1 r.same_role in
    ground (arith, named, r.unpaid, r.not_failed, r.not_refused, r.stamped, r.readable, r.young)

any-HasRunning :
    (now : ℕ) (role : String) (es : List BudgetLedgerEntry)
    → any (is_live_entry now role) es ≡ true
    → HasRunning now role es
any-HasRunning now role [] h = cc h
any-HasRunning now role (e ∷ es) h = elim (Bool-cases (is_live_entry now role e)) [
  | inl here ↦ record {
    index = 0;
    entry = e;
    listed = refl;
    running = is_live_entry-IsRunning now role e here;
  }
  | inr other ↦
      (let later = any-HasRunning now role es (ground arith) in
        record {
          index = suc later.index;
          entry = later.entry;
          listed = later.listed;
          running = later.running;
        })
]

any-listed :
    (now : ℕ) (role : String) (es : List BudgetLedgerEntry) (k : ℕ) (e : BudgetLedgerEntry)
    → get_elem? es k ≡ some e
    → is_live_entry now role e ≡ true
    → any (is_live_entry now role) es ≡ true
any-listed now role [] k e l h = cc l
any-listed now role (x ∷ xs) zero e l h = let same : x ≡ e = cc l in rw (same, h) refl
any-listed now role (x ∷ xs) (suc k) e l h = ground (arith, any-listed now role xs k e l h)

-- A gate on the table passes the checks that come before the producer's.
record Passes (s : RunState) (i : DecisionInput) (g : GateId) : Type 0 where
  named : require_gate s i ≡ ok g
  undecided : gate_undecided (gate_entry s.gates g) ≡ true
  on_the_table : require_on_the_table s g ≡ ok tt

gate_eq_refl : (g : GateId) → gate_eq g g ≡ true
gate_eq_refl g = ground arith

on_the_table-Passes :
    (s : RunState) (i : DecisionInput) (g : GateId)
    → i.gate ≡ some g
    → (phase_eq s.phase paused && reason_is s.paused_reason staged_reason) ≡ false
    → pending_gate_at s (decision_phase s) ≡ some g
    → Passes s i g
unfolding require_gate require_on_the_table ◌>>=◌ ◌>>◌ throw_if
on_the_table-Passes s i g named armed pending =
    let (frontier, _) = pending_gate_at-IsFrontier s (decision_phase s) g pending in
    record {
      named = rw (named, frontier.declared) refl;
      undecided = frontier.undecided;
      on_the_table = rw (armed, pending, gate_eq_refl g) refl;
    }

plan_approve-in_flight :
    (s : RunState) (i : DecisionInput) (sig : Signature) (g : GateId)
    → Passes s i g
    → (plan_approve s i sig ≡ err producer_in_flight)
      ↔ (require_producer_at_rest sig.now s g ≡ err producer_in_flight)
unfolding plan_approve plan_advance ◌>>=◌ ◌>>◌ throw_if
plan_approve-in_flight s i sig g p = (
  (λ e. let q = rw (plan_approve, p.named, p.undecided, p.on_the_table) at e in ground arith),
  (λ e. rw (plan_approve, p.named, p.undecided, p.on_the_table, e) refl),
)

-- An approval of the gate on the table, in a run that is not staged, is refused as waiting for the producer
-- exactly when the ledger has a dispatch of the gate's producer that is running: with no cost yet, neither
-- failed nor refused, and opened at a readable time less than half an hour ago.
pub approve_waits_for_producer :
    (s : RunState) (i : DecisionInput) (sig : Signature) (g : GateId) (p : Producer)
    → i.gate ≡ some g
    → gate_producer g s.profile ≡ some p
    → (phase_eq s.phase paused && reason_is s.paused_reason staged_reason) ≡ false
    → pending_gate_at s (decision_phase s) ≡ some g
    → (plan_approve s i sig ≡ err producer_in_flight)
      ↔ HasRunning sig.now p.role (parse_ledger (some s))
unfolding require_producer_at_rest throw_if
approve_waits_for_producer s i sig g p named producer armed pending =
    let passes = on_the_table-Passes s i g named armed pending in
    let waits = plan_approve-in_flight s i sig g passes in
    let ledger = parse_ledger (some s) in
    (
      (λ e.
          any-HasRunning sig.now p.role ledger
            (let q = rw (require_producer_at_rest, producer) at (waits.0 e) in ground arith)),
      (λ r.
          let live =
            any-listed sig.now p.role ledger r.index r.entry r.listed
              (IsRunning-is_live_entry sig.now p.role r.entry r.running) in
          waits.1 (rw (require_producer_at_rest, producer, live) refl)),
    )
