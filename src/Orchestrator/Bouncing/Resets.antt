-- ===== src/Orchestrator/Bouncing/Resets.antt =====
-- Which commits reset an artifact's bounces, by the record: disputeResolutionOids in `observeRun` of
-- packages/orchestrator/src/observe.ts.
use text.Mathlib.TextEquality.{eq_iff}
use gateline.Prelude.{
  lookup_text, ℕ, zero, suc, ◌+◌, ◌≡◌, refl, String, true, Option, none, some, List, [], ◌∷◌, ◌++◌,
  inl, inr, arith, text_eq, if◌then◌else◌, Bool-cases, Option-cases, get_elem?,
}
use gateline.Record.State.{Escalation}
use gateline.Sources.Order.{CommitInfo, StateCommit}
use gateline.Orchestrator.Observation.{at_index}
use gateline.Orchestrator.Bouncing.{contract_dispute, dispute_oids, dispute_times, bounce_counts_of}
use gateline.Orchestrator.Bouncing.Bounces.{bounces_of, walk_bounces-reset}

-- A resolved contract dispute about an artifact, counted from a place on, that a commit resolved.
pub record Disputed (i : ℕ) (es : List Escalation) (commits : List (Option CommitInfo))
    (oid artifact : String) : Type 0 where
  pub index : ℕ
  pub entry : Escalation
  pub commit : CommitInfo
  pub listed : get_elem? es index ≡ some entry
  pub resolved : entry.resolved ≡ true
  pub about : contract_dispute entry.reason ≡ some artifact
  pub placed : at_index commits (index + i) ≡ some commit
  pub same : commit.oid ≡ oid

abbrev pub named : Escalation → Option String
named e = if e.resolved then contract_dispute e.reason else none

abbrev pub recorded :
    Option String → Option CommitInfo → List (String × String) → List (String × String)
recorded none o m = m
recorded (some artifact) none m = m
recorded (some artifact) (some c) m = (c.oid, artifact) ∷ m

pub dispute_oids-step :
    (e : Escalation) (es : List Escalation) (commits : List (Option CommitInfo)) (i : ℕ)
    (m : List (String × String))
    → dispute_oids (e ∷ es) commits i m
      ≡ dispute_oids es commits (suc i) (recorded (named e) (at_index commits i) m)
unfolding dispute_oids
dispute_oids-step e es commits i m = elim (Option-cases (named e)) [
  | inl none_named ↦ rw (dispute_oids, none_named) refl
  | inr (b, about) ↦ elim (Option-cases (at_index commits i)) [
    | inl missing ↦ rw (dispute_oids, about, missing) refl
    | inr (c, found) ↦ rw (dispute_oids, about, found) refl
  ]
]

Disputed-later :
    {i : ℕ} {e : Escalation} {es : List Escalation} {commits : List (Option CommitInfo)}
    {oid b : String}
    → Disputed (suc i) es commits oid b
    → Disputed i (e ∷ es) commits oid b
Disputed-later {i} d = record {
  index = suc d.index;
  entry = d.entry;
  commit = d.commit;
  listed = d.listed;
  resolved = d.resolved;
  about = d.about;
  placed = (let shift : suc d.index + i ≡ d.index + suc i = omega arith in rw shift d.placed);
  same = d.same;
}

named-about :
    (e : Escalation) (b : String)
    → named e ≡ some b
    → (e.resolved ≡ true) × (contract_dispute e.reason ≡ some b)
named-about e b h = (ground arith, ground arith)

Disputed-here :
    (i : ℕ) (e : Escalation) (es : List Escalation) (commits : List (Option CommitInfo))
    (b : String) (c : CommitInfo) (oid : String)
    → named e ≡ some b
    → at_index commits i ≡ some c
    → c.oid ≡ oid
    → Disputed i (e ∷ es) commits oid b
Disputed-here i e es commits b c oid about found same =
    let zero_first : 0 + i ≡ i = omega arith in
    record {
      index = 0;
      entry = e;
      commit = c;
      listed = refl;
      resolved = (named-about e b about).0;
      about = (named-about e b about).1;
      placed = rw zero_first found;
      same = same;
    }

module _ (commits : List (Option CommitInfo)) (oid a : String) where
  -- What stands for a commit is kept where all that it resolved is about the artifact.
  recorded-kept :
      (i : ℕ) (e : Escalation) (es : List Escalation) (m : List (String × String))
      → ((b : String) → Disputed i (e ∷ es) commits oid b → b ≡ a)
      → lookup_text oid m ≡ some a
      → lookup_text oid (recorded (named e) (at_index commits i) m) ≡ some a
  recorded-kept i e es m only h = elim (Option-cases (named e)) [
    | inl none_named ↦ rw none_named h
    | inr (b, about) ↦ elim (Option-cases (at_index commits i)) [
      | inl missing ↦ rw (about, missing) h
      | inr (c, found) ↦ elim (Bool-cases (text_eq c.oid oid)) [
        | inl eq ↦
            (let same =
                only b
                  (Disputed-here i e es commits b c oid about found ((eq_iff c.oid oid).0 eq)) in
              rw (about, found, eq, same) refl)
        | inr other ↦ rw (about, found, other) h
      ]
    ]
  ]

  dispute_oids-kept :
      (i : ℕ) (es : List Escalation) (m : List (String × String))
      → ((b : String) → Disputed i es commits oid b → b ≡ a)
      → lookup_text oid m ≡ some a
      → lookup_text oid (dispute_oids es commits i m) ≡ some a
  unfolding dispute_oids
  dispute_oids-kept i [] m only h = h
  dispute_oids-kept i (e ∷ es) m only h = rw (dispute_oids-step e es commits i m) (
      dispute_oids-kept (suc i) es _ (λ b d. only b (Disputed-later d))
        (recorded-kept i e es m only h))

  dispute_oids-found :
      (i k : ℕ) (es : List Escalation) (m : List (String × String)) (e : Escalation)
      (c : CommitInfo)
      → get_elem? es k ≡ some e
      → named e ≡ some a
      → at_index commits (k + i) ≡ some c
      → c.oid ≡ oid
      → ((b : String) → Disputed i es commits oid b → b ≡ a)
      → lookup_text oid (dispute_oids es commits i m) ≡ some a
  dispute_oids-found i k [] m e c l n p s only = cc l
  dispute_oids-found i zero (x ∷ xs) m e c l n p s only =
      let first : x ≡ e = cc l in
      let zero_first : 0 + i ≡ i = omega arith in
      let here : lookup_text oid (recorded (named x) (at_index commits i) m) ≡ some a =
        rw (first, n, rw zero_first at p, (eq_iff c.oid oid).1 s) refl in
      rw (dispute_oids-step x xs commits i m)
        (dispute_oids-kept (suc i) xs _ (λ b d. only b (Disputed-later d)) here)
  dispute_oids-found i (suc k) (x ∷ xs) m e c l n p s only =
      let shift : suc k + i ≡ k + suc i = omega arith in
      rw (dispute_oids-step x xs commits i m) (
        dispute_oids-found (suc i) k xs _ e c l n (rw shift at p) s
          (λ b d. only b (Disputed-later d)))

-- A commit that resolved contract disputes about one artifact alone closes its budget: of the commits from
-- there back none counts as a bounce of it, so the count is that of the newer commits alone, with the same
-- resolutions.
pub bounce_counts_of-reset :
    (es : List Escalation) (commits : List (Option CommitInfo)) (newer older : List StateCommit)
    (c : StateCommit) (a : String)
    → Disputed 0 es commits c.commit.oid a
    → ((b : String) → Disputed 0 es commits c.commit.oid b → b ≡ a)
    → bounces_of a (bounce_counts_of (newer ++ c ∷ older) es commits)
      ≡ bounces_of a (bounce_counts_of newer es commits)
unfolding bounce_counts_of
bounce_counts_of-reset es commits newer older c a d only =
    walk_bounces-reset (dispute_oids es commits 0 []) (dispute_times es commits 0 []) newer older c
      a [] []
      (dispute_oids-found commits c.commit.oid a 0 d.index es [] d.entry d.commit d.listed
        (rw (d.resolved, d.about) refl) d.placed d.same only)
