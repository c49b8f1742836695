-- ===== src/Orchestrator/Derive/Agreement.antt =====
-- Where the table and the cards of the readers ask the same of a run: rule D4 of
-- packages/orchestrator/src/derive.ts and grantedAnotherRound of packages/core/src/view-model/readiness.ts.
use gateline.Prelude.{
  ℕ, zero, suc, ◌+◌, ◌*◌, ◌≡◌, refl, sym, ◌∙◌, ap, String, Bool, true, false, ◌&&◌, ◌||◌, Option,
  none, some, List, [], ◌∷◌, is_some, get_elem?, arith, includes, any, all, is_empty, if◌then◌else◌,
  length,
}
use gateline.Record.Raw.{Stamp}
use gateline.Record.State.{Escalation, TaskEntry}
use gateline.Sources.Order.{
  CommitInfo, StateCommit, BranchOrder, branch_after, position, resolution_commits_of,
}
use gateline.View.Readiness.{candidates, grants, granted_another_round, oid_at, stamped_after}
use gateline.Orchestrator.Observation.{
  RunObservation, Anchor, after, anchored, resolution_anchor, at_index, commit_anchor, iso_time,
  resolved_at,
}
use gateline.Orchestrator.Intents.{task_key}
use gateline.Orchestrator.Routes.{
  Resolution, better_resolution, best_resolution, escalations_of, latest_resolution, review_anchor,
  review_of,
}
use gateline.Orchestrator.Derive.Table.{granted_round}

or_swap : (a b c : Bool) → ((a || b) || c) ≡ (b || (a || c))
or_swap true true c = refl
or_swap true false c = refl
or_swap false b c = refl

module _ (obs : RunObservation) (matches : String → Bool) (since : Anchor) where
  abbrev answers : Escalation → ℕ → Bool
  answers e i =
      let at = resolution_anchor obs i in
      (e.resolved && matches e.reason) && (anchored at && after obs.order at since)

  better_resolution-is_some :
      (e : Escalation) (i : ℕ) (best : Option Resolution)
      → is_some (better_resolution obs matches since e i best) ≡ (answers e i || is_some best)
  unfolding better_resolution
  better_resolution-is_some e i best = ground arith

  abbrev any_answer : List Escalation → ℕ → Bool
  any_answer [] i = false
  any_answer (e ∷ es) i = answers e i || any_answer es (suc i)

  best_resolution-is_some :
      (es : List Escalation) (i : ℕ) (best : Option Resolution)
      → is_some (best_resolution obs matches since es i best) ≡ (is_some best || any_answer es i)
  unfolding best_resolution
  best_resolution-is_some [] i best = ground arith
  best_resolution-is_some (e ∷ es) i best =
      best_resolution-is_some es (suc i) (better_resolution obs matches since e i best)
      ∙ rw (better_resolution-is_some e i best)
          (or_swap (answers e i) (is_some best) (any_answer es (suc i)))

-- A commit that has its place before or after another on the branch; a missing one has none to have.
abbrev pub is_placed : BranchOrder → CommitInfo → Option CommitInfo → Bool
is_placed order c none = true
is_placed order c (some d) = is_some (branch_after order (some d.oid) (some c.oid))

-- The anchor of a commit; its time in milliseconds.
abbrev pub anchor_of : CommitInfo → Anchor
anchor_of c = record { oid = some c.oid; time = some (c.time * 1000) }

all-at_index :
    (p : Option CommitInfo → Bool) (xs : List (Option CommitInfo)) (i : ℕ)
    → p none ≡ true
    → all p xs ≡ true
    → p (at_index xs i) ≡ true
all-at_index p [] i n h = n
all-at_index p (x ∷ xs) zero n h = ground arith
all-at_index p (x ∷ xs) (suc i) n h = all-at_index p xs i n (ground arith)

oid_at-at_index :
    (xs : List (Option CommitInfo)) (i : ℕ)
    → oid_at xs i ≡ elim (at_index xs i) [ none ↦ none | some d ↦ some d.oid ]
oid_at-at_index [] i = refl
oid_at-at_index (x ∷ xs) zero = refl
oid_at-at_index (x ∷ xs) (suc i) = oid_at-at_index xs i

-- One resolution, as the table and as the card read it.
abbrev by_branch : BranchOrder → Option CommitInfo → Option Stamp → CommitInfo → Bool
by_branch order o stamp c =
    let at = commit_anchor o (iso_time stamp) in anchored at && after order at (anchor_of c)

by_branch_lem :
    (order : BranchOrder) (o : Option CommitInfo) (e : Escalation) (c : CommitInfo)
    → is_placed order c o ≡ true
    → by_branch order o e.resolved_at c
      ≡ (elim (branch_after order (elim o [ none ↦ none | some d ↦ some d.oid ]) (some c.oid)) [
        | some b ↦ b
        | none ↦ stamped_after e c
      ])
unfolding after commit_anchor branch_after position
by_branch_lem order none e c h = ground arith
by_branch_lem order (some d) e c h = ground arith

resolved_at-listed :
    (obs : RunObservation) (i : ℕ) (e : Escalation)
    → get_elem? (escalations_of obs.state) i ≡ some e
    → resolved_at obs.state i ≡ e.resolved_at
resolved_at-listed obs i e l = ground arith

candidate_first :
    {A : Type 0} (b : Bool) (p : A → Bool) (x : A) (xs : List A)
    → ((b && p x) || any p xs) ≡ any p (if b then x ∷ xs else xs)
candidate_first true p x xs = refl
candidate_first false p x xs = refl

module _ (obs : RunObservation) (key : String) (c : CommitInfo)
    (placed : all (is_placed obs.order c) obs.resolution_commits ≡ true) where
  answers_lem :
      (e : Escalation) (i : ℕ)
      → get_elem? (escalations_of obs.state) i ≡ some e
      → answers obs (λ reason. includes reason key) (anchor_of c) e i ≡ (
          (e.resolved && includes e.reason key) && grants obs.order obs.resolution_commits c (e, i))
  unfolding resolution_anchor
  answers_lem e i l =
      ap (λ b. (e.resolved && includes e.reason key) && b)
        (ap (λ s. by_branch obs.order (at_index obs.resolution_commits i) s c)
            (resolved_at-listed obs i e l)
          ∙ by_branch_lem obs.order (at_index obs.resolution_commits i) e c
              (all-at_index (is_placed obs.order c) obs.resolution_commits i refl placed)
          ∙ ap
              (λ o. elim (branch_after obs.order o (some c.oid)) [
                | some b ↦ b
                | none ↦ stamped_after e c
              ])
              (sym (oid_at-at_index obs.resolution_commits i)))

  any_answer-candidates :
      (es : List Escalation) (i : ℕ)
      → ((k : ℕ) (e : Escalation)
          → get_elem? es k ≡ some e
          → get_elem? (escalations_of obs.state) (k + i) ≡ some e)
      → any_answer obs (λ reason. includes reason key) (anchor_of c) es i
        ≡ any (grants obs.order obs.resolution_commits c) (candidates key es i)
  unfolding candidates
  any_answer-candidates [] i h = refl
  any_answer-candidates (e ∷ es) i h =
      let zero_first : 0 + i ≡ i = omega arith in
      rw
        (
          answers_lem e i (rw (← zero_first) (h 0 e refl)),
          any_answer-candidates es (suc i) (λ k e' l.
              let shift : suc k + i ≡ k + suc i = omega arith in rw (← shift) (h (suc k) e' l)),
        )
        (candidate_first (e.resolved && includes e.reason key)
          (grants obs.order obs.resolution_commits c) (e, i) (candidates key es (suc i)))

guarded_any :
    {A : Type 0} (p : A → Bool) (xs : List A) → (if is_empty xs then false else any p xs) ≡ any p xs
guarded_any p [] = refl
guarded_any p (x ∷ xs) = refl

plus_none : (k : ℕ) → k + 0 ≡ k
plus_none k = omega arith

-- The card at the round cap and rule D4 of the table agree on whether a person granted a task another
-- round, where the task's last verdict landed with a known commit, the commits of the resolutions are those
-- of the run's history, and each of them that is known has its place on the branch, as that commit has.
pub granted_another_round-granted_round :
    (obs : RunObservation) (t : TaskEntry) (history : List StateCommit) (c : CommitInfo)
    → obs.resolution_commits ≡ resolution_commits_of history (length (escalations_of obs.state))
    → review_anchor obs (review_of obs t.id) ≡ anchor_of c
    → all (is_placed obs.order c) obs.resolution_commits ≡ true
    → granted_another_round obs.order history (escalations_of obs.state) t.id (some c)
      ≡ is_some (granted_round obs t)
unfolding granted_another_round granted_round latest_resolution task_key
granted_another_round-granted_round obs t history c same landed placed =
    let key = task_key t.id in
    let es = escalations_of obs.state in
    rw (← same, landed)
      (guarded_any (grants obs.order obs.resolution_commits c) (candidates key es 0)
        ∙ sym (any_answer-candidates obs key c placed es 0 (λ k e l. rw (plus_none k) l))
        ∙ sym (best_resolution-is_some obs (λ reason. includes reason key) (anchor_of c) es 0 none))
