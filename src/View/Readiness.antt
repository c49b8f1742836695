-- ===== src/View/Readiness.antt =====
-- Whether a card still asks about a task at the round cap: grantedAnotherRound of
-- packages/core/src/view-model/readiness.ts. Times of stamps are in milliseconds, of commits in seconds.
use gateline.Prelude.{
  ℕ, suc, ◌*◌, String, Bool, false, ◌&&◌, Option, none, some, List, [], ◌∷◌, length, any, is_empty,
  ltb, includes, get_elem?, join, if◌then◌else◌,
}
use gateline.Record.State.{Escalation}
use gateline.Sources.Order.{
  CommitInfo, StateCommit, BranchOrder, branch_after, resolution_commits_of,
}

-- The resolved escalations that name the task, each with its place.
unfoldable pub candidates : String → List Escalation → ℕ → List (Escalation × ℕ)
candidates key [] i = []
candidates key (e ∷ es) i =
    let rest = candidates key es (suc i) in
    if e.resolved && includes e.reason key then (e, i) ∷ rest else rest

abbrev pub oid_at : List (Option CommitInfo) → ℕ → Option String
oid_at commits i = elim (get_elem? commits i) [
  | none ↦ none
  | some c ↦ elim c [ none ↦ none | some c ↦ some c.oid ]
]

-- `Number.isFinite(stamped) && stamped / 1000 > since.time`.
abbrev pub stamped_after : Escalation → CommitInfo → Bool
stamped_after e since = elim e.resolved_at [
  | none ↦ false
  | some s ↦ elim s.ms [ none ↦ false | some ms ↦ ltb (since.time * 1000) ms ]
]

abbrev pub grants : BranchOrder → List (Option CommitInfo) → CommitInfo → Escalation × ℕ → Bool
grants order commits since (e, i) = elim (branch_after order (oid_at commits i) (some since.oid)) [
  | some by_branch ↦ by_branch
  | none ↦ stamped_after e since
]

unfoldable pub granted_another_round :
    BranchOrder → List StateCommit → List Escalation → String → Option CommitInfo → Bool
unfolding candidates
granted_another_round order history escalations task since = elim since [
  | none ↦ false
  | some c ↦
      let found = candidates (join ("task " ∷ task ∷ ":" ∷ [])) escalations 0 in
      let commits = resolution_commits_of history (length escalations) in
      if is_empty found then false else any (grants order commits c) found
]
