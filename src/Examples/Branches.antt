-- ===== src/Examples/Branches.antt =====
-- The branch order of packages/core/src/sources/branch-order.ts on a sample history.
use gateline.Prelude.{
  ℕ, ◌<◌, ◌≡◌, refl, ◌⊎◌, String, Bool, true, false, none, some, List, [], ◌∷◌, get_elem?, arith,
  text_eq, if◌then◌else◌,
}
use gateline.Sources.Order.{
  CommitInfo, StateCommit, branch_order, index_commits, position, branch_after,
  resolution_commits_of,
}
use gateline.Sources.Order.Laws.{first_from, position-branch_order, branch_after_strict}
use gateline.Sources.Order.Resolutions.{column, oldest_of_run, resolution_commits_of_lem}
use gateline.Examples.{commit, planning, question}

abbrev commits : List CommitInfo
commits = commit "c2" 300 ∷ commit "c1" 200 ∷ commit "c0" 100 ∷ []

position-branch_order_example :
    position (branch_order commits) (some "c1")
    ≡ (if text_eq "c1" "" then none else first_from "c1" commits 0)
position-branch_order_example = position-branch_order commits "c1"

abbrev zero_place : ℕ
zero_place = 0

branch_after_strict_example :
    (branch_after (branch_order commits) (some "c2") (some "c0") ≡ some true)
      × (branch_after (branch_order commits) (some "c0") (some "c2") ≡ some false)
      × (0 < 2)
    ⊎ ((branch_after (branch_order commits) (some "c0") (some "c2") ≡ some true)
          × (branch_after (branch_order commits) (some "c2") (some "c0") ≡ some false)
          × (2 < 0)
        ⊎ (branch_after (branch_order commits) (some "c2") (some "c0") ≡ some false)
          × (branch_after (branch_order commits) (some "c0") (some "c2") ≡ some false)
          × (zero_place ≡ 2))
unfolding position branch_order index_commits
branch_after_strict_example =
    branch_after_strict (branch_order commits) (some "c2") (some "c0") 0 2 refl refl

abbrev with_question : String → ℕ → Bool → StateCommit
with_question oid time resolved = record {
  commit = commit oid time;
  state = some (record planning { escalations = record question { resolved = resolved } ∷ [] });
}

-- Resolved, undone and resolved again.
abbrev history : List StateCommit
history =
    with_question "c4" 500 true
    ∷ with_question "c3" 400 true
    ∷ with_question "c2" 300 false
    ∷ with_question "c1" 200 true
    ∷ []

resolution_commits_of_lem_example :
    get_elem? (resolution_commits_of history 1) 0 ≡ some (oldest_of_run (column history 0) none)
resolution_commits_of_lem_example = resolution_commits_of_lem history 1 0 (omega arith)

second_resolution : oldest_of_run (column history 0) none ≡ some (commit "c3" 400)
second_resolution = refl
