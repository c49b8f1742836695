-- ===== src/Sources/Order.antt =====
-- The order of a run's commits on its branch: packages/core/src/sources/branch-order.ts.
pub mod Laws
pub mod Resolutions
use gateline.Prelude.{
  ℕ, zero, suc, ◌+◌, String, Bool, true, false, not, ◌&&◌, Option, none, some, List, [], ◌∷◌,
  is_some, is_none, ltb, text_eq, if◌then◌else◌, lookup_text, map, replicate,
}
use gateline.Record.State.{Escalation, RunState}

-- A commit; its time in seconds.
pub record CommitInfo : Type 0 where
  pub oid : String
  pub time : ℕ
  pub author : String
  pub email : String
  pub subject : String

-- A commit that touched the state file; no state where the file did not parse.
pub record StateCommit : Type 0 where
  pub commit : CommitInfo
  pub state : Option RunState

pub record BranchOrder : Type 0 where
  pub positions : List (String × ℕ)

-- The loop of the constructor: the first place of a commit is kept.
unfoldable pub index_commits : List CommitInfo → ℕ → List (String × ℕ) → List (String × ℕ)
index_commits [] i m = m
index_commits (c ∷ cs) i m =
    index_commits cs (suc i) (if is_some (lookup_text c.oid m) then m else (c.oid, i) ∷ m)

unfoldable pub branch_order : List CommitInfo → BranchOrder
branch_order commits = record { positions = index_commits commits 0 [] }

-- `position(oid)`; a missing and an empty oid have none.
unfoldable pub position : BranchOrder → Option String → Option ℕ
position order none = none
position order (some oid) = if text_eq oid "" then none else lookup_text oid order.positions

abbrev pub earlier : Option ℕ → Option ℕ → Option Bool
earlier none b = none
earlier (some i) none = none
earlier (some i) (some j) = some (ltb i j)

-- `after(oid, than)`: `none` where either commit has no place.
unfoldable pub branch_after : BranchOrder → Option String → Option String → Option Bool
branch_after order oid than = earlier (position order oid) (position order than)

-- What `resolutionCommitsOf` keeps of one escalation.
pub record Slot : Type 0 where
  pub commit : Option CommitInfo
  pub settled : Bool

unfoldable pub mark_slot : CommitInfo → Bool → Slot → Slot
mark_slot c resolved slot =
    if slot.settled
    then slot
    else if resolved
    then record slot { commit = some c }
    else if is_some slot.commit
    then record slot { settled = true }
    else slot

-- `escalations.forEach`: entries past the count are passed over.
unfoldable pub mark_slots : CommitInfo → List Escalation → List Slot → List Slot
mark_slots c [] slots = slots
mark_slots c (e ∷ es) [] = []
mark_slots c (e ∷ es) (slot ∷ slots) = mark_slot c e.resolved slot ∷ mark_slots c es slots

unfoldable pub walk_history : List StateCommit → List Slot → List Slot
walk_history [] slots = slots
walk_history (c ∷ cs) slots =
    walk_history cs
      (elim c.state [ none ↦ slots | some s ↦ mark_slots c.commit s.escalations slots ])

unfoldable pub resolution_commits_of : List StateCommit → ℕ → List (Option CommitInfo)
unfolding walk_history
resolution_commits_of history count =
    map (λ (s : Slot). s.commit)
      (walk_history history (replicate count (record { commit = none; settled = false })))
