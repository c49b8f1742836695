-- ===== src/Sources/Order/Resolutions.antt =====
-- When an escalation was resolved, by the record: `resolutionCommitsOf` of
-- packages/core/src/sources/branch-order.ts, seen from one index.
use gateline.Prelude.{
  ℕ, zero, suc, ◌<◌, ◌≡◌, refl, ◌∙◌, ap, Bool, true, false, Option, none, some, List, [], ◌∷◌, inl,
  inr, get_elem?, replicate, map, arith, Option-cases,
}
use gateline.Record.State.{Escalation}
use gateline.Sources.Order.{
  CommitInfo, StateCommit, Slot, mark_slot, mark_slots, walk_history, resolution_commits_of,
}

abbrev pub place :
    CommitInfo → Option Escalation → List (CommitInfo × Bool) → List (CommitInfo × Bool)
place c none col = col
place c (some e) col = (c, e.resolved) ∷ col

-- Whether the escalation at an index is resolved, in each commit that has it, newest first.
abbrev pub column : List StateCommit → ℕ → List (CommitInfo × Bool)
column [] i = []
column (c ∷ cs) i = elim c.state [
  | none ↦ column cs i
  | some s ↦ place c.commit (get_elem? s.escalations i) (column cs i)
]

-- The oldest commit of the newest unbroken run of commits in which it is resolved.
abbrev pub oldest_of_run : List (CommitInfo × Bool) → Option CommitInfo → Option CommitInfo
oldest_of_run [] best = best
oldest_of_run ((c, true) ∷ rest) best = oldest_of_run rest (some c)
oldest_of_run ((c, false) ∷ rest) (some b) = some b
oldest_of_run ((c, false) ∷ rest) none = oldest_of_run rest none

abbrev run_slot : List (CommitInfo × Bool) → Slot → Slot
run_slot [] slot = slot
run_slot ((c, r) ∷ rest) slot = run_slot rest (mark_slot c r slot)

run_slot-settled :
    (col : List (CommitInfo × Bool)) (o : Option CommitInfo)
    → (run_slot col (record { commit = o; settled = true })).commit ≡ o
unfolding mark_slot
run_slot-settled [] o = refl
run_slot-settled ((c, r) ∷ rest) o = run_slot-settled rest o

run_slot-open :
    (col : List (CommitInfo × Bool)) (o : Option CommitInfo)
    → (run_slot col (record { commit = o; settled = false })).commit ≡ oldest_of_run col o
unfolding mark_slot
run_slot-open [] o = refl
run_slot-open ((c, true) ∷ rest) o = run_slot-open rest (some c)
run_slot-open ((c, false) ∷ rest) none = run_slot-open rest none
run_slot-open ((c, false) ∷ rest) (some b) = run_slot-settled rest (some b)

-- The entry of a list at an index, changed.
abbrev at_entry : Option Slot → (Slot → Slot) → Option Slot
at_entry none f = none
at_entry (some slot) f = some (f slot)

abbrev marked : CommitInfo → Option Escalation → Slot → Slot
marked c none slot = slot
marked c (some e) slot = mark_slot c e.resolved slot

at_entry-same : (o : Option Slot) → o ≡ at_entry o (λ s. s)
at_entry-same none = refl
at_entry-same (some s) = refl

get_elem?-mark_slots :
    (c : CommitInfo) (es : List Escalation) (slots : List Slot) (i : ℕ)
    → get_elem? (mark_slots c es slots) i ≡ at_entry (get_elem? slots i) (marked c (get_elem? es i))
unfolding mark_slots
get_elem?-mark_slots c [] slots i = at_entry-same _
get_elem?-mark_slots c (e ∷ es) [] i = refl
get_elem?-mark_slots c (e ∷ es) (slot ∷ slots) zero = refl
get_elem?-mark_slots c (e ∷ es) (slot ∷ slots) (suc i) = get_elem?-mark_slots c es slots i

at_entry-place :
    (o : Option Slot) (c : CommitInfo) (e : Option Escalation) (col : List (CommitInfo × Bool))
    → at_entry (at_entry o (marked c e)) (run_slot col) ≡ at_entry o (run_slot (place c e col))
at_entry-place none c e col = refl
at_entry-place (some s) c none col = refl
at_entry-place (some s) c (some e) col = refl

get_elem?-walk_history :
    (history : List StateCommit) (slots : List Slot) (i : ℕ)
    → get_elem? (walk_history history slots) i
      ≡ at_entry (get_elem? slots i) (run_slot (column history i))
unfolding walk_history
get_elem?-walk_history [] slots i = at_entry-same _
get_elem?-walk_history (c ∷ cs) slots i = elim (Option-cases c.state) [
  | inl absent ↦ rw absent (get_elem?-walk_history cs slots i)
  | inr (s, present) ↦ rw present (
      get_elem?-walk_history cs (mark_slots c.commit s.escalations slots) i
      ∙ rw (get_elem?-mark_slots c.commit s.escalations slots i)
          (at_entry-place (get_elem? slots i) c.commit (get_elem? s.escalations i) (column cs i)))
]

get_elem?-map :
    (slots : List Slot) (i : ℕ)
    → get_elem? (map (λ (s : Slot). s.commit) slots) i
      ≡ elim (get_elem? slots i) [ none ↦ none | some s ↦ some s.commit ]
get_elem?-map [] i = refl
get_elem?-map (s ∷ slots) zero = refl
get_elem?-map (s ∷ slots) (suc i) = get_elem?-map slots i

get_elem?-replicate : (n : ℕ) (s : Slot) (i : ℕ) → i < n → get_elem? (replicate n s) i ≡ some s
get_elem?-replicate zero s i h = absurd (omega arith)
get_elem?-replicate (suc n) s zero h = refl
get_elem?-replicate (suc n) s (suc i) h = get_elem?-replicate n s i (omega arith)

-- For each index below the count, the answer is the oldest commit of the newest unbroken run of commits
-- in which that escalation is resolved, among those that have it: a resolution that was undone and made
-- again counts from when it was made again.
pub resolution_commits_of_lem :
    (history : List StateCommit) (count i : ℕ)
    → i < count
    → get_elem? (resolution_commits_of history count) i
      ≡ some (oldest_of_run (column history i) none)
unfolding resolution_commits_of
resolution_commits_of_lem history count i h =
    get_elem?-map _ i
    ∙ rw
        (get_elem?-walk_history history
          (replicate count (record { commit = none; settled = false })) i)
        (rw (get_elem?-replicate count (record { commit = none; settled = false }) i h)
          (ap some (run_slot-open (column history i) none)))
