-- ===== src/Sources/Order/Laws.antt =====
-- What the branch order of packages/core/src/sources/branch-order.ts says of two commits, against their
-- first places in the list that it is built from.
use text.Mathlib.TextEquality.{eq_iff}
use gateline.Prelude.{
  lookup_text, ℕ, suc, ◌<◌, ◌≡◌, refl, sym, ◌∙◌, String, true, false, Option, none, some, List, [],
  ◌∷◌, ◌⊎◌, inl, inr, is_some, text_eq, if◌then◌else◌, arith, Bool-cases, Option-cases,
}
use gateline.Sources.Order.{
  CommitInfo, BranchOrder, index_commits, branch_order, position, branch_after,
}

-- The first place of a commit, counted from `i`.
abbrev pub first_from : String → List CommitInfo → ℕ → Option ℕ
first_from oid [] i = none
first_from oid (c ∷ cs) i = if text_eq c.oid oid then some i else first_from oid cs (suc i)

abbrev pub or_first : Option ℕ → Option ℕ → Option ℕ
or_first none b = b
or_first (some a) b = some a

or_first-none : (o : Option ℕ) → or_first o none ≡ o
or_first-none none = refl
or_first-none (some a) = refl

-- A round of the constructor's loop, seen from one commit.
abbrev extend : CommitInfo → ℕ → List (String × ℕ) → List (String × ℕ)
extend c i m = if is_some (lookup_text c.oid m) then m else (c.oid, i) ∷ m

lookup-extend :
    (c : CommitInfo) (i : ℕ) (m : List (String × ℕ)) (oid : String) (rest : Option ℕ)
    → or_first (lookup_text oid (extend c i m)) rest
      ≡ or_first (lookup_text oid m) (if text_eq c.oid oid then some i else rest)
lookup-extend c i m oid rest = elim (Bool-cases (text_eq c.oid oid)) [
  | inl same ↦
      let named : c.oid ≡ oid = (eq_iff c.oid oid).0 same in
      let self : text_eq oid oid ≡ true = (eq_iff oid oid).1 refl in
      elim (Option-cases (lookup_text oid m)) [
        | inl e ↦ rw (same, named, e) (rw self refl)
        | inr (a, e) ↦ rw (same, named, e) (rw e refl)
      ]
  | inr other ↦ elim (Option-cases (lookup_text c.oid m)) [
    | inl e ↦ rw (other, e) (rw other refl)
    | inr (a, e) ↦ rw (other, e) refl
  ]
]

lookup-index_commits :
    (cs : List CommitInfo) (i : ℕ) (m : List (String × ℕ)) (oid : String)
    → lookup_text oid (index_commits cs i m) ≡ or_first (lookup_text oid m) (first_from oid cs i)
unfolding index_commits
lookup-index_commits [] i m oid = sym (or_first-none _)
lookup-index_commits (c ∷ cs) i m oid =
    lookup-index_commits cs (suc i) (extend c i m) oid
    ∙ lookup-extend c i m oid (first_from oid cs (suc i))

-- A commit's place is the first at which the list names it; an empty name has none.
pub position-branch_order :
    (commits : List CommitInfo) (oid : String)
    → position (branch_order commits) (some oid)
      ≡ (if text_eq oid "" then none else first_from oid commits 0)
unfolding position branch_order
position-branch_order commits oid = rw (lookup-index_commits commits 0 [] oid) refl

-- One commit comes after another exactly when both are placed and it stands nearer to the tip; so no
-- commit comes after itself, and of two placed commits that differ in place one comes after the other.
pub branch_after_strict :
    (order : BranchOrder) (a b : Option String) (i j : ℕ)
    → position order a ≡ some i
    → position order b ≡ some j
    → (branch_after order a b ≡ some true) × (branch_after order b a ≡ some false) × (i < j)
      ⊎ ((branch_after order b a ≡ some true) × (branch_after order a b ≡ some false) × (j < i)
          ⊎ (branch_after order a b ≡ some false) × (branch_after order b a ≡ some false) × (i ≡ j))
unfolding branch_after
branch_after_strict order a b i j p q = ground arith
