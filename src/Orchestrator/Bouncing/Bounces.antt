-- ===== src/Orchestrator/Bouncing/Bounces.antt =====
-- How the resolution of a contract dispute resets an artifact's bounces, in the walk of `observeRun` of
-- packages/orchestrator/src/observe.ts.
use text.Mathlib.TextEquality.{eq_iff}
use gateline.Prelude.{
  lookup_text, ℕ, ◌≡◌, refl, ◌∙◌, String, Bool, true, false, not, ◌&&◌, Option, none, some, List,
  [], ◌∷◌, ◌++◌, inl, inr, arith, or_else, text_eq, mem_text, if◌then◌else◌, Bool-cases,
  option_split, if_split,
}
use gateline.Sources.Order.{StateCommit}
use gateline.Orchestrator.Bouncing.{bounced_artifact, close_budget, bump, later_than, walk_bounces}

-- The count of an artifact.
abbrev pub bounces_of : String → List (String × ℕ) → ℕ
bounces_of artifact counts = or_else (lookup_text artifact counts) 0

bounces_of-bump :
    (a b : String) (counts : List (String × ℕ))
    → text_eq b a ≡ false
    → bounces_of a (bump b counts) ≡ bounces_of a counts
bounces_of-bump a b counts other = rw other refl

mem_text-close_budget :
    (a : String) (o : Option String) (closed : List String)
    → mem_text a closed ≡ true
    → mem_text a (close_budget o closed) ≡ true
mem_text-close_budget a none closed h = h
mem_text-close_budget a (some b) closed h = ground arith

abbrev pub step_counts :
    List (String × ℕ) → StateCommit → List String → List (String × ℕ) → List (String × ℕ)
step_counts times c closed counts = elim (bounced_artifact c.commit.subject) [
  | none ↦ counts
  | some artifact ↦
      if not (mem_text artifact closed) && later_than c.commit.time (lookup_text artifact times)
      then bump artifact counts
      else counts
]

shut_not :
    (b : String) (closed : List String) (late : Bool)
    → (not (mem_text b closed) && late) ≡ true
    → mem_text b closed ≡ false
shut_not b closed late h = ground arith

step_counts-closed :
    (times : List (String × ℕ)) (c : StateCommit) (closed : List String)
    (counts : List (String × ℕ)) (a : String)
    → mem_text a closed ≡ true
    → bounces_of a (step_counts times c closed counts) ≡ bounces_of a counts
step_counts-closed times c closed counts a h =
    option_split (λ m. bounces_of a m ≡ bounces_of a counts) (bounced_artifact c.commit.subject)
      (λ e. refl)
      (λ b e.
        if_split (λ m. bounces_of a m ≡ bounces_of a counts)
          (not (mem_text b closed) && later_than c.commit.time (lookup_text b times))
          (λ open_budget. bounces_of-bump a b counts (elim (Bool-cases (text_eq b a)) [
            | inl same ↦
                let named : b ≡ a = (eq_iff b a).0 same in
                let shut : mem_text b closed ≡ true = rw named h in
                absurd (cc (shut, shut_not b closed _ open_budget))
            | inr other ↦ other
          ]))
          (λ k. refl))

walk_bounces-closed :
    (oids : List (String × String)) (times : List (String × ℕ)) (history : List StateCommit)
    (closed : List String) (counts : List (String × ℕ)) (a : String)
    → mem_text a closed ≡ true
    → bounces_of a (walk_bounces oids times history closed counts) ≡ bounces_of a counts
unfolding walk_bounces
walk_bounces-closed oids times [] closed counts a h = refl
walk_bounces-closed oids times (c ∷ cs) closed counts a h =
    let closed' = close_budget (lookup_text c.commit.oid oids) closed in
    let shut : mem_text a closed' ≡ true =
      mem_text-close_budget a (lookup_text c.commit.oid oids) closed h in
    walk_bounces-closed oids times cs closed' (step_counts times c closed' counts) a shut
    ∙ step_counts-closed times c closed' counts a shut

-- Where the resets name an artifact for a commit, of the commits from there back none counts as a bounce
-- of it, so the count is that of the newer commits alone.
pub walk_bounces-reset :
    (oids : List (String × String)) (times : List (String × ℕ)) (newer older : List StateCommit)
    (c : StateCommit) (a : String) (closed : List String) (counts : List (String × ℕ))
    → lookup_text c.commit.oid oids ≡ some a
    → bounces_of a (walk_bounces oids times (newer ++ c ∷ older) closed counts)
      ≡ bounces_of a (walk_bounces oids times newer closed counts)
unfolding walk_bounces
walk_bounces-reset oids times [] older c a closed counts e =
    let self : text_eq a a ≡ true = (eq_iff a a).1 refl in
    let closed' = close_budget (lookup_text c.commit.oid oids) closed in
    let shut : mem_text a closed' ≡ true = rw e (rw self refl) in
    walk_bounces-closed oids times older closed' (step_counts times c closed' counts) a shut
    ∙ step_counts-closed times c closed' counts a shut
walk_bounces-reset oids times (d ∷ newer) older c a closed counts e =
    let closed' = close_budget (lookup_text d.commit.oid oids) closed in
    walk_bounces-reset oids times newer older c a closed' (step_counts times d closed' counts) e
