-- ===== src/Record/Artifact.antt =====
-- What a file of a run directory is: `describeArtifact` of packages/core/src/record/artifact.ts.
-- A path is walked as the list of its character codes.
use gateline.Prelude.{◌≡◌, refl}
use gateline.Prelude.{
  ℕ, String, Bool, true, false, not, ◌&&◌, ◌||◌, Option, none, some, List, [], ◌∷◌, leb, ◌==◌,
  text_eq, codes, strip_prefix, strip_suffix, lower_code, map, is_some, any, if◌then◌else◌,
  is_empty,
}

pub data ArtifactKind : Type 0 where
  intent_brief spec plan work_item review_report verification_report release_plan state docs_delta :
      ArtifactKind
  integration_profile other : ArtifactKind

pub data ArtifactFamily : Type 0 where
  gate work_items reviews ledger other : ArtifactFamily

pub data ArtifactFormat : Type 0 where
  markdown yaml text : ArtifactFormat

pub record ArtifactDescription : Type 0 where
  pub kind : ArtifactKind
  pub id : Option (List ℕ)
  pub contract : Option String
  pub contract_name : Option String
  pub family : ArtifactFamily
  pub format : ArtifactFormat

abbrev described :
    ArtifactKind → String → String → ArtifactFamily → ArtifactFormat → Option ArtifactDescription
described kind contract name family format = some (record {
  kind = kind;
  id = none;
  contract = some contract;
  contract_name = some name;
  family = family;
  format = format;
})

abbrev presence_only : ArtifactKind → String → ArtifactFamily → Option ArtifactDescription
presence_only kind name family = some (record {
  kind = kind;
  id = none;
  contract = none;
  contract_name = some name;
  family = family;
  format = markdown;
})

-- The table of one-per-run files.
fixed_kind : String → Option ArtifactDescription
fixed_kind path =
    if text_eq path "intent-brief.md"
    then described intent_brief "intent-brief.md" "intent brief" gate markdown
    else if text_eq path "spec.md"
    then described spec "spec.md" "spec" gate markdown
    else if text_eq path "plan.md"
    then described plan "plan.md" "plan" gate markdown
    else if text_eq path "verification-report.md"
    then described verification_report "verification-report.md" "verification report" gate markdown
    else if text_eq path "release-plan.md"
    then described release_plan "release-plan.md" "release plan" gate markdown
    else if text_eq path "state.yaml"
    then described state "state.yaml" "run state" ledger yaml
    else if text_eq path "docs-delta.md"
    then presence_only docs_delta "docs delta" other
    else if text_eq path "integration-profile.md"
    then presence_only integration_profile "integration profile" gate
    else none

-- What stands between a prefix and a suffix.
abbrev between : String → String → List ℕ → Option (List ℕ)
between before behind path = elim (strip_prefix (codes before) path) [
  | none ↦ none
  | some rest ↦ strip_suffix (codes behind) rest
]

abbrev has_slash : List ℕ → Bool
has_slash s = any (λ c. c == b'/') s

abbrev starts_with_digit : List ℕ → Bool
starts_with_digit [] = false
starts_with_digit (c ∷ s) = leb b'0' c && leb c b'9'

-- `/^review-(\d+[^/]*)\.md$/`, and its group.
review_id : List ℕ → Option (List ℕ)
review_id path = elim (between "review-" ".md" path) [
  | none ↦ none
  | some id ↦ if starts_with_digit id && not (has_slash id) then some id else none
]

-- The stem of a file under `tasks/`.
task_stem : List ℕ → Option (List ℕ)
task_stem path = elim (between "tasks/" ".yaml" path) [
  | none ↦ none
  | some stem ↦ if is_empty stem then none else some stem
]

abbrev ends_in : String → List ℕ → Bool
ends_in suffix s = is_some (strip_suffix (codes suffix) s)

-- The format by the extension, in either case.
format_of : List ℕ → ArtifactFormat
format_of path =
    let low = map lower_code path in
    if ends_in ".md" low || ends_in ".markdown" low
    then markdown
    else if ends_in ".yaml" low || ends_in ".yml" low
    then yaml
    else text

abbrev review_description : List ℕ → ArtifactDescription
review_description id = record {
  kind = review_report;
  id = some id;
  contract = some "review-report.md";
  contract_name = some "review report";
  family = reviews;
  format = markdown;
}

abbrev task_description : List ℕ → ArtifactDescription
task_description stem = record {
  kind = work_item;
  id = if has_slash stem then none else some stem;
  contract = some "work-item.yaml";
  contract_name = some "work item";
  family = work_items;
  format = yaml;
}

abbrev other_description : ArtifactFormat → ArtifactDescription
other_description format = record {
  kind = other;
  id = none;
  contract = none;
  contract_name = none;
  family = other;
  format = format;
}

unfoldable pub describe_artifact : String → ArtifactDescription
unfolding fixed_kind review_id task_stem format_of
describe_artifact path = elim (fixed_kind path) [
  | some fixed ↦ fixed
  | none ↦ elim (review_id (codes path)) [
    | some id ↦ review_description id
    | none ↦ elim (task_stem (codes path)) [
      | some stem ↦ task_description stem
      | none ↦ other_description (format_of (codes path))
    ]
  ]
]

unfoldable pub is_work_item : String → Bool
unfolding describe_artifact
is_work_item path = elim (describe_artifact path).kind [ work_item ↦ true | _ ↦ false ]

unfoldable pub is_review_report : String → Bool
unfolding describe_artifact
is_review_report path = elim (describe_artifact path).kind [ review_report ↦ true | _ ↦ false ]

work_item_test : is_work_item "tasks/01-core.yaml" ≡ true
unfolding is_work_item
work_item_test = refl

review_test : is_review_report "review-03-round2.md" ≡ true
unfolding is_review_report
review_test = refl

nested_test : (describe_artifact "design/spec.md").kind ≡ other
unfolding describe_artifact
nested_test = refl
