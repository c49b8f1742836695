-- ===== src/Sources/Naming/Derived.antt =====
-- The id that a repository is given: deriveRepositoryId of packages/core/src/sources/repository-id.ts.
use gateline.Prelude.{
  String, Option, none, some, List, [], ◌∷◌, is_some, or_else, if◌then◌else◌, join,
}
use Prim.Native.String.{◌++◌ as append}
use gateline.Sources.Naming.Origin.{id_from_origin}
use gateline.Sources.Naming.Rules.{repository_id_problem, local_name_problem, directory_basename}

-- ---- The id that a repository is given.

pub data RepositoryIdOrigin : Type 0 where
  config : RepositoryIdOrigin
  origin : RepositoryIdOrigin
  local : RepositoryIdOrigin

pub record DerivedRepositoryId : Type 0 where
  pub id : String
  pub from : RepositoryIdOrigin

pub record Named : Type 0 where
  pub origin_url : Option String
  pub explicit_id : Option String
  pub name : Option String
  pub dir : String

-- An id, or the message of the `RepositoryIdError` that is thrown.
pub data Naming : Type 0 where
  called : DerivedRepositoryId → Naming
  refused : String → Naming

abbrev pub configured : Named → String → Naming
configured input id = elim (repository_id_problem id) [
  | none ↦ called (record { id = id; from = config })
  | some problem ↦
      refused (join ("repository at " ∷ input.dir ∷ ": the configured id " ∷ problem ∷ []))
]

abbrev origin_refusal : Named → String → List String
origin_refusal input problem =
    "repository at "
    ∷ input.dir
    ∷ ": the id derived from its origin ("
    ∷ or_else input.origin_url "null"
    ∷ ") is unusable — "
    ∷ problem
    ∷ "; state one with `id:` in the config"
    ∷ []

abbrev pub from_origin : Named → String → Naming
from_origin input id = elim (repository_id_problem id) [
  | none ↦ called (record { id = id; from = origin })
  | some problem ↦ refused (join (origin_refusal input problem))
]

abbrev name_refusal : Named → String → List String
name_refusal input problem =
    "repository at "
    ∷ input.dir
    ∷ " has no origin, so it is named local/<name> from "
    ∷ (if is_some input.name then "its configured name" else "its directory name")
    ∷ ", and "
    ∷ problem
    ∷ "; give it a `name` (or an `id:`) in the config"
    ∷ []

abbrev pub from_name : Named → String → Naming
from_name input local_name = elim (local_name_problem local_name) [
  | none ↦ called (record { id = append "local/" local_name; from = local })
  | some problem ↦ refused (join (name_refusal input problem))
]

unfoldable pub derive_repository_id : Named → Naming
unfolding repository_id_problem local_name_problem id_from_origin directory_basename
derive_repository_id input = elim input.explicit_id [
  | some id ↦ configured input id
  | none ↦ elim (id_from_origin input.origin_url) [
    | some id ↦ from_origin input id
    | none ↦ from_name input (or_else input.name (directory_basename input.dir))
  ]
]
