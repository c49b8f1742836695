-- ===== src/Sources/Naming/Rules.antt =====
-- The rules that an id satisfies: repositoryIdProblem of packages/core/src/sources/repository-id.ts.
use gateline.Prelude.{
  String, Bool, false, not, ◌&&◌, ◌||◌, Option, none, some, List, [], ◌∷◌, ◌==◌, leb, length,
  or_else, if◌then◌else◌, text_eq, join, is_blank, is_space, filter_by, any,
}
use Prim.Native.Char.{Char, code}
use Prim.Native.String.{◌++◌ as append}
use gateline.Sources.Naming.{
  repository_id_key, after_last, split_slash, any_char, all_chars, last_text, is_letter, is_numeral,
  is_separator,
}
use gateline.Sources.Naming.Origin.{is_filled}

-- ---- The rules of an id.

unfoldable pub same_repository_id : String → String → Bool
unfolding repository_id_key
same_repository_id a b = text_eq (repository_id_key a) (repository_id_key b)

unfoldable pub last_id_segment : String → String
unfolding split_slash
last_id_segment id = or_else (last_text (filter_by is_filled (split_slash id))) id

abbrev drop_separators : String → String
drop_separators String.[] = ""
drop_separators (String.◌∷◌ c s) =
    let rest = drop_separators s in
    if is_blank rest && is_separator c then "" else String.◌∷◌ c rest

unfoldable pub directory_basename : String → String
directory_basename dir =
    let kept = drop_separators dir in or_else (after_last is_separator kept) kept

abbrev pub is_name_char : Char → Bool
is_name_char c = is_letter c || is_numeral c || code c == b'.' || code c == b'_' || code c == b'-'

abbrev quoted : String → String
quoted s = join ("\"" ∷ s ∷ "\"" ∷ [])

-- Why a name cannot follow `local/`.
unfoldable pub local_name_problem : String → Option String
local_name_problem name =
    if is_blank name || not (all_chars is_name_char name)
    then some (append (quoted name) " may contain only letters, digits, \".\", \"_\" and \"-\"")
    else if text_eq name "-" || text_eq name "." || text_eq name ".."
    then some (append (quoted name) " cannot be a name on its own")
    else none

abbrev pub local_problem : String → List String → Option String
local_problem id [] = none
local_problem id (s ∷ []) = none
local_problem id (s ∷ name ∷ []) = elim (local_name_problem name) [
  | none ↦ none
  | some problem ↦ some (join (quoted id ∷ ": " ∷ problem ∷ []))
]
local_problem id (s ∷ name ∷ t ∷ ss) =
    some (append (quoted id) " is a local id, which takes exactly one name after \"local/\"")

abbrev pub is_local : List String → Bool
is_local [] = false
is_local (s ∷ ss) = text_eq s "local"

abbrev needs_two : String
needs_two = " needs at least two segments, as in github.com/acme/billing or local/billing"

abbrev segments_problem : String → List String → Option String
segments_problem id segments =
    if leb (length segments) 1
    then some (append (quoted id) needs_two)
    else if any is_blank segments
    then some (append (quoted id) " has an empty segment")
    else if any (λ s. text_eq s "-") segments
    then some (append (quoted id) " has a segment that is \"-\", which the URL shape reserves")
    else if any (λ s. text_eq s "." || text_eq s "..") segments
    then some (append (quoted id) " has a \".\" or \"..\" segment")
    else if is_local segments
    then local_problem id segments
    else none

-- Why an id is not a usable one.
unfoldable pub repository_id_problem : String → Option String
unfolding split_slash local_name_problem is_space
repository_id_problem id =
    if any_char is_space id
    then some (append (quoted id) " contains whitespace")
    else segments_problem id (split_slash id)
