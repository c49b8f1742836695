-- ===== src/Sources/Naming/Origin.antt =====
-- The one parser of origin URLs: parseOriginUrl of packages/core/src/sources/repository-id.ts.
use gateline.Prelude.{
  ℕ, String, Bool, false, not, ◌&&◌, ◌||◌, Option, none, some, List, [], ◌∷◌, ◌==◌, is_some,
  is_empty, or_else, if◌then◌else◌, text_eq, join_with, is_blank, trim, filter_by,
}
use Prim.Native.Char.{Char, code}
use Prim.Native.String.{◌++◌ as append}
use gateline.Sources.Naming.{
  repository_id_key, split_first, after_last, split_slash, any_char, is_letter, is_numeral, is_code,
  is_separator,
}

-- ---- An origin's URL.

pub record ParsedOrigin : Type 0 where
  pub host : String
  pub path : List String

abbrev is_scheme_char : Char → Bool
is_scheme_char c = is_letter c || is_numeral c || code c == b'+' || code c == b'.' || code c == b'-'

-- What follows a literal at the start of a text.
abbrev pub after_codes : List ℕ → String → Option String
after_codes [] s = some s
after_codes (k ∷ ks) String.[] = none
after_codes (k ∷ ks) (String.◌∷◌ c s) =
    let rest = after_codes ks s in if code c == k then rest else none

abbrev scheme_mark : List ℕ
scheme_mark = b':' ∷ b'/' ∷ b'/' ∷ []

-- `/^([A-Za-z][A-Za-z0-9+.-]*):\/\//`: the scheme and what follows the match.
abbrev scheme_rest : String → Option (String × String)
scheme_rest String.[] = none
scheme_rest (String.◌∷◌ c s) =
    let rest = scheme_rest s in
    if is_scheme_char c
    then (elim rest [ none ↦ none | some p ↦ some (String.◌∷◌ c p.0, p.1) ])
    else elim (after_codes scheme_mark (String.◌∷◌ c s)) [ none ↦ none | some t ↦ some ("", t) ]

abbrev pub scheme_of : String → Option (String × String)
scheme_of String.[] = none
scheme_of (String.◌∷◌ c s) = if is_letter c then scheme_rest (String.◌∷◌ c s) else none

-- The text up to the first `]`, which it keeps.
abbrev through_bracket : String → String
through_bracket s = elim (split_first b']' s) [ none ↦ s | some p ↦ append p.0 "]" ]

abbrev pub before_colon : String → String
before_colon s = elim (split_first b':' s) [ none ↦ s | some p ↦ p.0 ]

unfoldable pub host_of : String → String
unfolding repository_id_key
host_of authority =
    let host = or_else (after_last (is_code b'@') authority) authority in
    repository_id_key
      (if is_some (after_codes (b'[' ∷ []) host) then through_bracket host else before_colon host)

-- A last segment's text before its `.git`, if it ends so.
abbrev bare_of : String → Option String
bare_of String.[] = none
bare_of (String.◌∷◌ c s) =
    let rest = bare_of s in
    if text_eq (String.◌∷◌ c s) ".git"
    then some ""
    else elim rest [ none ↦ none | some b ↦ some (String.◌∷◌ c b) ]

abbrev drop_git : List String → List String
drop_git [] = []
drop_git (s ∷ []) = elim (bare_of s) [ none ↦ s ∷ [] | some b ↦ if is_blank b then [] else b ∷ [] ]
drop_git (s ∷ t ∷ ss) = s ∷ drop_git (t ∷ ss)

abbrev pub is_filled : String → Bool
is_filled s = not (is_blank s)

unfoldable pub origin_of : String → String → Option ParsedOrigin
unfolding host_of split_slash
origin_of authority path =
    let host = host_of authority in
    let segments = drop_git (filter_by is_filled (split_slash path)) in
    if is_blank host
    then none
    else if is_empty segments
    then none
    else some (record { host = host; path = segments })

-- A letter before the colon, and a separator after it.
abbrev pub is_drive : String → String → Bool
is_drive (String.◌∷◌ c String.[]) (String.◌∷◌ d s) = is_letter c && is_separator d
is_drive (String.◌∷◌ c String.[]) String.[] = false
is_drive (String.◌∷◌ c (String.◌∷◌ d s)) t = false
is_drive String.[] t = false

unfoldable pub parse_schemed : String × String → Option ParsedOrigin
unfolding origin_of repository_id_key
parse_schemed (scheme, rest) =
    if text_eq (repository_id_key scheme) "file" then none else elim (split_first b'/' rest) [
      | none ↦ origin_of rest ""
      | some p ↦ origin_of p.0 (append "/" p.1)
    ]

unfoldable pub parse_scp : String → Option ParsedOrigin
unfolding origin_of
parse_scp raw = elim (split_first b':' raw) [
  | none ↦ none
  | some p ↦
      if is_blank p.0 || any_char (is_code b'/') p.0
      then none
      else if is_drive p.0 p.1
      then none
      else origin_of p.0 p.1
]

abbrev pub read_origin : String → Option ParsedOrigin
read_origin raw =
    if is_blank raw
    then none
    else elim (scheme_of raw) [ none ↦ parse_scp raw | some p ↦ parse_schemed p ]

unfoldable pub parse_origin_url : Option String → Option ParsedOrigin
unfolding trim
parse_origin_url url = read_origin (trim (or_else url ""))

unfoldable pub id_from_origin : Option String → Option String
unfolding parse_origin_url
id_from_origin url = elim (parse_origin_url url) [
  | none ↦ none
  | some p ↦ some (join_with "/" (p.host ∷ p.path))
]
