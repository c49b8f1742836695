-- ===== src/Sources/Naming.antt =====
-- What a repository is called, packages/core/src/sources/repository-id.ts: reading its texts.
pub mod Origin
pub mod Rules
pub mod Derived
pub mod Usable
pub mod Forms
use gateline.Prelude.{
  ℕ, String, Bool, true, false, ◌&&◌, ◌||◌, Option, none, some, List, [], ◌∷◌, ◌==◌, leb,
  if◌then◌else◌,
}
use Prim.Native.Char.{Char, code}

-- `toLowerCase()`, on the letters of ASCII.
abbrev pub lower_letters : List (ℕ × Char)
lower_letters =
    (65, "a")
    ∷ (66, "b")
    ∷ (67, "c")
    ∷ (68, "d")
    ∷ (69, "e")
    ∷ (70, "f")
    ∷ (71, "g")
    ∷ (72, "h")
    ∷ (73, "i")
    ∷ (74, "j")
    ∷ (75, "k")
    ∷ (76, "l")
    ∷ (77, "m")
    ∷ (78, "n")
    ∷ (79, "o")
    ∷ (80, "p")
    ∷ (81, "q")
    ∷ (82, "r")
    ∷ (83, "s")
    ∷ (84, "t")
    ∷ (85, "u")
    ∷ (86, "v")
    ∷ (87, "w")
    ∷ (88, "x")
    ∷ (89, "y")
    ∷ (90, "z")
    ∷ []

abbrev pub lower_by : List (ℕ × Char) → Char → Char
lower_by [] c = c
lower_by ((n, l) ∷ ls) c = if code c == n then l else lower_by ls c

unfoldable pub lower_char : Char → Char
lower_char c = lower_by lower_letters c

unfoldable pub repository_id_key : String → String
unfolding lower_char
repository_id_key String.[] = ""
repository_id_key (String.◌∷◌ c s) = String.◌∷◌ (lower_char c) (repository_id_key s)

-- ---- Reading a text.

-- Where the first such character stands: the text before it and the text after it.
abbrev pub split_first : ℕ → String → Option (String × String)
split_first k String.[] = none
split_first k (String.◌∷◌ c s) =
    let rest = split_first k s in
    if code c == k
    then some ("", s)
    else elim rest [ none ↦ none | some p ↦ some (String.◌∷◌ c p.0, p.1) ]

-- What follows the last such character.
abbrev pub after_last : (Char → Bool) → String → Option String
after_last is_mark String.[] = none
after_last is_mark (String.◌∷◌ c s) = elim (after_last is_mark s) [
  | none ↦ if is_mark c then some s else none
  | some t ↦ some t
]

abbrev onto : Char → List String → List String
onto c [] = String.◌∷◌ c "" ∷ []
onto c (s ∷ ss) = String.◌∷◌ c s ∷ ss

-- `s.split('/')`.
unfoldable pub split_slash : String → List String
split_slash String.[] = "" ∷ []
split_slash (String.◌∷◌ c s) =
    let rest = split_slash s in if code c == b'/' then "" ∷ rest else onto c rest

abbrev pub any_char : (Char → Bool) → String → Bool
any_char p String.[] = false
any_char p (String.◌∷◌ c s) = p c || any_char p s

abbrev pub all_chars : (Char → Bool) → String → Bool
all_chars p String.[] = true
all_chars p (String.◌∷◌ c s) = p c && all_chars p s

abbrev pub last_text : List String → Option String
last_text [] = none
last_text (s ∷ []) = some s
last_text (s ∷ t ∷ ss) = last_text (t ∷ ss)

abbrev pub is_letter : Char → Bool
is_letter c = leb b'A' (code c) && leb (code c) b'Z' || leb b'a' (code c) && leb (code c) b'z'

abbrev pub is_numeral : Char → Bool
is_numeral c = leb b'0' (code c) && leb (code c) b'9'

abbrev pub is_code : ℕ → Char → Bool
is_code k c = code c == k

-- `/` and `\`.
abbrev pub is_separator : Char → Bool
is_separator c = code c == b'/' || code c == 92
