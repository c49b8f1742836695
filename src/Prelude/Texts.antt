-- ===== src/Prelude/Texts.antt =====
-- Text, as the source's strings use it: template literals, `includes`, `trim`, numerals.
use Prim.Native.String.{compare}
use text.Mathlib.Text.{is_le}
use mathlib.Core.Option.{Option, none, some}
use Prim.Native.Nat.{◌+◌}
use Prim.Native.Nat.{ℕ, zero, suc, ◌/◌, ◌%◌}
use Prim.Native.Char.{Char, code}
use Prim.Native.String.{String, ◌++◌}
use mathlib.Core.Path.{◌≡◌, refl}
use mathlib.Core.Bool.{Bool, true, false, ◌&&◌, ◌||◌}
use mathlib.Core.List.{List, [], ◌∷◌}
use text.Mathlib.Text.{◌==◌ as text_beq, starts_with}
use text.Mathlib.TextPositions.{starts_with-append}
use text.Mathlib.TextLemmas.{nil-append, cons-append}
use gateline.Prelude.Tests.{leb, ◌==◌, if◌then◌else◌}
use gateline.Prelude.Lists.{any}

-- `a === b` on strings.
abbrev pub text_eq : String → String → Bool
text_eq = text_beq

abbrev pub mem_text : String → List String → Bool
mem_text s xs = any (text_eq s) xs

-- A template literal: its parts, one after another.
abbrev pub join : List String → String
join [] = ""
join (s ∷ ss) = s ++ join ss

-- `parts.join(sep)`.
abbrev pub join_with : String → List String → String
join_with sep [] = ""
join_with sep (s ∷ []) = s
join_with sep (s ∷ t ∷ ss) = s ++ (sep ++ join_with sep (t ∷ ss))

-- `s.includes(t)`.
unfoldable pub includes : String → String → Bool
includes String.[] t = starts_with "" t
includes (String.◌∷◌ c s) t = starts_with (String.◌∷◌ c s) t || includes s t

-- The characters that `trim` removes: white space and line terminators.
unfoldable pub is_space : Char → Bool
is_space c =
    let n = code c in
    leb 9 n && leb n 13
    || n == 32
    || n == 160
    || n == 0x1680
    || leb 0x2000 n && leb n 0x200a
    || n == 0x2028
    || n == 0x2029
    || n == 0x202f
    || n == 0x205f
    || n == 0x3000
    || n == 0xfeff

unfoldable pub trim_start : String → String
unfolding is_space
trim_start String.[] = ""
trim_start (String.◌∷◌ c s) = let rest = trim_start s in if is_space c then rest else String.◌∷◌ c s

abbrev pub is_blank : String → Bool
is_blank String.[] = true
is_blank (String.◌∷◌ c s) = false

unfoldable pub trim_end : String → String
unfolding is_space
trim_end String.[] = ""
trim_end (String.◌∷◌ c s) =
    let rest = trim_end s in if is_blank rest && is_space c then "" else String.◌∷◌ c rest

-- `s.trim()`.
unfoldable pub trim : String → String
unfolding trim_start trim_end
trim s = trim_end (trim_start s)

abbrev pub digit : ℕ → String
digit zero = "0"
digit (suc zero) = "1"
digit (suc (suc zero)) = "2"
digit (suc (suc (suc zero))) = "3"
digit (suc (suc (suc (suc zero)))) = "4"
digit (suc (suc (suc (suc (suc zero))))) = "5"
digit (suc (suc (suc (suc (suc (suc zero)))))) = "6"
digit (suc (suc (suc (suc (suc (suc (suc zero))))))) = "7"
digit (suc (suc (suc (suc (suc (suc (suc (suc zero)))))))) = "8"
digit (suc (suc (suc (suc (suc (suc (suc (suc (suc n))))))))) = "9"

unfoldable pub decimal_from : ℕ → ℕ → String → String
decimal_from zero n acc = acc
decimal_from (suc f) n acc =
    let rest = decimal_from f (n / 10) (digit (n % 10) ++ acc) in
    if leb n 9 then digit n ++ acc else rest

-- `String(n)` of a natural number: a number has fewer digits than one more than itself.
unfoldable pub decimal : ℕ → String
unfolding decimal_from
decimal n = decimal_from (suc n) n ""

or-true : (b : Bool) → (b || true) ≡ true
or-true true = refl
or-true false = refl

includes_of_starts_with : (s t : String) → starts_with s t ≡ true → includes s t ≡ true
unfolding includes
includes_of_starts_with String.[] t h = h
includes_of_starts_with (String.◌∷◌ c s) t h = rw h

-- A text includes each piece that it was put together from.
pub includes-append_left : (s t : String) → includes (s ++ t) s ≡ true
includes-append_left s t = includes_of_starts_with (s ++ t) s (starts_with-append s t)

pub includes-append_right : (s t u : String) → includes t u ≡ true → includes (s ++ t) u ≡ true
unfolding includes
includes-append_right String.[] t u h = rw nil-append h
includes-append_right (String.◌∷◌ c s) t u h =
    rw cons-append (rw (includes-append_right s t u h) (or-true _))

-- The code points of a text.
abbrev pub codes : String → List ℕ
codes String.[] = []
codes (String.◌∷◌ c s) = code c ∷ codes s

-- What follows a prefix, and what precedes a suffix.
abbrev pub strip_prefix : List ℕ → List ℕ → Option (List ℕ)
strip_prefix [] s = some s
strip_prefix (c ∷ p) [] = none
strip_prefix (c ∷ p) (d ∷ s) = if c == d then strip_prefix p s else none

abbrev pub same_codes : List ℕ → List ℕ → Bool
same_codes [] [] = true
same_codes [] (d ∷ t) = false
same_codes (c ∷ s) [] = false
same_codes (c ∷ s) (d ∷ t) = c == d && same_codes s t

abbrev pub strip_suffix : List ℕ → List ℕ → Option (List ℕ)
strip_suffix p [] = if same_codes [] p then some [] else none
strip_suffix p (c ∷ s) =
    let rest = strip_suffix p s in
    if same_codes (c ∷ s) p then some [] else elim rest [ none ↦ none | some t ↦ some (c ∷ t) ]

abbrev pub lower_code : ℕ → ℕ
lower_code c = if leb b'A' c && leb c b'Z' then c + 32 else c

-- `s <= t` on strings, by their characters.
abbrev pub text_leb : String → String → Bool
text_leb s t = is_le (compare s t)
