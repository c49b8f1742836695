-- ===== src/Prelude/Maps.antt =====
-- A JavaScript `Map` with strings as keys: the list of its entries, in the order of insertion.

use Prim.Native.String.{String}
use mathlib.Core.Bool.{Bool, not}
use mathlib.Core.Option.{Option, none, some}
use mathlib.Core.List.{List, [], ◌∷◌, ◌++◌}
use gateline.Prelude.Tests.{if◌then◌else◌}
use gateline.Prelude.Lists.{filter_by, is_some}
use gateline.Prelude.Texts.{text_eq, mem_text}

module _ {ℓ} {V : Type ℓ} where
  -- `map.get(k)`.
  abbrev pub lookup_text : String → List (String × V) → Option V
  lookup_text k [] = none
  lookup_text k ((j, v) ∷ m) = if text_eq j k then some v else lookup_text k m

  -- `map.has(k)`.
  abbrev pub has_text : String → List (String × V) → Bool
  has_text k m = is_some (lookup_text k m)

  -- `map.set(k, v)`: a known key keeps its place.
  abbrev pub put_text : String → V → List (String × V) → List (String × V)
  put_text k v [] = (k, v) ∷ []
  put_text k v ((j, w) ∷ m) =
      let rest = put_text k v m in if text_eq j k then (j, v) ∷ m else (j, w) ∷ rest

  -- `map.delete(k)`.
  abbrev pub drop_text : String → List (String × V) → List (String × V)
  drop_text k m = filter_by (λ e. not (text_eq e.0 k)) m

  -- `map.keys()` and `map.values()`.
  abbrev pub keys_of : List (String × V) → List String
  keys_of [] = []
  keys_of ((k, v) ∷ m) = k ∷ keys_of m

  abbrev pub values_of : List (String × V) → List V
  values_of [] = []
  values_of ((k, v) ∷ m) = v ∷ values_of m

-- A `Set` of strings.
abbrev pub add_text : String → List String → List String
add_text k ks = if mem_text k ks then ks else ks ++ k ∷ []

abbrev pub remove_text : String → List String → List String
remove_text k ks = filter_by (λ j. not (text_eq j k)) ks
