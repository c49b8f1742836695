-- ===== src/Sources/Naming/Usable.antt =====
-- The ids that deriveRepositoryId gives, of packages/core/src/sources/repository-id.ts.
use Prim.Native.Char.{Char, code}
use Prim.Native.String.{◌++◌ as append}
use text.Mathlib.TextLemmas.{nil-append, cons-append}
use gateline.Prelude.{
  ℕ, suc, or_else, String, Bool, true, false, not, ◌&&◌, ◌||◌, Option, none, some, List, [], ◌∷◌,
  ◌==◌, leb, ◌≡◌, refl, is_blank, is_space, arith, if◌then◌else◌, text_eq, ap, All, any, length,
  Bool-cases, option_split, ◌≤◌, inl, inr,
}
use gateline.Sources.Naming.{split_slash, any_char, all_chars}
use gateline.Sources.Naming.Derived.{
  Named, Naming, called, refused, DerivedRepositoryId, derive_repository_id, configured,
  from_origin, from_name,
}
use gateline.Sources.Naming.Origin.{id_from_origin}
use gateline.Sources.Naming.Rules.{
  repository_id_problem, local_name_problem, is_name_char, is_local, local_problem,
  directory_basename,
}

name_char-space : (c : Char) → is_name_char c ≡ true → is_space c ≡ false
unfolding is_space
name_char-space c h = ground arith

pub name_char-slash : (c : Char) → is_name_char c ≡ true → (code c == b'/') ≡ false
name_char-slash c h = ground arith

local_text :
    (n : String)
    → append "local/" n
      ≡ String.◌∷◌ "l"
          (String.◌∷◌ "o" (String.◌∷◌ "c" (String.◌∷◌ "a" (String.◌∷◌ "l" (String.◌∷◌ "/" n)))))
local_text n =
    rw (cons-append, cons-append, cons-append, cons-append, cons-append, cons-append, nil-append)
      refl

pub and_true : (a b : Bool) → (a && b) ≡ true → (a ≡ true) × (b ≡ true)
and_true true b h = (refl, h)
and_true false b h = grind arith

or_false : (a b : Bool) → (a || b) ≡ false → (a ≡ false) × (b ≡ false)
or_false true b h = grind arith
or_false false b h = (refl, h)

-- ---- A name of letters, digits and the three marks has no white space and is one segment.

name-space : (n : String) → all_chars is_name_char n ≡ true → any_char is_space n ≡ false
name-space String.[] h = refl
name-space (String.◌∷◌ c s) h =
    let (e, k) = and_true (is_name_char c) (all_chars is_name_char s) h in
    rw (name_char-space c e) (name-space s k)

name-split_slash : (n : String) → all_chars is_name_char n ≡ true → split_slash n ≡ n ∷ []
unfolding split_slash
name-split_slash String.[] h = refl
name-split_slash (String.◌∷◌ c s) h =
    let (e, k) = and_true (is_name_char c) (all_chars is_name_char s) h in
    rw (name_char-slash c e, name-split_slash s k) refl

-- ---- What a usable id is.

abbrev pub UsableSegment : String → Type 0
UsableSegment s =
    (is_blank s ≡ false) × (text_eq s "-" ≡ false) × ((text_eq s "." || text_eq s "..") ≡ false)

-- An id with no white space, of two segments or more, each with a text that an address can hold; an id
-- that begins with `local` has one more segment.
abbrev pub UsableId : String → Type 0
UsableId id =
    let segments = split_slash id in
    (any_char is_space id ≡ false)
    × (2 ≤ length segments)
    × All UsableSegment segments
    × ((not (is_local segments) || length segments == 2) ≡ true)

any-All : {A : Type 0} (p : A → Bool) (xs : List A) → any p xs ≡ false → All (λ x. p x ≡ false) xs
any-All p [] h = tt
any-All p (x ∷ xs) h = let (e, k) = or_false (p x) (any p xs) h in (e, any-All p xs k)

segments_usable :
    (segments : List String)
    → any is_blank segments ≡ false
    → any (λ s. text_eq s "-") segments ≡ false
    → any (λ s. text_eq s "." || text_eq s "..") segments ≡ false
    → All UsableSegment segments
segments_usable [] h k l = tt
segments_usable (s ∷ ss) h k l =
    let (e, h1) = or_false (is_blank s) (any is_blank ss) h in
    let (f, k1) = or_false (text_eq s "-") (any (λ s. text_eq s "-") ss) k in
    let (g, l1) =
      or_false (text_eq s "." || text_eq s "..") (any (λ s. text_eq s "." || text_eq s "..") ss)
        l in
    ((e, f, g), segments_usable ss h1 k1 l1)

local_problem-length :
    (id : String) (segments : List String)
    → local_problem id segments ≡ none
    → 2 ≤ length segments
    → length segments ≡ 2
local_problem-length id [] h l = grind arith
local_problem-length id (s ∷ []) h l = grind arith
local_problem-length id (s ∷ name ∷ []) h l = refl
local_problem-length id (s ∷ name ∷ t ∷ ss) h l = grind arith

-- No complaint from a chain of tests: the first is passed, and so is the rest.
passed :
    (b : Bool) (x : String) (y : Option String)
    → (if b then some x else y) ≡ none
    → (b ≡ false) × (y ≡ none)
passed true x y h = grind arith
passed false x y h = (refl, h)

chosen : (b : Bool) (x : Option String) → b ≡ true → (if b then x else none) ≡ none → x ≡ none
chosen true x e h = h
chosen false x e h = grind arith

leb-false : (a b : ℕ) → leb a b ≡ false → suc b ≤ a
leb-false a b h = ground arith

local_length :
    (id : String) (segments : List String)
    → 2 ≤ length segments
    → (if is_local segments then local_problem id segments else none) ≡ none
    → (not (is_local segments) || length segments == 2) ≡ true
local_length id segments l h = elim (Bool-cases (is_local segments)) [
  | inl e ↦ rw (e, local_problem-length id segments (chosen _ _ e h) l) refl
  | inr e ↦ rw e refl
]

-- The code's tests leave exactly the ids of the description.
repository_id_problem-UsableId : (id : String) → repository_id_problem id ≡ none → UsableId id
unfolding repository_id_problem
repository_id_problem-UsableId id h =
    let segments = split_slash id in
    let (no_space, h1) = passed (any_char is_space id) _ _ h in
    let (two, h2) = passed (leb (length segments) 1) _ _ h1 in
    let (filled, h3) = passed (any is_blank segments) _ _ h2 in
    let (no_dash, h4) = passed (any (λ s. text_eq s "-") segments) _ _ h3 in
    let (no_dots, h5) = passed (any (λ s. text_eq s "." || text_eq s "..") segments) _ _ h4 in
    let long = leb-false _ _ two in
    (
      no_space,
      long,
      segments_usable segments filled no_dash no_dots,
      local_length id segments long h5,
    )

both_false : (a b : Bool) → a ≡ false → b ≡ false → (a || b) ≡ false
both_false true b h k = h
both_false false b h k = k

true_of_not : (b : Bool) → not b ≡ false → b ≡ true
true_of_not true h = refl
true_of_not false h = grind arith

two_two : 2 ≤ 2
two_two = omega arith

local_name-UsableId : (n : String) → local_name_problem n ≡ none → UsableId (append "local/" n)
unfolding local_name_problem split_slash is_space
local_name-UsableId n h =
    let (t, _) = passed (is_blank n || not (all_chars is_name_char n)) _ _ h in
    let (blank, bad) = or_false (is_blank n) (not (all_chars is_name_char n)) t in
    let chars = true_of_not (all_chars is_name_char n) bad in
    let (u, _) = passed (text_eq n "-" || text_eq n "." || text_eq n "..") _ _ (passed _ _ _ h).1 in
    let (marks, two_dots) = or_false (text_eq n "-" || text_eq n ".") (text_eq n "..") u in
    let (dash, dot) = or_false (text_eq n "-") (text_eq n ".") marks in
    rw (local_text n, name-split_slash n chars)
      (
        name-space n chars,
        two_two,
        ((refl, refl, refl), ((blank, dash, both_false _ _ dot two_dots), tt)),
        refl,
      )

abbrev id_of : Naming → String
id_of (called d) = d.id
id_of (refused s) = s

called-id : {d e : DerivedRepositoryId} → called d ≡ called e → d.id ≡ e.id
called-id h = ap id_of h

module _ (input : Named) (d : DerivedRepositoryId) where
  abbrev Usable : Naming → Type 0
  Usable r = r ≡ called d → UsableId d.id

  configured-Usable : (id : String) → Usable (configured input id)
  configured-Usable id =
      option_split Usable (repository_id_problem id)
        (λ e q. rw (← called-id q) (repository_id_problem-UsableId id e)) (λ a e q. grind arith)

  from_origin-Usable : (id : String) → Usable (from_origin input id)
  from_origin-Usable id =
      option_split Usable (repository_id_problem id)
        (λ e q. rw (← called-id q) (repository_id_problem-UsableId id e)) (λ a e q. grind arith)

  from_name-Usable : (name : String) → Usable (from_name input name)
  from_name-Usable name =
      option_split Usable (local_name_problem name)
        (λ e q. rw (← called-id q) (local_name-UsableId name e)) (λ a e q. grind arith)

-- Every id that a repository is given is usable, whether it is stated in the configuration, read from an
-- origin or made of a name: it has no white space and at least two segments, no segment is empty, `-`, `.`
-- or `..`, and an id that begins with `local` has exactly one segment more.
pub derive_repository_id-UsableId :
    (input : Named) (d : DerivedRepositoryId)
    → derive_repository_id input ≡ called d
    → UsableId d.id
unfolding derive_repository_id
derive_repository_id-UsableId input d =
    option_split (Usable input d) input.explicit_id
      (λ e.
        option_split (Usable input d) (id_from_origin input.origin_url)
          (λ e. from_name-Usable input d (or_else input.name (directory_basename input.dir)))
          (λ id e. from_origin-Usable input d id))
      (λ id e. configured-Usable input d id)
