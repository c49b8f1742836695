-- ===== src/Orchestrator/Governor/Reserving/Holds.antt =====
-- How `reserve` of packages/orchestrator/src/governor.ts counts: intents under the cap, and the holds that
-- they take over.
use text.Mathlib.TextEquality.{eq_iff}
use gateline.Prelude.{
  ℕ, zero, suc, ◌+◌, ◌≤◌, ◌<◌, ◌≡◌, refl, ap, inl, inr, String, Bool, true, false, not, none, List,
  [], ◌∷◌, ◌++◌, length, any, filter_by, mem_text, text_eq, if◌then◌else◌, arith, Bool-cases, All,
}
use gateline.Orchestrator.Governor.{Hold, Slot, ReservationIntent}
use gateline.Orchestrator.Governor.Waking.{take_first}
use gateline.Orchestrator.Governor.Counting.{
  is_hold, takes_over, fitting, superseded_keys, repeated_key, drop_holds, new_slots,
}

pub length-filter_by {ℓ} :
    {A : Type ℓ} (p : A → Bool) (xs : List A) → length (filter_by p xs) ≤ length xs
length-filter_by p [] = omega arith
length-filter_by p (x ∷ xs) = ground (arith, length-filter_by p xs)

-- A hold that is there is one fewer once it is dropped.
length-filter_by_hit {ℓ} :
    {A : Type ℓ} (p : A → Bool) (xs : List A)
    → any p xs ≡ true
    → suc (length (filter_by (λ x. not (p x)) xs)) ≤ length xs
length-filter_by_hit p [] h = ground arith
length-filter_by_hit p (x ∷ xs) h =
    ground (arith, length-filter_by (λ x. not (p x)) xs, length-filter_by_hit p xs)

any-filter_by {ℓ} :
    {A : Type ℓ} (p q : A → Bool) (xs : List A)
    → ((x : A) → p x ≡ true → q x ≡ true)
    → any p xs ≡ true
    → any p (filter_by q xs) ≡ true
any-filter_by p q [] f h = h
any-filter_by p q (x ∷ xs) f h = ground (arith, f x, any-filter_by p q xs f)

-- No key of the intents is repeated, nor among those seen.
abbrev pub Fresh : List String → List ReservationIntent → Type 0
Fresh seen [] = Unit
Fresh seen (i ∷ is) = (mem_text i.key seen ≡ false) × Fresh (i.key ∷ seen) is

pub repeated_key-Fresh :
    (seen : List String) (is : List ReservationIntent) → repeated_key seen is ≡ none → Fresh seen is
repeated_key-Fresh seen [] h = tt
repeated_key-Fresh seen (i ∷ is) h = ground (arith, repeated_key-Fresh (i.key ∷ seen) is)

pub take_first-Fresh :
    (n : ℕ) (seen : List String) (is : List ReservationIntent)
    → Fresh seen is
    → Fresh seen (take_first n is)
take_first-Fresh n seen [] f = tt
take_first-Fresh zero seen (i ∷ is) f = tt
take_first-Fresh (suc n) seen (i ∷ is) f = (f.0, take_first-Fresh n (i.key ∷ seen) is f.1)

-- An intent that takes over a hold of the first holds finds one among the second.
abbrev Found : (String → Bool) → List Hold → String → List ReservationIntent → Type 0
Found taking holds repository is =
    All (λ i. taking i.key ≡ true → takes_over holds repository i.key ≡ true) is

text_apart : (a k j : String) → text_eq k j ≡ false → text_eq a j ≡ true → text_eq a k ≡ false
text_apart a k j ne same = elim (Bool-cases (text_eq a k)) [
  | inr other ↦ other
  | inl eq ↦ clash ((eq_iff a k).0 eq) ((eq_iff a j).0 same)
]
  where
    clash : a ≡ k → a ≡ j → text_eq a k ≡ false
    clash e f = cc

pub apart :
    (k j : String) (seen : List String)
    → mem_text k seen ≡ true
    → mem_text j seen ≡ false
    → text_eq k j ≡ false
apart k j seen hk hj = elim (Bool-cases (text_eq k j)) [
  | inr ne ↦ ne
  | inl eq ↦ clash ((eq_iff k j).0 eq)
]
  where
    clash : k ≡ j → text_eq k j ≡ false
    clash e = cc

hold_apart :
    (repository k j : String) (x : Hold)
    → text_eq k j ≡ false
    → is_hold repository j x ≡ true
    → not (is_hold repository k x) ≡ true
unfolding is_hold
hold_apart repository k j x ne e = ground (arith, text_apart x.key k j ne)

drop-takes_over :
    (repository k j : String) (holds : List Hold)
    → text_eq k j ≡ false
    → takes_over holds repository j ≡ true
    → takes_over (filter_by (λ h. not (is_hold repository k h)) holds) repository j ≡ true
unfolding takes_over
drop-takes_over repository k j holds ne h =
    any-filter_by (is_hold repository j) (λ x. not (is_hold repository k x)) holds
      (λ x. hold_apart repository k j x ne) h

Found-drop :
    (taking : String → Bool) (repository k : String) (holds : List Hold) (seen : List String)
    (is : List ReservationIntent)
    → mem_text k seen ≡ true
    → Fresh seen is
    → Found taking holds repository is
    → Found taking (filter_by (λ h. not (is_hold repository k h)) holds) repository is
Found-drop taking repository k holds seen [] hk f w = tt
Found-drop taking repository k holds seen (i ∷ is) hk f w = (
  (λ t. drop-takes_over repository k i.key holds (apart k i.key seen hk f.0) (w.0 t)),
  Found-drop taking repository k holds (i.key ∷ seen) is (ground arith) f.1 w.1,
)

pub mem_text_head : (k : String) (seen : List String) → mem_text k (k ∷ seen) ≡ true
mem_text_head k seen = rw ((eq_iff k k).1 refl) refl

-- The keys that take over drop as many holds.
length-drop_holds :
    (taking : String → Bool) (repository : String) (seen : List String)
    (is : List ReservationIntent) (holds : List Hold)
    → Fresh seen is
    → Found taking holds repository is
    → length (drop_holds repository (superseded_keys taking is) holds)
        + length (superseded_keys taking is)
      ≤ length holds
unfolding drop_holds takes_over
length-drop_holds taking repository seen [] holds f w = omega arith
length-drop_holds taking repository seen (i ∷ is) holds f w = elim (Bool-cases (taking i.key)) [
  | inr ne ↦ rw ne (length-drop_holds taking repository (i.key ∷ seen) is holds f.1 w.1)
  | inl eq ↦ rw eq (
      omega (
        arith,
        length-drop_holds taking repository (i.key ∷ seen) is
            (filter_by (λ h. not (is_hold repository i.key h)) holds) f.1
            (Found-drop taking repository i.key holds (i.key ∷ seen) is (mem_text_head i.key seen)
              f.1 w.1),
        length-filter_by_hit (is_hold repository i.key) holds (w.0 eq),
      ))
]

-- If the first slots fit, so do all that are counted.
fitting_within :
    (taking : String → Bool) (cap used : ℕ) (is : List ReservationIntent)
    → used ≤ cap
    → used + fitting taking cap used is
      ≤ cap + length (superseded_keys taking (take_first (fitting taking cap used is) is))
unfolding fitting
fitting_within taking cap used [] h = omega arith
fitting_within taking cap used (i ∷ is) h =
    ground (arith, fitting_within taking cap (used + (if taking i.key then 0 else 1)) is)

Found-self :
    (repository : String) (holds : List Hold) (is : List ReservationIntent)
    → Found (takes_over holds repository) holds repository is
Found-self repository holds [] = tt
Found-self repository holds (i ∷ is) = ((λ t. t), Found-self repository holds is)

first_fits :
    (taking : String → Bool) (cap used : ℕ) (is : List ReservationIntent)
    → 0 < fitting taking cap used is
    → used ≤ cap
unfolding fitting
first_fits taking cap used [] h = omega (arith, h)
first_fits taking cap used (i ∷ is) h = ground arith

length_take_fitting :
    (taking : String → Bool) (cap used : ℕ) (is : List ReservationIntent)
    → length (take_first (fitting taking cap used is) is) ≡ fitting taking cap used is
unfolding fitting
length_take_fitting taking cap used [] = refl
length_take_fitting taking cap used (i ∷ is) =
    ground (arith, length_take_fitting taking cap (used + (if taking i.key then 0 else 1)) is)

-- What is granted takes the room that the cap leaves, and the room of the holds that it takes over.
pub granted_within :
    (repository : String) (holds : List Hold) (cap live offered : ℕ) (is : List ReservationIntent)
    → Fresh [] is
    → let taking = takes_over holds repository in
      let n = fitting taking cap (live + length holds + offered) is in
      let take = take_first n is in
      0 < n
      → live
          + length take
          + length (drop_holds repository (superseded_keys taking take) holds)
          + offered
        ≤ cap
granted_within repository holds cap live offered is f h =
    let taking = takes_over holds repository in
    let used = live + length holds + offered in
    let take = take_first (fitting taking cap used is) is in
    omega (
      arith,
      first_fits taking cap used is h,
      fitting_within taking cap used is (first_fits taking cap used is h),
      length_take_fitting taking cap used is,
      length-drop_holds taking repository [] take holds
          (take_first-Fresh (fitting taking cap used is) [] is f)
          (Found-self repository holds take),
    )

pub length-drop_holds-le :
    (repository : String) (ks : List String) (holds : List Hold)
    → length (drop_holds repository ks holds) ≤ length holds
unfolding drop_holds
length-drop_holds-le repository [] holds = omega arith
length-drop_holds-le repository (k ∷ ks) holds = omega (
  arith,
  length-drop_holds-le repository ks (filter_by (λ h. not (is_hold repository k h)) holds),
  length-filter_by (λ h. not (is_hold repository k h)) holds,
)

length-append {ℓ} : {A : Type ℓ} (xs ys : List A) → length (xs ++ ys) ≡ length xs + length ys
length-append [] ys = omega arith
length-append (x ∷ xs) ys = omega (arith, length-append xs ys)

length-new_slots :
    (label repository : String) (is : List ReservationIntent) (n : ℕ)
    → length (new_slots label repository is n) ≡ length is
unfolding new_slots
length-new_slots label repository [] n = refl
length-new_slots label repository (i ∷ is) n = ap suc (length-new_slots label repository is (suc n))

pub length_with_slots :
    (live : List Slot) (label repository : String) (is : List ReservationIntent) (n : ℕ)
    → length (live ++ new_slots label repository is n) ≡ length live + length is
length_with_slots live label repository is n = omega (
  arith,
  length-append live (new_slots label repository is n),
  length-new_slots label repository is n,
)

pub length_granted :
    (taking : String → Bool) (cap used : ℕ) (is : List ReservationIntent)
    → 0 < fitting taking cap used is
    → 0 < length (take_first (fitting taking cap used is) is)
length_granted taking cap used is h = omega (arith, length_take_fitting taking cap used is, h)
