-- ===== src/Orchestrator/Governor/Reserving/Estimates.antt =====
-- The open estimates of packages/orchestrator/src/governor.ts, counted before and after a grant.
use mathlib.Core.List.{append-nil}
use gateline.Prelude.{
  ℕ, suc, ◌≡◌, refl, ap, ◌∙◌, inl, inr, ℤ, String, Bool, true, false, not, ◌&&◌, ◌||◌, List, [],
  ◌∷◌, ◌++◌, filter_by, put_text, drop_text, mem_text, text_eq, if◌then◌else◌, arith, Bool-cases,
}
use gateline.Orchestrator.Governor.{Hold, OpenEntry, Slot, Settled, ReservationIntent}
use gateline.Orchestrator.Governor.Spend.{
  passed_over, count_open, count_holds, count_live, in_report,
}
use gateline.Orchestrator.Governor.Spend.Sums.{
  without_keys, text_self, put_agrees, drop_agrees, put_hidden, same_test,
}
use gateline.Orchestrator.Governor.Counting.{is_hold, drop_holds, new_slots, superseded_keys}

abbrev pub keys_asked : List ReservationIntent → List String
keys_asked [] = []
keys_asked (i ∷ is) = i.key ∷ keys_asked is

pub superseded_asked :
    (taking : String → Bool) (k : String) (is : List ReservationIntent)
    → mem_text k (superseded_keys taking is) ≡ true
    → mem_text k (keys_asked is) ≡ true
superseded_asked taking k [] h = h
superseded_asked taking k (i ∷ is) h = ground (arith, superseded_asked taking k is)

-- ---- Open entries: those that a request takes over differ only in keys that it asks for.

passed_apart :
    (since : ℕ) (settled : List Settled) (ks : List String) (e : OpenEntry)
    → mem_text e.key ks ≡ false
    → passed_over since settled [] e ≡ passed_over since settled ks e
unfolding passed_over
passed_apart since settled ks e h = rw h refl

passed_taken :
    (since : ℕ) (settled : List Settled) (ks : List String) (e : OpenEntry)
    → mem_text e.key ks ≡ true
    → passed_over since settled ks e ≡ true
unfolding passed_over
passed_taken since settled ks e h = ground (arith, h)

choice_agrees :
    (asked : List String) (b : Bool) (o : OpenEntry) (m n : List (String × ℤ))
    → without_keys asked m ≡ without_keys asked n
    → without_keys asked (if b then m else put_text o.key o.estimate_usd m)
      ≡ without_keys asked (if b then n else put_text o.key o.estimate_usd n)
choice_agrees asked true o m n e = e
choice_agrees asked false o m n e = put_agrees asked o.key o.estimate_usd m n e

choice_hidden :
    (asked : List String) (b : Bool) (o : OpenEntry) (m n : List (String × ℤ))
    → mem_text o.key asked ≡ true
    → without_keys asked m ≡ without_keys asked n
    → without_keys asked (if b then m else put_text o.key o.estimate_usd m) ≡ without_keys asked n
choice_hidden asked true o m n h e = e
choice_hidden asked false o m n h e = put_hidden asked o.key o.estimate_usd m n h e

pub count_open_agrees :
    (since : ℕ) (settled : List Settled) (ks asked : List String) (es : List OpenEntry)
    (m n : List (String × ℤ))
    → ((k : String) → mem_text k ks ≡ true → mem_text k asked ≡ true)
    → without_keys asked m ≡ without_keys asked n
    → without_keys asked (count_open (passed_over since settled []) es m)
      ≡ without_keys asked (count_open (passed_over since settled ks) es n)
unfolding count_open
count_open_agrees since settled ks asked [] m n sub e = e
count_open_agrees since settled ks asked (o ∷ os) m n sub e =
    count_open_agrees since settled ks asked os _ _ sub step
  where
    step :
        without_keys asked
          (if passed_over since settled [] o then m else put_text o.key o.estimate_usd m)
        ≡ without_keys asked
            (if passed_over since settled ks o then n else put_text o.key o.estimate_usd n)
    step = elim (Bool-cases (mem_text o.key ks)) [
      | inr h ↦
          rw (passed_apart since settled ks o h)
            (choice_agrees asked (passed_over since settled ks o) o m n e)
      | inl h ↦
          rw (passed_taken since settled ks o h)
            (choice_hidden asked (passed_over since settled [] o) o m n (sub o.key h) e)
    ]

-- ---- Holds: those that are dropped are those that are passed over.

mem_append :
    (k : String) (js ks : List String) → mem_text k (js ++ ks) ≡ (mem_text k js || mem_text k ks)
mem_append k [] ks = refl
mem_append k (j ∷ js) ks = ground (arith, mem_append k js ks)

count_holds_dropped_one :
    (repository k : String) (ks : List String) (hs : List Hold) (m : List (String × ℤ))
    → count_holds repository ks (filter_by (λ h. not (is_hold repository k h)) hs) m
      ≡ count_holds repository (k ∷ ks) hs m
unfolding count_holds is_hold
count_holds_dropped_one repository k ks [] m = refl
count_holds_dropped_one repository k ks (h ∷ hs) m = ground (
  arith,
  count_holds_dropped_one repository k ks hs m,
  count_holds_dropped_one repository k ks hs (put_text h.key h.estimate_usd m),
)

count_holds_dropped :
    (repository : String) (js ks : List String) (hs : List Hold) (m : List (String × ℤ))
    → count_holds repository ks (drop_holds repository js hs) m
      ≡ count_holds repository (js ++ ks) hs m
unfolding drop_holds
count_holds_dropped repository [] ks hs m = refl
count_holds_dropped repository (j ∷ js) ks hs m =
    count_holds_dropped repository js ks (filter_by (λ h. not (is_hold repository j h)) hs) m
    ∙ count_holds_dropped_one repository j (js ++ ks) hs m

pub count_holds_taken :
    (repository : String) (ks : List String) (hs : List Hold) (m : List (String × ℤ))
    → count_holds repository [] (drop_holds repository ks hs) m ≡ count_holds repository ks hs m
count_holds_taken repository ks hs m =
    count_holds_dropped repository ks [] hs m
    ∙ ap (λ js. count_holds repository js hs m) (append-nil ks)

pub count_holds_agrees :
    (repository : String) (ks asked : List String) (hs : List Hold) (m n : List (String × ℤ))
    → without_keys asked m ≡ without_keys asked n
    → without_keys asked (count_holds repository ks hs m)
      ≡ without_keys asked (count_holds repository ks hs n)
unfolding count_holds
count_holds_agrees repository ks asked [] m n e = e
count_holds_agrees repository ks asked (h ∷ hs) m n e =
    count_holds_agrees repository ks asked hs _ _
      (put_choice (text_eq h.repository repository && not (mem_text h.key ks)))
  where
    put_choice :
        (b : Bool)
        → without_keys asked (if b then put_text h.key h.estimate_usd m else m)
          ≡ without_keys asked (if b then put_text h.key h.estimate_usd n else n)
    put_choice true = put_agrees asked h.key h.estimate_usd m n e
    put_choice false = e

count_holds_other_one :
    (name repository k : String) (hs : List Hold) (m : List (String × ℤ))
    → text_eq repository name ≡ false
    → count_holds name [] (filter_by (λ h. not (is_hold repository k h)) hs) m
      ≡ count_holds name [] hs m
unfolding count_holds is_hold
count_holds_other_one name repository k [] m ne = refl
count_holds_other_one name repository k (h ∷ hs) m ne = ground (
  arith,
  same_test h.repository repository name,
  count_holds_other_one name repository k hs m ne,
  count_holds_other_one name repository k hs (put_text h.key h.estimate_usd m) ne,
)

-- Another repository does not see the holds that are dropped.
pub count_holds_other :
    (name repository : String) (ks : List String) (hs : List Hold) (m : List (String × ℤ))
    → text_eq repository name ≡ false
    → count_holds name [] (drop_holds repository ks hs) m ≡ count_holds name [] hs m
unfolding drop_holds
count_holds_other name repository [] hs m ne = refl
count_holds_other name repository (k ∷ ks) hs m ne =
    count_holds_other name repository ks (filter_by (λ h. not (is_hold repository k h)) hs) m ne
    ∙ one_dropped hs m
  where
    one_dropped :
        (hs : List Hold) (m : List (String × ℤ))
        → count_holds name [] (filter_by (λ h. not (is_hold repository k h)) hs) m
          ≡ count_holds name [] hs m
    one_dropped hs m = count_holds_other_one name repository k hs m ne

-- ---- Live slots: the new ones come last, under the keys that were asked for.

pub count_live-append :
    (repository : String) (ids : List (String × String)) (xs ys : List Slot) (m : List (String × ℤ))
    → count_live repository ids (xs ++ ys) m
      ≡ count_live repository ids ys (count_live repository ids xs m)
unfolding count_live
count_live-append repository ids [] ys m = refl
count_live-append repository ids (x ∷ xs) ys m = count_live-append repository ids xs ys _

pub count_live_agrees :
    (repository : String) (ids : List (String × String)) (asked : List String) (ss : List Slot)
    (m n : List (String × ℤ))
    → without_keys asked m ≡ without_keys asked n
    → without_keys asked (count_live repository ids ss m)
      ≡ without_keys asked (count_live repository ids ss n)
unfolding count_live
count_live_agrees repository ids asked [] m n e = e
count_live_agrees repository ids asked (s ∷ ss) m n e =
    count_live_agrees repository ids asked ss _ _ (
      live_choice (not (text_eq s.repo_key repository))
        (s.committed && in_report ids s.key s.ledger_at))
  where
    live_choice :
        (b c : Bool)
        → without_keys asked
            (if b then m else if c then drop_text s.key m else put_text s.key s.estimate_usd m)
          ≡ without_keys asked
              (if b then n else if c then drop_text s.key n else put_text s.key s.estimate_usd n)
    live_choice true c = e
    live_choice false true = drop_agrees asked s.key m n e
    live_choice false false = put_agrees asked s.key s.estimate_usd m n e

unfoldable pub put_asked : List ReservationIntent → List (String × ℤ) → List (String × ℤ)
put_asked [] m = m
put_asked (i ∷ is) m = put_asked is (put_text i.key i.estimate_usd m)

pub count_new_slots :
    (label repository : String) (ids : List (String × String)) (is : List ReservationIntent) (n : ℕ)
    (m : List (String × ℤ))
    → count_live repository ids (new_slots label repository is n) m ≡ put_asked is m
unfolding count_live new_slots put_asked
count_new_slots label repository ids [] n m = refl
count_new_slots label repository ids (i ∷ is) n m =
    rw (text_self repository, count_live) (count_new_slots label repository ids is (suc n) _)

count_new_other :
    (name label repository : String) (ids : List (String × String)) (is : List ReservationIntent)
    (n : ℕ) (m : List (String × ℤ))
    → text_eq repository name ≡ false
    → count_live name ids (new_slots label repository is n) m ≡ m
unfolding count_live new_slots
count_new_other name label repository ids [] n m ne = refl
count_new_other name label repository ids (i ∷ is) n m ne =
    rw (ne, count_live) (count_new_other name label repository ids is (suc n) m ne)

pub count_live_other :
    (name label repository : String) (ids : List (String × String)) (live : List Slot)
    (is : List ReservationIntent) (n : ℕ) (m : List (String × ℤ))
    → text_eq repository name ≡ false
    → count_live name ids (live ++ new_slots label repository is n) m ≡ count_live name ids live m
count_live_other name label repository ids live is n m ne =
    count_live-append name ids live (new_slots label repository is n) m
    ∙ new_slots_other is n (count_live name ids live m)
  where
    new_slots_other :
        (is : List ReservationIntent) (n : ℕ) (m : List (String × ℤ))
        → count_live name ids (new_slots label repository is n) m ≡ m
    new_slots_other is n m = count_new_other name label repository ids is n m ne
