-- ===== src/Orchestrator/Governor/Reserving/Costs.antt =====
-- What a grant of packages/orchestrator/src/governor.ts does to the open estimates of each repository.

use gateline.Prelude.{
  ℕ, ◌≡◌, refl, sym, ap, ℤ, pos, ◌+ℤ◌, ◌≤ℤ◌, String, Bool, true, false, not, ◌&&◌, List, [], ◌∷◌,
  ◌++◌, put_text, drop_text, mem_text, text_eq, if◌then◌else◌, arith, All,
}
use gateline.Orchestrator.Governor.{Hold, OpenEntry, Slot, Settled, ReservationIntent}
use gateline.Orchestrator.Governor.Spend.{
  passed_over, count_open, count_holds, count_live, in_report, sum_values,
}
use gateline.Orchestrator.Governor.Spend.Sums.{
  NonNegative, Unique, without_keys, without-put_out, without-cons, filter-Unique, put-Unique,
  All-put, All-filter, sum-put, sum-filter, parts_add, le_trans, add_mono,
}
use gateline.Orchestrator.Governor.Counting.{drop_holds, new_slots, sum_intents, superseded_keys}
use gateline.Orchestrator.Governor.Reserving.Holds.{Fresh, apart, mem_text_head}
use gateline.Orchestrator.Governor.Reserving.Estimates.{
  keys_asked, superseded_asked, count_open_agrees, count_holds_taken, count_holds_agrees,
  count_live-append, count_live_agrees, put_asked, count_new_slots,
}

asked_once :
    (k : String) (seen : List String) (is : List ReservationIntent)
    → mem_text k seen ≡ true
    → Fresh seen is
    → mem_text k (keys_asked is) ≡ false
asked_once k seen [] h f = refl
asked_once k seen (i ∷ is) h f =
    rw (apart k i.key seen h f.0)
      (asked_once k (i.key ∷ seen) is (rw (apart k i.key seen h f.0) h) f.1)

without_none : (m : List (String × ℤ)) → without_keys [] m ≡ m
without_none [] = refl
without_none (e ∷ m) = ap (λ n. e ∷ n) (without_none m)

add_last : (a b c d v : ℤ) → a ≤ℤ b +ℤ c → b ≤ℤ d +ℤ v → a ≤ℤ d +ℤ (v +ℤ c)
add_last a b c d v h k =
    omega (arith, parts_add b c, parts_add d v, parts_add v c, parts_add d (v +ℤ c), h, k)

add_zero : (a : ℤ) → a ≤ℤ a +ℤ pos 0
add_zero a = omega (arith, parts_add a (pos 0))

-- What is asked for adds at most its sum to what stands under other keys.
sum-put_asked :
    (seen : List String) (is : List ReservationIntent) (m : List (String × ℤ))
    → Fresh seen is
    → Unique m
    → sum_values (put_asked is m) ≤ℤ sum_values (without_keys (keys_asked is) m) +ℤ sum_intents is
unfolding put_asked
sum-put_asked seen [] m f u = rw (without_none m) (add_zero (sum_values m))
sum-put_asked seen (i ∷ is) m f u =
    add_last _ _ (sum_intents is) _ i.estimate_usd
      (sum-put_asked (i.key ∷ seen) is (put_text i.key i.estimate_usd m) f.1
        (put-Unique i.key i.estimate_usd m u))
      one_put
  where
    unasked : mem_text i.key (keys_asked is) ≡ false
    unasked = asked_once i.key (i.key ∷ seen) is (mem_text_head i.key seen) f.1

    one_put :
        sum_values (without_keys (keys_asked is) (put_text i.key i.estimate_usd m))
        ≤ℤ sum_values (without_keys (i.key ∷ keys_asked is) m) +ℤ i.estimate_usd
    one_put =
        rw
          (
            without-put_out (keys_asked is) i.key i.estimate_usd m unasked,
            sym (without-cons i.key (keys_asked is) m),
          )
          (sum-put i.key i.estimate_usd (without_keys (keys_asked is) m) (filter-Unique _ m u))

count_live-Unique :
    (repository : String) (ids : List (String × String)) (ss : List Slot) (m : List (String × ℤ))
    → Unique m
    → Unique (count_live repository ids ss m)
unfolding count_live
count_live-Unique repository ids [] m u = u
count_live-Unique repository ids (s ∷ ss) m u = count_live-Unique repository ids ss _ (
    live_choice (not (text_eq s.repo_key repository))
      (s.committed && in_report ids s.key s.ledger_at))
  where
    live_choice :
        (b c : Bool)
        → Unique (if b then m else if c then drop_text s.key m else put_text s.key s.estimate_usd m)
    live_choice true c = u
    live_choice false true = filter-Unique _ m u
    live_choice false false = put-Unique s.key s.estimate_usd m u

count_holds-Unique :
    (repository : String) (ks : List String) (hs : List Hold) (m : List (String × ℤ))
    → Unique m
    → Unique (count_holds repository ks hs m)
unfolding count_holds
count_holds-Unique repository ks [] m u = u
count_holds-Unique repository ks (h ∷ hs) m u =
    count_holds-Unique repository ks hs _
      (hold_choice (text_eq h.repository repository && not (mem_text h.key ks)))
  where
    hold_choice : (b : Bool) → Unique (if b then put_text h.key h.estimate_usd m else m)
    hold_choice true = put-Unique h.key h.estimate_usd m u
    hold_choice false = u

count_open-Unique :
    (passed : OpenEntry → Bool) (es : List OpenEntry) (m : List (String × ℤ))
    → Unique m
    → Unique (count_open passed es m)
unfolding count_open
count_open-Unique passed [] m u = u
count_open-Unique passed (e ∷ es) m u = count_open-Unique passed es _ (open_choice (passed e))
  where
    open_choice : (b : Bool) → Unique (if b then m else put_text e.key e.estimate_usd m)
    open_choice true = u
    open_choice false = put-Unique e.key e.estimate_usd m u

-- Estimates that are not negative stay so.
count_live-Costly :
    (repository : String) (ids : List (String × String)) (ss : List Slot) (m : List (String × ℤ))
    → All (λ s. NonNegative s.estimate_usd) ss
    → All (λ e. NonNegative e.1) m
    → All (λ e. NonNegative e.1) (count_live repository ids ss m)
unfolding count_live
count_live-Costly repository ids [] m a u = u
count_live-Costly repository ids (s ∷ ss) m a u = count_live-Costly repository ids ss _ a.1 (
    live_choice (not (text_eq s.repo_key repository))
      (s.committed && in_report ids s.key s.ledger_at))
  where
    live_choice :
        (b c : Bool)
        → All
            (λ e. NonNegative e.1)
            (if b then m else if c then drop_text s.key m else put_text s.key s.estimate_usd m)
    live_choice true c = u
    live_choice false true = All-filter _ _ m u
    live_choice false false = All-put NonNegative s.key s.estimate_usd m a.0 u

count_holds-Costly :
    (repository : String) (ks : List String) (hs : List Hold) (m : List (String × ℤ))
    → All (λ h. NonNegative h.estimate_usd) hs
    → All (λ e. NonNegative e.1) m
    → All (λ e. NonNegative e.1) (count_holds repository ks hs m)
unfolding count_holds
count_holds-Costly repository ks [] m a u = u
count_holds-Costly repository ks (h ∷ hs) m a u =
    count_holds-Costly repository ks hs _ a.1
      (hold_choice (text_eq h.repository repository && not (mem_text h.key ks)))
  where
    hold_choice :
        (b : Bool) → All (λ e. NonNegative e.1) (if b then put_text h.key h.estimate_usd m else m)
    hold_choice true = All-put NonNegative h.key h.estimate_usd m a.0 u
    hold_choice false = u

count_open-Costly :
    (passed : OpenEntry → Bool) (es : List OpenEntry) (m : List (String × ℤ))
    → All (λ e. NonNegative e.estimate_usd) es
    → All (λ e. NonNegative e.1) m
    → All (λ e. NonNegative e.1) (count_open passed es m)
unfolding count_open
count_open-Costly passed [] m a u = u
count_open-Costly passed (e ∷ es) m a u = count_open-Costly passed es _ a.1 (open_choice (passed e))
  where
    open_choice :
        (b : Bool) → All (λ e. NonNegative e.1) (if b then m else put_text e.key e.estimate_usd m)
    open_choice true = u
    open_choice false = All-put NonNegative e.key e.estimate_usd m a.0 u

-- The open estimates of the repository that is granted a request, after the grant and as it was judged.
pub own_estimates :
    (since n : ℕ) (settled : List Settled) (label repository : String)
    (ids : List (String × String)) (es : List OpenEntry) (hs : List Hold) (live : List Slot)
    (taking : String → Bool) (take : List ReservationIntent)
    → Fresh [] take
    → All (λ e. NonNegative e.estimate_usd) es
    → All (λ h. NonNegative h.estimate_usd) hs
    → All (λ s. NonNegative s.estimate_usd) live
    → let ks = superseded_keys taking take in
      sum_values (
        count_live repository ids (live ++ new_slots label repository take n) (
          count_holds repository []
            (drop_holds repository ks hs)
            (count_open (passed_over since settled []) es [])))
      ≤ℤ sum_values (
          count_live repository ids live
            (count_holds repository ks hs (count_open (passed_over since settled ks) es [])))
        +ℤ sum_intents take
own_estimates since n settled label repository ids es hs live taking take f ce ch cl =
    let run_on = count_live repository ids live after in
    rw
      (
        count_holds_taken repository ks hs (count_open (passed_over since settled []) es []),
        count_live-append repository ids live (new_slots label repository take n) after,
        count_new_slots label repository ids take n (count_live repository ids live after),
      )
      (le_trans (sum_values (put_asked take run_on))
        (sum_values (without_keys (keys_asked take) run_on) +ℤ sum_intents take)
        (sum_values judged +ℤ sum_intents take) (sum-put_asked [] take run_on f after_unique)
        (add_mono (sum_values (without_keys (keys_asked take) run_on)) (sum_values judged)
          (sum_intents take) (sum_intents take) lower (omega arith)))
  where
    ks : List String
    ks = superseded_keys taking take

    after : List (String × ℤ)
    after = count_holds repository ks hs (count_open (passed_over since settled []) es [])

    judged : List (String × ℤ)
    judged =
        count_live repository ids live
          (count_holds repository ks hs (count_open (passed_over since settled ks) es []))

    after_unique : Unique (count_live repository ids live after)
    after_unique =
        count_live-Unique repository ids live after
          (count_holds-Unique repository ks hs _ (count_open-Unique _ es [] tt))

    judged_costly : All (λ e. NonNegative e.1) judged
    judged_costly =
        count_live-Costly repository ids live _ cl
          (count_holds-Costly repository ks hs _ ch (count_open-Costly _ es [] ce tt))

    agree :
        without_keys (keys_asked take) (count_live repository ids live after)
        ≡ without_keys (keys_asked take) judged
    agree = count_live_agrees repository ids (keys_asked take) live _ _ (
        count_holds_agrees repository ks (keys_asked take) hs _ _ (
          count_open_agrees since settled ks (keys_asked take) es [] []
            (λ k. superseded_asked taking k take) refl))

    lower :
        sum_values (without_keys (keys_asked take) (count_live repository ids live after))
        ≤ℤ sum_values judged
    lower = rw agree (sum-filter _ judged judged_costly)
