-- ===== src/Orchestrator/Governor/Reserving/Turns.antt =====
-- A slot that packages/orchestrator/src/governor.ts has offered is there for its repository.
use gateline.Prelude.{
  ℕ, zero, suc, ◌+◌, ◌≤◌, ◌<◌, ◌≡◌, refl, sym, ap, String, Bool, false, Option, none, some, List,
  [], ◌∷◌, ◌==◌, ℤ, length, lookup_text, text_eq, arith, if_intro, Bool-cases, inl, inr,
}
use gateline.Orchestrator.Governor.{
  Governor, GovernorRefusal, Offer, Slot, ReservationIntent, ReservationRequest, cap_of,
  occupied_slots, unseeded_repositories,
}
use gateline.Orchestrator.Governor.Waking.{sum_slots, offered_slots, wants_slot, take_first}
use gateline.Orchestrator.Governor.Reserving.{
  Reserved, granted_with, repeated, grantable, refuse, refuse_machine, refuse_ceiling, over_machine,
  over_ceiling, grant, reserve_funded, reserve_slots,
}
use gateline.Orchestrator.Governor.Counting.{
  others_offered, takes_over, fitting, sum_intents, superseded_keys, new_slots,
}

-- The answer grants something, or refuses for the spend.
abbrev pub NotForSlot : Reserved × Governor → Type 0
NotForSlot (granted_with [] none, h) = ⊥
NotForSlot (granted_with [] (some r), h) = wants_slot r.limit ≡ false
NotForSlot (granted_with (s ∷ ss) r, h) = Unit
NotForSlot (repeated k, h) = ⊥

record Heard (x : Reserved × Governor) : Type 0 where
  apply : NotForSlot x

some_path : (p o : Offer) → some p ≡ some o → p ≡ o
some_path p o e = ground (arith, e)

others_among :
    (repository : String) (m : List (String × Offer)) → others_offered repository m ≤ sum_slots m
unfolding others_offered
others_among repository [] = omega arith
others_among repository ((k, p) ∷ m) = ground (arith, others_among repository m)

own_offer_apart :
    (repository : String) (m : List (String × Offer)) (o : Offer)
    → lookup_text repository m ≡ some o
    → others_offered repository m + o.slots ≤ sum_slots m
unfolding others_offered
own_offer_apart repository [] o e = ground (arith, e)
own_offer_apart repository ((k, p) ∷ m) o e = elim (Bool-cases (text_eq k repository)) [
  | inl same ↦
      let here : p ≡ o = some_path p o (rw same at e) in
      rw (same, sym here) (omega (arith, others_among repository m))
  | inr other ↦ rw other (omega (arith, own_offer_apart repository m o (rw other at e)))
]

fits_some :
    (taking : String → Bool) (cap used : ℕ) (is : List ReservationIntent)
    → 0 < length is
    → used < cap
    → 0 < fitting taking cap used is
unfolding fitting
fits_some taking cap used [] p h = p
fits_some taking cap used (i ∷ is) p h = ground (arith, h)

grantable_offered :
    (g : Governor) (request : ReservationRequest) (repository : String) (o : Offer)
    → 0 < length request.intents
    → lookup_text repository g.offers ≡ some o
    → 0 < o.slots
    → 0 < cap_of g
    → occupied_slots g + offered_slots g ≤ cap_of g
    → 0 < grantable g request repository
unfolding grantable offered_slots
grantable_offered g request repository o asked e held capped h =
    rw (capped_test (cap_of g) capped) (
      fits_some (takes_over g.holds repository) (cap_of g)
        (occupied_slots g + others_offered repository g.offers) request.intents asked
        (omega (arith, h, held, own_offer_apart repository g.offers o e)))
  where
    capped_test : (n : ℕ) → 0 < n → (n == 0) ≡ false
    capped_test n p = ground arith

some_granted :
    (slots : List Slot) (r : Option GovernorRefusal) (h : Governor)
    → 0 < length slots
    → Heard (granted_with slots r, h)
some_granted [] none h p = record { apply = omega (arith, p) }
some_granted [] (some r) h p = record { apply = ground (arith, p) }
some_granted (s ∷ ss) r h p = record { apply = tt }

length-new_slots :
    (label repository : String) (is : List ReservationIntent) (n : ℕ)
    → length (new_slots label repository is n) ≡ length is
unfolding new_slots
length-new_slots label repository [] n = refl
length-new_slots label repository (i ∷ is) n = ap suc (length-new_slots label repository is (suc n))

grant-Heard :
    (g : Governor) (request : ReservationRequest) (repository : String) (n : ℕ)
    (take : List ReservationIntent) (ks : List String)
    → 0 < length take
    → Heard (grant g request repository n take ks)
unfolding grant
grant-Heard g request repository n take ks p =
    let some_slots : 0 < length (new_slots request.repository repository take g.serials) =
      rw (length-new_slots request.repository repository take g.serials) p in
    if_intro Heard (n == length request.intents)
      (some_granted (new_slots request.repository repository take g.serials) _ _ some_slots)
      (some_granted (new_slots request.repository repository take g.serials) _ _ some_slots)

refuse_machine-Heard :
    (g : Governor) (now : ℕ) (request : ReservationRequest) (repository : String) (ks : List String)
    (requested : ℤ)
    → Heard (refuse_machine g now request repository ks requested)
unfolding refuse_machine refuse
refuse_machine-Heard g now request repository ks requested = record { apply = refl }

refuse_ceiling-Heard :
    (g : Governor) (now : ℕ) (request : ReservationRequest) (repository : String) (ks : List String)
    (requested : ℤ)
    → Heard (refuse_ceiling g now request repository ks requested)
unfolding refuse_ceiling refuse
refuse_ceiling-Heard g now request repository ks requested = record { apply = refl }

reserve_funded-Heard :
    (g : Governor) (now : ℕ) (request : ReservationRequest) (repository : String) (n : ℕ)
    (take : List ReservationIntent) (ks : List String)
    → 0 < length take
    → Heard (reserve_funded g now request repository n take ks)
unfolding reserve_funded
reserve_funded-Heard g now request repository n take ks p =
    if_intro Heard (over_machine g now repository ks (sum_intents take))
      (refuse_machine-Heard g now request repository ks (sum_intents take))
      (if_intro Heard (over_ceiling g now repository ks (sum_intents take))
        (refuse_ceiling-Heard g now request repository ks (sum_intents take))
        (grant-Heard g request repository n take ks p))

length_take :
    (n : ℕ) (is : List ReservationIntent) → 0 < n → 0 < length is → 0 < length (take_first n is)
length_take n [] p q = q
length_take zero (i ∷ is) p q = p
length_take (suc n) (i ∷ is) p q = omega arith

-- A slot that was offered is honoured: where the slots occupied and offered fit under the cap and everyone
-- has seeded, a repository that holds an offer and asks for something is granted some of it, or refused for
-- the spend, and never for a slot or a turn.
pub offer_honoured :
    (g : Governor) (now : ℕ) (request : ReservationRequest) (repository : String) (o : Offer)
    → unseeded_repositories g ≡ []
    → 0 < length request.intents
    → lookup_text repository g.offers ≡ some o
    → 0 < o.slots
    → 0 < cap_of g
    → occupied_slots g + offered_slots g ≤ cap_of g
    → NotForSlot (reserve_slots g now request repository)
unfolding reserve_slots
offer_honoured g now request repository o seeded asked e held capped h =
    let some_fit = grantable_offered g request repository o asked e held capped h in
    let n = grantable g request repository in
    let take = take_first n request.intents in
    let heard : Heard (reserve_slots g now request repository) =
      rw (seeded, nonzero n some_fit)
        (reserve_funded-Heard g now request repository n take
          (superseded_keys (takes_over g.holds repository) take)
          (length_take n request.intents some_fit asked)) in
    heard.apply
  where
    nonzero : (n : ℕ) → 0 < n → (n == 0) ≡ false
    nonzero n p = ground arith
