-- ===== src/Orchestrator/Governor/Counting.antt =====
-- What `reserve` of packages/orchestrator/src/governor.ts counts: the intents, the holds that they take
-- over, and the slots offered to others.
use gateline.Prelude.{
  ℕ, suc, ◌+◌, ◌-◌, ℤ, pos, ◌+ℤ◌, String, Bool, false, not, ◌&&◌, Option, none, some, List, [], ◌∷◌,
  ltb, leb, or_else, text_eq, mem_text, if◌then◌else◌, filter_by, any, lookup_text, put_text,
  drop_text,
}
use gateline.Orchestrator.Governor.{dispatched, ReservationIntent, Hold, Offer, Slot}

-- The first key that is named twice.
abbrev pub repeated_key : List String → List ReservationIntent → Option String
repeated_key seen [] = none
repeated_key seen (i ∷ is) =
    let rest = repeated_key (i.key ∷ seen) is in if mem_text i.key seen then some i.key else rest

abbrev pub sum_intents : List ReservationIntent → ℤ
sum_intents [] = pos 0
sum_intents (i ∷ is) = i.estimate_usd +ℤ sum_intents is

unfoldable pub is_hold : String → String → Hold → Bool
is_hold repository key h = text_eq h.repository repository && text_eq h.key key

-- `takesOver(key)`.
unfoldable pub takes_over : List Hold → String → String → Bool
unfolding is_hold
takes_over holds repository key = any (is_hold repository key) holds

-- How many of the intents fit under the cap.
unfoldable pub fitting : (String → Bool) → ℕ → ℕ → List ReservationIntent → ℕ
fitting taking cap used [] = 0
fitting taking cap used (i ∷ is) =
    let next = used + (if taking i.key then 0 else 1) in
    let rest = fitting taking cap next is in if ltb cap next then 0 else suc rest

abbrev pub superseded_keys : (String → Bool) → List ReservationIntent → List String
superseded_keys taking [] = []
superseded_keys taking (i ∷ is) =
    let rest = superseded_keys taking is in if taking i.key then i.key ∷ rest else rest

-- Slots offered to other repositories, and the first of these.
unfoldable pub others_offered : String → List (String × Offer) → ℕ
others_offered repository [] = 0
others_offered repository ((name, o) ∷ m) =
    let rest = others_offered repository m in
    if text_eq name repository then rest else o.slots + rest

abbrev pub first_other : String → List (String × Offer) → Option String
first_other repository [] = none
first_other repository ((name, o) ∷ m) =
    let rest = first_other repository m in if text_eq name repository then rest else some name

unfoldable pub drop_holds : String → List String → List Hold → List Hold
unfolding is_hold
drop_holds repository [] holds = holds
drop_holds repository (k ∷ ks) holds =
    drop_holds repository ks (filter_by (λ h. not (is_hold repository k h)) holds)

abbrev pub slot_for : String → String → ReservationIntent → ℕ → Slot
slot_for label repository i serial = record {
  serial = serial;
  repository = label;
  repo_key = repository;
  key = i.key;
  estimate_usd = i.estimate_usd;
  kind = or_else i.kind dispatched;
  committed = false;
  ledger_at = none;
}

unfoldable pub new_slots : String → String → List ReservationIntent → ℕ → List Slot
new_slots label repository [] serial = []
new_slots label repository (i ∷ is) serial =
    slot_for label repository i serial ∷ new_slots label repository is (suc serial)

-- What is left of the repository's own offer.
abbrev pub use_offer : String → ℕ → List (String × Offer) → List (String × Offer)
use_offer repository n offers = elim (lookup_text repository offers) [
  | none ↦ offers
  | some o ↦
      if leb o.slots n
      then drop_text repository offers
      else put_text repository (record o { slots = o.slots - n }) offers
]
