-- ===== src/Orchestrator/Governor/Waking.antt =====
-- Who is woken when a slot comes free: `freed` of packages/orchestrator/src/governor.ts, with the ends of
-- the wakes that it sends and of the timers that it sets.
pub mod Quiet
pub mod Offers
use gateline.Prelude.{
  ℕ, zero, suc, ◌+◌, ◌-◌, String, Bool, true, false, not, ◌&&◌, Option, none, some, List, [], ◌∷◌,
  ◌++◌, ◌==◌, ltb, is_empty, or_else, text_eq, mem_text, if◌then◌else◌, filter_by, any, lookup_text,
  has_text, put_text, drop_text, keys_of, values_of, get_elem?, add_text, remove_text,
}
use gateline.Orchestrator.Governor.{
  GovernorLimit, concurrency, turn, spend, repository_spend, unregistered, Waiter, Offer, Wake,
  Governor, cap_of, occupied_slots, default_offer_ttl_ms, default_min_wake_interval_ms,
}
use gateline.Orchestrator.Governor.Spend.{at_own_ceiling}

abbrev pub drop_first {ℓ} : {A : Type ℓ} → ℕ → List A → List A
drop_first n [] = []
drop_first zero (x ∷ xs) = x ∷ xs
drop_first (suc n) (x ∷ xs) = drop_first n xs

abbrev pub take_first {ℓ} : {A : Type ℓ} → ℕ → List A → List A
take_first n [] = []
take_first zero (x ∷ xs) = []
take_first (suc n) (x ∷ xs) = x ∷ take_first n xs

-- `ring.indexOf(name) + 1`, which is 0 where it is missing.
abbrev pub after_index : String → List String → ℕ
after_index name [] = 0
after_index name (k ∷ ks) =
    let i = after_index name ks in if text_eq k name then 1 else if i == 0 then 0 else suc i

-- Where the turn begins.
abbrev pub start_after : Option String → List String → ℕ
start_after none ring = 0
start_after (some last) ring = after_index last ring

-- `fairOrder(waiting)`.
unfoldable pub fair_order : Governor → List String → List String
fair_order g waiting =
    let ring = keys_of g.repos in
    let start = start_after g.last_served ring in
    filter_by (λ name. mem_text name waiting) (drop_first start ring ++ take_first start ring)

abbrev pub sum_slots : List (String × Offer) → ℕ
sum_slots [] = 0
sum_slots ((k, o) ∷ m) = o.slots + sum_slots m

-- `offeredSlots()`.
unfoldable pub offered_slots : Governor → ℕ
offered_slots g = sum_slots g.offers

unfoldable pub keep_waiting : Governor → String → Waiter → Governor
keep_waiting g repository last = record g {
  waiters = if has_text repository g.waiters then g.waiters else put_text repository last g.waiters;
}

-- `wakeLater`; how long the timer runs is left to the call in which it ends.
unfoldable pub wake_later : Governor → String → Governor
wake_later g repository = if mem_text repository g.wake_timers then g else record g {
  outstanding = suc g.outstanding;
  wake_timers = add_text repository g.wake_timers;
}

unfoldable pub settle_idle : Governor → Governor
settle_idle g = record g { idle_waiters = if g.outstanding == 0 then 0 else g.idle_waiters }

abbrev pub wants_slot : GovernorLimit → Bool
wants_slot concurrency = true
wants_slot turn = true
wants_slot spend = false
wants_slot repository_spend = false
wants_slot unregistered = false

-- `none` is the infinity of an uncapped governor.
abbrev pub some_free : Option ℕ → Bool
some_free none = true
some_free (some n) = ltb 0 n

abbrev pub one_less : Option ℕ → Option ℕ
one_less none = none
one_less (some n) = some (n - 1)

unfoldable pub make_offer : Governor → ℕ → String → Governor
make_offer g now repository = record g {
  offers =
      put_text repository
        (record {
          serial = g.serials;
          slots = 1;
          expires_at = now + or_else g.cfg.offer_ttl_ms default_offer_ttl_ms;
        })
        g.offers;
  serials = suc g.serials;
}

unfoldable pub send_wake : Governor → String → Option ℕ → Governor
send_wake g repository offer = record g {
  outstanding = suc g.outstanding;
  sent = g.sent ++ record { repository = repository; offer = offer } ∷ [];
}

unfoldable pub too_soon : Governor → ℕ → String → Bool
too_soon g now repository =
    let interval = or_else g.cfg.min_wake_interval_ms default_min_wake_interval_ms in
    elim (lookup_text repository g.last_wake) [
      | none ↦ false
      | some woken ↦ ltb 0 interval && ltb (now - woken) interval
    ]

abbrev pub note_wake : Governor → ℕ → String → Governor
note_wake g now repository = record g { last_wake = put_text repository now g.last_wake }

-- The repository was refused a slot that it can use, and one is free.
unfoldable pub gets_offer : Governor → ℕ → Option ℕ → String → Waiter → Bool
gets_offer g now free repository last =
    wants_slot last.limit
    && ltb 0 (cap_of g)
    && some_free free
    && not (has_text repository g.offers)
    && not (at_own_ceiling g now repository last.requested_usd)

-- The wake itself.
unfoldable pub wake_now : Governor → ℕ → Option ℕ → String → Waiter → Governor × Option ℕ
unfolding gets_offer make_offer send_wake
wake_now g₀ now free repository last =
    let g = note_wake g₀ now repository in
    if gets_offer g now free repository last
    then (send_wake (make_offer g now repository) repository (some g.serials), one_less free)
    else (send_wake g repository none, free)

-- One turn of the loop.
unfoldable pub wake_one :
    Governor → ℕ → Option String → Option ℕ → String → Option Waiter → Governor × Option ℕ
unfolding keep_waiting wake_later wake_now too_soon
wake_one g now exclude free repository none = (g, free)
wake_one g now exclude free repository (some last) =
    if is_empty (or_else (lookup_text repository g.subscribers) [])
    then (g, free)
    else if elim exclude [ none ↦ false | some e ↦ text_eq repository e ]
    then (keep_waiting g repository last, free)
    else if too_soon g now repository
    then (wake_later (keep_waiting g repository last) repository, free)
    else wake_now g now free repository last

unfoldable pub wake_all :
    ℕ → Option String → List (String × Waiter) → List String → Governor → Option ℕ → Governor
unfolding wake_one
wake_all now exclude waiting [] g free = g
wake_all now exclude waiting (r ∷ rs) g free =
    let next = wake_one g now exclude free r (lookup_text r waiting) in
    wake_all now exclude waiting rs next.0 next.1

-- The slots that are neither occupied nor offered.
unfoldable pub free_slots : Governor → Option ℕ
unfolding offered_slots
free_slots g =
    let cap = cap_of g in if cap == 0 then none else some (cap - occupied_slots g - offered_slots g)

-- The wakes of all who wait.
unfoldable pub wake_waiters : Governor → ℕ → Option String → Governor
unfolding free_slots fair_order wake_all
wake_waiters g now exclude =
    wake_all now exclude g.waiters (fair_order g (keys_of g.waiters)) (record g { waiters = [] })
      (free_slots g)

abbrev pub seed_pending : Governor → Bool
seed_pending g = any (λ r. not r.seeded) (values_of g.repos)

-- `freed(exclude)`.
unfoldable pub freed : Governor → ℕ → Option String → Governor
unfolding wake_waiters
freed g now exclude =
    if is_empty g.waiters then g else if seed_pending g then g else wake_waiters g now exclude

abbrev pub remove_at {ℓ} : {A : Type ℓ} → ℕ → List A → List A
remove_at i [] = []
remove_at zero (x ∷ xs) = xs
remove_at (suc i) (x ∷ xs) = x ∷ remove_at i xs

-- The offer that a wake carried still stands.
abbrev pub still_offered : Governor → Wake → Bool
still_offered g w = elim w.offer [
  | none ↦ false
  | some serial ↦ elim (lookup_text w.repository g.offers) [
    | none ↦ false
    | some o ↦ o.serial == serial
  ]
]

abbrev pub drop_offer : Governor → String → Governor
drop_offer g repository = record g { offers = drop_text repository g.offers }

-- An offer that a finished wake left unused is given back.
unfoldable pub give_back : Governor → ℕ → Wake → Governor
unfolding freed
give_back g now w = if still_offered g w then freed (drop_offer g w.repository) now none else g

abbrev pub end_wake : Governor → ℕ → Governor
end_wake g i = record g { outstanding = g.outstanding - 1; sent = remove_at i g.sent }

-- A wake that was sent has finished.
unfoldable pub wake_finished : Governor → ℕ → ℕ → Governor
unfolding give_back settle_idle
wake_finished g now i = elim (get_elem? g.sent i) [
  | none ↦ g
  | some w ↦ settle_idle (give_back (end_wake g i) now w)
]

abbrev pub end_timer : Governor → String → Governor
end_timer g repository = record g {
  wake_timers = remove_text repository g.wake_timers;
  last_wake = drop_text repository g.last_wake;
  outstanding = g.outstanding - 1;
}

-- A timer of `wakeLater` has run out.
unfoldable pub timer_ended : Governor → ℕ → String → Governor
unfolding freed settle_idle
timer_ended g now repository =
    if not (mem_text repository g.wake_timers)
    then g
    else settle_idle (freed (end_timer g repository) now none)
