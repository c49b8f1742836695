-- ===== src/Orchestrator/Governor/Waking/Offers.antt =====
-- The offers of packages/orchestrator/src/governor.ts: how many slots a wake promises.
use gateline.Prelude.{
  ℕ, ◌+◌, ◌-◌, ◌≤◌, ◌<◌, ◌≡◌, refl, String, true, false, Option, none, some, List, [], ◌∷◌,
  has_text, put_text, lookup_text, keys_of, mem_text, text_eq, is_empty, or_else, arith, if_intro,
  if_split,
}
use gateline.Orchestrator.Governor.{
  Governor, Offer, Waiter, cap_of, occupied_slots, default_offer_ttl_ms,
}
use gateline.Orchestrator.Governor.Waking.{
  sum_slots, offered_slots, keep_waiting, wake_later, make_offer, send_wake, too_soon, gets_offer,
  note_wake, wake_now, wake_one, wake_all, free_slots, wake_waiters, seed_pending, fair_order,
  freed,
}
use gateline.Orchestrator.Governor.Waking.Quiet.{freed-Quiet}

sum_slots-put :
    (k : String) (o : Offer) (m : List (String × Offer))
    → has_text k m ≡ false
    → sum_slots (put_text k o m) ≡ sum_slots m + o.slots
sum_slots-put k o [] h = omega arith
sum_slots-put k o ((j, q) ∷ m) h = ground (arith, sum_slots-put k o m)

-- What is promised and what is still free come to no more than the total.
record Promises (total : ℕ) (x : Governor × Option ℕ) : Type 0 where
  free : ℕ
  left : x.1 ≡ some free
  apply : sum_slots x.0.offers + free ≤ total

gets_offer_free :
    (g : Governor) (now n : ℕ) (r : String) (w : Waiter)
    → gets_offer g now (some n) r w ≡ true
    → (has_text r g.offers ≡ false) × (0 < n)
unfolding gets_offer
gets_offer_free g now n r w h = (ground (arith, h), ground (arith, h))

wake_now-Promises :
    (total : ℕ) (g : Governor) (now n : ℕ) (r : String) (w : Waiter)
    → sum_slots g.offers + n ≤ total
    → Promises total (wake_now g now (some n) r w)
unfolding wake_now make_offer send_wake
wake_now-Promises total g now n r w h =
    if_split (Promises total) (gets_offer (note_wake g now r) now (some n) r w)
      (λ e.
        let f = gets_offer_free (note_wake g now r) now n r w e in
        record {
          free = n - 1;
          left = refl;
          apply = omega (arith, h, f.1, sum_slots-put r (offer_of g now) g.offers f.0);
        })
      (λ e. record { free = n; left = refl; apply = h })
  where
    offer_of : Governor → ℕ → Offer
    offer_of g now = record {
      serial = g.serials;
      slots = 1;
      expires_at = now + or_else g.cfg.offer_ttl_ms default_offer_ttl_ms;
    }

keep_waiting_offers :
    (g : Governor) (r : String) (w : Waiter) → (keep_waiting g r w).offers ≡ g.offers
unfolding keep_waiting
keep_waiting_offers g r w = refl

record SameOffers (g h : Governor) : Type 0 where
  apply : h.offers ≡ g.offers

wake_later_offers : (g : Governor) (r : String) → SameOffers g (wake_later g r)
unfolding wake_later
wake_later_offers g r =
    if_intro (SameOffers g) (mem_text r g.wake_timers) (record { apply = refl })
      (record { apply = refl })

wake_one-Promises :
    (total : ℕ) (g : Governor) (now : ℕ) (exclude : Option String) (n : ℕ) (r : String)
    (o : Option Waiter)
    → sum_slots g.offers + n ≤ total
    → Promises total (wake_one g now exclude (some n) r o)
unfolding wake_one
wake_one-Promises total g now exclude n r none h = record { free = n; left = refl; apply = h }
wake_one-Promises total g now exclude n r (some w) h =
    let kept : sum_slots (keep_waiting g r w).offers + n ≤ total =
      rw (keep_waiting_offers g r w) h in
    if_intro (Promises total) (is_empty (or_else (lookup_text r g.subscribers) []))
      (record { free = n; left = refl; apply = h })
      (if_intro (Promises total) (elim exclude [ none ↦ false | some e ↦ text_eq r e ])
        (record { free = n; left = refl; apply = kept })
        (if_intro (Promises total) (too_soon g now r)
          (record {
            free = n;
            left = refl;
            apply = rw ((wake_later_offers (keep_waiting g r w) r).apply) kept;
          })
          (wake_now-Promises total g now n r w h)))

wake_all-Promises :
    (total : ℕ) (now : ℕ) (exclude : Option String) (waiting : List (String × Waiter))
    (rs : List String) (g : Governor) (free : Option ℕ)
    → Promises total (g, free)
    → sum_slots (wake_all now exclude waiting rs g free).offers ≤ total
unfolding wake_all
wake_all-Promises total now exclude waiting [] g free p = omega (arith, p.apply)
wake_all-Promises total now exclude waiting (r ∷ rs) g free p =
    let o = lookup_text r waiting in
    rw p.left (
      wake_all-Promises total now exclude waiting rs _ _
        (wake_one-Promises total g now exclude p.free r o p.apply))

free_slots_left :
    (g : Governor)
    → 0 < cap_of g
    → free_slots g ≡ some (cap_of g - occupied_slots g - offered_slots g)
unfolding free_slots
free_slots_left g capped = ground (arith, capped)

wake_waiters_within :
    (g : Governor) (now : ℕ) (exclude : Option String)
    → 0 < cap_of g
    → occupied_slots g + offered_slots g ≤ cap_of g
    → occupied_slots g + sum_slots (wake_waiters g now exclude).offers ≤ cap_of g
unfolding wake_waiters offered_slots
wake_waiters_within g now exclude capped h =
    let n = cap_of g - occupied_slots g - offered_slots g in
    omega (
      arith,
      h,
      wake_all-Promises (sum_slots g.offers + n) now exclude g.waiters
          (fair_order g (keys_of g.waiters)) (record g { waiters = [] }) (free_slots g)
          (record { free = n; left = free_slots_left g capped; apply = omega arith }),
    )

record Within (cap occupied : ℕ) (g : Governor) : Type 0 where
  apply : occupied + sum_slots g.offers ≤ cap

occupied_slots-freed :
    (g : Governor) (now : ℕ) (exclude : Option String)
    → occupied_slots (freed g now exclude) ≡ occupied_slots g
unfolding occupied_slots
occupied_slots-freed g now exclude = let q = freed-Quiet g now exclude in rw (q.live, q.holds) refl

-- Waking never promises a slot that is not there: where the slots occupied and those offered fit under the
-- cap, they still do once everyone who waits has been woken.
pub freed_promises_within :
    (g : Governor) (now : ℕ) (exclude : Option String)
    → 0 < cap_of g
    → occupied_slots g + offered_slots g ≤ cap_of g
    → occupied_slots (freed g now exclude) + offered_slots (freed g now exclude) ≤ cap_of g
unfolding freed offered_slots
freed_promises_within g now exclude capped h =
    rw (occupied_slots-freed g now exclude)
      (if_intro (Within (cap_of g) (occupied_slots g)) (is_empty g.waiters) (record { apply = h })
        (if_intro (Within (cap_of g) (occupied_slots g)) (seed_pending g) (record { apply = h })
          (record { apply = wake_waiters_within g now exclude capped h }))).apply
