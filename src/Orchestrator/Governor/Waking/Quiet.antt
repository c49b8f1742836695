-- ===== src/Orchestrator/Governor/Waking/Quiet.antt =====
-- What the waking in packages/orchestrator/src/governor.ts leaves alone.
use gateline.Prelude.{
  ℕ, ◌≡◌, refl, ◌∙◌, String, Option, none, some, List, [], ◌∷◌, lookup_text, mem_text, is_empty,
  keys_of, if_intro,
}
use gateline.Orchestrator.Governor.{Waiter, Governor}
use gateline.Orchestrator.Governor.Waking.{
  keep_waiting, wake_later, settle_idle, make_offer, send_wake, wake_now, wake_one, wake_all, freed,
  free_slots, fair_order, wake_waiters, seed_pending,
}

-- Slots, holds, reports, settlements and tombstones are the same; only who waits and who is woken differs.
pub record Quiet (g h : Governor) : Type 0 where
  pub cfg : h.cfg ≡ g.cfg
  pub live : h.live ≡ g.live
  pub holds : h.holds ≡ g.holds
  pub repos : h.repos ≡ g.repos
  pub retired : h.retired ≡ g.retired
  pub tombstones : h.tombstones ≡ g.tombstones

abbrev pub quiet : {g : Governor} → Quiet g g
quiet = record {
  cfg = refl;
  live = refl;
  holds = refl;
  repos = refl;
  retired = refl;
  tombstones = refl;
}

pub Quiet-trans : {g h k : Governor} → Quiet g h → Quiet h k → Quiet g k
Quiet-trans p q = record {
  cfg = q.cfg ∙ p.cfg;
  live = q.live ∙ p.live;
  holds = q.holds ∙ p.holds;
  repos = q.repos ∙ p.repos;
  retired = q.retired ∙ p.retired;
  tombstones = q.tombstones ∙ p.tombstones;
}

pub keep_waiting-Quiet : (g : Governor) (r : String) (w : Waiter) → Quiet g (keep_waiting g r w)
unfolding keep_waiting
keep_waiting-Quiet g r w = record {
  cfg = refl;
  live = refl;
  holds = refl;
  repos = refl;
  retired = refl;
  tombstones = refl;
}

wake_later-Quiet : (g : Governor) (r : String) → Quiet g (wake_later g r)
unfolding wake_later
wake_later-Quiet g r = if_intro (Quiet g) (mem_text r g.wake_timers) quiet (record {
  cfg = refl;
  live = refl;
  holds = refl;
  repos = refl;
  retired = refl;
  tombstones = refl;
})

pub settle_idle-Quiet : (g : Governor) → Quiet g (settle_idle g)
unfolding settle_idle
settle_idle-Quiet g = record {
  cfg = refl;
  live = refl;
  holds = refl;
  repos = refl;
  retired = refl;
  tombstones = refl;
}

wake_now-Quiet :
    (g : Governor) (now : ℕ) (free : Option ℕ) (r : String) (w : Waiter)
    → Quiet g (wake_now g now free r w).0
unfolding wake_now make_offer send_wake
wake_now-Quiet g now free r w =
    if_intro (λ (x : Governor × Option ℕ). Quiet g x.0) _
      (record {
        cfg = refl;
        live = refl;
        holds = refl;
        repos = refl;
        retired = refl;
        tombstones = refl;
      })
      (record {
        cfg = refl;
        live = refl;
        holds = refl;
        repos = refl;
        retired = refl;
        tombstones = refl;
      })

wake_one-Quiet :
    (g : Governor) (now : ℕ) (exclude : Option String) (free : Option ℕ) (r : String)
    (o : Option Waiter)
    → Quiet g (wake_one g now exclude free r o).0
unfolding wake_one
wake_one-Quiet g now exclude free r none = quiet
wake_one-Quiet g now exclude free r (some w) =
    if_intro (λ (x : Governor × Option ℕ). Quiet g x.0) _ quiet
      (if_intro (λ (x : Governor × Option ℕ). Quiet g x.0) _ (keep_waiting-Quiet g r w)
        (if_intro (λ (x : Governor × Option ℕ). Quiet g x.0) _
          (Quiet-trans (keep_waiting-Quiet g r w) (wake_later-Quiet (keep_waiting g r w) r))
          (wake_now-Quiet g now free r w)))

wake_all-Quiet :
    (now : ℕ) (exclude : Option String) (waiting : List (String × Waiter)) (rs : List String)
    (g : Governor) (free : Option ℕ)
    → Quiet g (wake_all now exclude waiting rs g free)
unfolding wake_all
wake_all-Quiet now exclude waiting [] g free = quiet
wake_all-Quiet now exclude waiting (r ∷ rs) g free =
    Quiet-trans (wake_one-Quiet g now exclude free r (lookup_text r waiting))
      (wake_all-Quiet now exclude waiting rs _ _)

wake_waiters-Quiet :
    (g : Governor) (now : ℕ) (exclude : Option String) → Quiet g (wake_waiters g now exclude)
unfolding wake_waiters
wake_waiters-Quiet g now exclude = Quiet-trans (waiters-Quiet g) (
    wake_all-Quiet now exclude g.waiters (fair_order g (keys_of g.waiters))
      (record g { waiters = [] }) (free_slots g))
  where
    waiters-Quiet : (g : Governor) → Quiet g (record g { waiters = [] })
    waiters-Quiet g = record {
      cfg = refl;
      live = refl;
      holds = refl;
      repos = refl;
      retired = refl;
      tombstones = refl;
    }

pub freed-Quiet : (g : Governor) (now : ℕ) (exclude : Option String) → Quiet g (freed g now exclude)
unfolding freed
freed-Quiet g now exclude =
    if_intro (Quiet g) (is_empty g.waiters) quiet
      (if_intro (Quiet g) (seed_pending g) quiet (wake_waiters-Quiet g now exclude))
