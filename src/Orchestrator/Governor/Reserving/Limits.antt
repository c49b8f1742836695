-- ===== src/Orchestrator/Governor/Reserving/Limits.antt =====
-- The machine's spend limit of packages/orchestrator/src/governor.ts: a request that is granted fits it.
use gateline.Prelude.{
  ℕ, suc, zero, ◌-◌, ◌≡◌, refl, ap, ◌∙◌, ℤ, ◌+ℤ◌, ◌≤ℤ◌, String, Bool, true, false, not, ◌&&◌,
  Option, none, some, List, [], ◌∷◌, ◌==◌, length, is_empty, has_text, keys_of, arith, All,
  if_intro, if_split, option_split,
}
use gateline.Orchestrator.Governor.{
  GovernorConfig, Governor, GovernorRefusal, Slot, ReservationIntent, ReservationRequest,
  repository_id_key, enforcing, spend_window, unseeded_repositories,
}
use gateline.Orchestrator.Governor.Spend.{
  spend_items, repo_spend, spend_over, machine_spend, SpendSum, sum_retired, add_spend,
}
use gateline.Orchestrator.Governor.Spend.Sums.{NonNegative, parts_add, within_limit, le_trans}
use gateline.Orchestrator.Governor.Waking.{take_first}
use gateline.Orchestrator.Governor.Reserving.{
  Reserved, granted_with, repeated, refuse, refuse_machine, refuse_ceiling, over_machine,
  over_ceiling, seed_refusal, slot_refusal, exceeds, grant, take_slots, wait_for_rest, grantable,
  reserve_funded, reserve_slots, known_or_seeded, expire_and_free, reserve,
}
use gateline.Orchestrator.Governor.Counting.{
  takes_over, superseded_keys, repeated_key, new_slots, sum_intents,
}
use gateline.Orchestrator.Governor.Reserving.Holds.{Fresh, repeated_key-Fresh, take_first-Fresh}
use gateline.Orchestrator.Governor.Reserving.Admission.{
  known_or_seeded-Rests, expire_and_free-Rests,
}
use gateline.Orchestrator.Governor.Reserving.Upkeep.{known_or_seeded-Sound, expire_and_free-Sound}
use gateline.Orchestrator.Governor.Reserving.Solvency.{
  Sound, repository_id_key_twice, all_spend, own_others,
}

abbrev pub spent : SpendSum → ℤ
spent s = s.closed +ℤ s.open_usd

-- A request that is granted anything leaves the spend of the machine within the limit.
abbrev pub Solvent : ℤ → ℕ → Reserved × Governor → Type 0
Solvent limit now (granted_with [] r, h) = Unit
Solvent limit now (granted_with (s ∷ ss) r, h) = spent (machine_spend h now none []) ≤ℤ limit
Solvent limit now (repeated k, h) = Unit

record Fits (limit : ℤ) (now : ℕ) (x : Reserved × Governor) : Type 0 where
  apply : Solvent limit now x

fits :
    {limit : ℤ} {now : ℕ} (slots : List Slot) (r : Option GovernorRefusal) (h : Governor)
    → spent (machine_spend h now none []) ≤ℤ limit
    → Fits limit now (granted_with slots r, h)
fits [] r h le = record { apply = tt }
fits (s ∷ ss) r h le = record { apply = le }

waiting_spend :
    (h : Governor) (now : ℕ) (request : ReservationRequest) (repository : String) (n : ℕ)
    (names : List String)
    → spend_over (wait_for_rest h request repository n) now none [] names
      ≡ spend_over h now none [] names
unfolding spend_over repo_spend spend_items wait_for_rest spend_window
waiting_spend h now request repository n [] = refl
waiting_spend h now request repository n (k ∷ ks) =
    ap (add_spend (repo_spend h now k [])) (waiting_spend h now request repository n ks)

waiting_machine :
    (h : Governor) (now : ℕ) (request : ReservationRequest) (repository : String) (n : ℕ)
    → machine_spend (wait_for_rest h request repository n) now none [] ≡ machine_spend h now none []
unfolding machine_spend wait_for_rest spend_window
waiting_machine h now request repository n =
    ap
      (λ (s : SpendSum). record s {
        closed = s.closed +ℤ sum_retired (now - spend_window h) h.retired;
      })
      (waiting_spend h now request repository n (keys_of h.repos))

machine_after :
    (g : Governor) (now : ℕ) (request : ReservationRequest) (repository : String) (n : ℕ)
    (take : List ReservationIntent)
    → repository_id_key repository ≡ repository
    → Fresh [] take
    → Sound g
    → NonNegative (sum_intents take)
    → let ks = superseded_keys (takes_over g.holds repository) take in
      spent (machine_spend (take_slots g request repository n take ks) now none [])
      ≤ℤ spent (machine_spend g now (some repository) ks) +ℤ sum_intents take
unfolding machine_spend take_slots spend_window
machine_after g now request repository n take e f s c = rw e (
    own_others _ _ _ _ (sum_intents take)
      (ap (λ x. x +ℤ sum_retired (now - spend_window g) g.retired)
        (all_spend g now request repository n take g.repos f s s.once s.repos c).0)
      (all_spend g now request repository n take g.repos f s s.once s.repos c).1)

unexceeded :
    (b : Bool) (o : Option ℤ) (closed running requested limit : ℤ)
    → b ≡ true
    → o ≡ some limit
    → (b && exceeds o closed running requested) ≡ false
    → closed +ℤ running +ℤ requested ≤ℤ limit
unexceeded b o closed running requested limit enforced limited fine =
    within_limit (closed +ℤ running +ℤ requested) limit (rw (enforced, limited) at fine)

within :
    (g : Governor) (now : ℕ) (repository : String) (ks : List String) (requested limit : ℤ)
    → enforcing g ≡ true
    → g.cfg.spend_limit_usd ≡ some limit
    → over_machine g now repository ks requested ≡ false
    → spent (machine_spend g now (some repository) ks) +ℤ requested ≤ℤ limit
unfolding over_machine
within g now repository ks requested limit enforced limited fine =
    unexceeded (enforcing g) g.cfg.spend_limit_usd _ _ requested limit enforced limited fine

sum_costly :
    (n : ℕ) (is : List ReservationIntent)
    → All (λ i. NonNegative i.estimate_usd) is
    → NonNegative (sum_intents (take_first n is))
sum_costly n [] a = omega arith
sum_costly zero (i ∷ is) a = omega arith
sum_costly (suc n) (i ∷ is) a =
    omega
      (arith, parts_add i.estimate_usd (sum_intents (take_first n is)), a.0, sum_costly n is a.1)

-- ---- The answer to a request, in a state that is sound.

module _ (limit : ℤ) (now : ℕ) where
  refuse-Fits :
      (g : Governor) (r : GovernorRefusal) (requested : ℤ) (repository : String)
      → Fits limit now (refuse g r requested repository)
  unfolding refuse
  refuse-Fits g r requested repository = record { apply = tt }

  refuse_machine-Fits :
      (g : Governor) (request : ReservationRequest) (repository : String) (ks : List String)
      (requested : ℤ)
      → Fits limit now (refuse_machine g now request repository ks requested)
  unfolding refuse_machine refuse
  refuse_machine-Fits g request repository ks requested = record { apply = tt }

  refuse_ceiling-Fits :
      (g : Governor) (request : ReservationRequest) (repository : String) (ks : List String)
      (requested : ℤ)
      → Fits limit now (refuse_ceiling g now request repository ks requested)
  unfolding refuse_ceiling refuse
  refuse_ceiling-Fits g request repository ks requested = record { apply = tt }

  grant-Fits :
      (g : Governor) (request : ReservationRequest) (repository : String) (n : ℕ)
      (take : List ReservationIntent) (ks : List String)
      → spent (machine_spend (take_slots g request repository n take ks) now none []) ≤ℤ limit
      → Fits limit now (grant g request repository n take ks)
  unfolding grant
  grant-Fits g request repository n take ks le =
      if_intro (Fits limit now) (n == length request.intents)
        (fits (new_slots request.repository repository take g.serials) _ _ le)
        (fits (new_slots request.repository repository take g.serials) _ _ (
          rw (waiting_machine (take_slots g request repository n take ks) now request repository n)
            le))

  reserve_funded-Fits :
      (g : Governor) (request : ReservationRequest) (repository : String) (n : ℕ)
      (take : List ReservationIntent)
      → repository_id_key repository ≡ repository
      → Fresh [] take
      → Sound g
      → NonNegative (sum_intents take)
      → enforcing g ≡ true
      → g.cfg.spend_limit_usd ≡ some limit
      → Fits limit now (
          reserve_funded g now request repository n take
            (superseded_keys (takes_over g.holds repository) take))
  unfolding reserve_funded
  reserve_funded-Fits g request repository n take e f s c enforced limited =
      let ks = superseded_keys (takes_over g.holds repository) take in
      if_split (Fits limit now) (over_machine g now repository ks (sum_intents take))
        (λ over. refuse_machine-Fits g request repository ks (sum_intents take))
        λ fine.
          if_intro (Fits limit now) (over_ceiling g now repository ks (sum_intents take))
            (refuse_ceiling-Fits g request repository ks (sum_intents take))
            (grant-Fits g request repository n take ks (
              le_trans _ _ limit (machine_after g now request repository n take e f s c)
                (within g now repository ks (sum_intents take) limit enforced limited fine)))

  reserve_slots-Fits :
      (g : Governor) (request : ReservationRequest) (repository : String)
      → repository_id_key repository ≡ repository
      → Fresh [] request.intents
      → Sound g
      → All (λ i. NonNegative i.estimate_usd) request.intents
      → enforcing g ≡ true
      → g.cfg.spend_limit_usd ≡ some limit
      → Fits limit now (reserve_slots g now request repository)
  unfolding reserve_slots
  reserve_slots-Fits g request repository e f s c enforced limited =
      let n = grantable g request repository in
      let take = take_first n request.intents in
      if_intro (Fits limit now) (not (is_empty (unseeded_repositories g)))
        (refuse-Fits g (seed_refusal g request) (sum_intents request.intents) repository)
        (if_intro (Fits limit now) (n == 0)
          (refuse-Fits g (slot_refusal g request repository) (sum_intents request.intents)
            repository)
          (reserve_funded-Fits g request repository n take e
            (take_first-Fresh n [] request.intents f) s (sum_costly n request.intents c) enforced
            limited))

pub cfg_kept :
    (g : Governor) (now : ℕ) (label : String)
    → (expire_and_free (known_or_seeded g label) now).cfg ≡ g.cfg
cfg_kept g now label =
    (expire_and_free-Rests (known_or_seeded g label) now).cfg ∙ (known_or_seeded-Rests g label).cfg

pub enforcing_kept : (g h : Governor) → h.cfg ≡ g.cfg → enforcing h ≡ enforcing g
unfolding enforcing
enforcing_kept g h e = rw e refl

-- Under an enforced spend limit, a request that is granted anything leaves the machine's spend in the window,
-- closed and estimated, within the limit, where no estimate in hand or asked for is negative and each
-- repository stands once, under its key.
pub reserve-Solvent :
    (g : Governor) (now : ℕ) (request : ReservationRequest) (limit : ℤ)
    → Sound g
    → All (λ i. NonNegative i.estimate_usd) request.intents
    → enforcing g ≡ true
    → g.cfg.spend_limit_usd ≡ some limit
    → Solvent limit now (reserve g now request)
unfolding reserve
reserve-Solvent g now request limit s c enforced limited =
    let label = request.repository in
    let judged = expire_and_free (known_or_seeded g label) now in
    (option_split (Fits limit now) (repeated_key [] request.intents)
      (λ e.
        if_intro (Fits limit now) (has_text (repository_id_key label) g.tombstones)
          (record { apply = tt })
          (reserve_slots-Fits limit now judged request (repository_id_key label)
            (repository_id_key_twice label) (repeated_key-Fresh [] request.intents e)
            (expire_and_free-Sound (known_or_seeded g label) now (known_or_seeded-Sound g label s))
            c (enforcing_kept g judged (cfg_kept g now label) ∙ enforced)
            (ap (λ (k : GovernorConfig). k.spend_limit_usd) (cfg_kept g now label) ∙ limited)))
      (λ key e. record { apply = tt })).apply
