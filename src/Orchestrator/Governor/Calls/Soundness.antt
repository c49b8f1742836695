-- ===== src/Orchestrator/Governor/Calls/Soundness.antt =====
-- What the spend window of packages/orchestrator/src/governor.ts relies on, kept by every call.
use gateline.Prelude.{
  ℕ, zero, suc, ◌≡◌, refl, ◌∙◌, ap, String, true, not, some, List, [], ◌∷◌, ℤ, All, All-append,
  length, is_empty, has_text, if_intro, option_split, ◌==◌,
}
use gateline.Orchestrator.Governor.{
  enforcing, Governor, GovernorConfig, RegisterOptions, GovernorRefusal, ReservationRequest,
  ReservationIntent, Slot, Hold, repository_id_key, unseeded_repositories,
}
use gateline.Orchestrator.Governor.Spend.Sums.{NonNegative}
use gateline.Orchestrator.Governor.Waking.{take_first}
use gateline.Orchestrator.Governor.Reserving.{
  Reserved, reserve, known_or_seeded, expire_and_free, refuse, refuse_machine, refuse_ceiling,
  grant, take_slots, wait_for_rest, grantable, over_machine, over_ceiling, seed_refusal,
  slot_refusal, reserve_funded, reserve_slots,
}
use gateline.Orchestrator.Governor.Counting.{
  repeated_key, is_hold, sum_intents, superseded_keys, takes_over, drop_holds, new_slots,
}
use gateline.Orchestrator.Governor.Registering.{register}
use gateline.Orchestrator.Governor.Reserving.Solvency.{Sound}
use gateline.Orchestrator.Governor.Reserving.Upkeep.{
  All-keep, register-Sound, known_or_seeded-Sound, expire_and_free-Sound,
}
use gateline.Orchestrator.Governor.Reserving.Limits.{
  Solvent, reserve-Solvent, enforcing_kept, cfg_kept,
}
use gateline.Orchestrator.Governor.Calls.Slots.{
  unregister-Fewer, report_begins-Still, commit-Still, report_lands-Rests, subscribe-Still,
  unsubscribe-Still, release-Frees, idle-Still, wake_finished-Still, timer_ended-Still, seed-Found,
}
use gateline.Orchestrator.Governor.Calls.{
  Call, registers, unregisters, seeds, begins_report, lands_report, subscribes, unsubscribes,
  reserves, commits, releases, waits, finishes_wake, ends_timer, step, run, empty_governor,
  register_all, new_governor,
}
use gateline.Orchestrator.Governor.Calls.Keeping.{
  unregister-Sound, seed-Sound, report_begins-Sound, report_lands-Sound, subscribe-Sound,
  unsubscribe-Sound, commit-Sound, release-Sound, idle-Sound, wake_finished-Sound,
  timer_ended-Sound,
}

-- ---- Reservations.

record Upholds (cfg : GovernorConfig) (x : Reserved × Governor) : Type 0 where
  apply : Sound x.1
  same : x.1.cfg ≡ cfg

refuse-Upholds :
    (g : Governor) (r : GovernorRefusal) (requested : ℤ) (repository : String)
    → Sound g
    → Upholds g.cfg (refuse g r requested repository)
unfolding refuse
refuse-Upholds g r requested repository s = record {
  apply = record { once = s.once; repos = s.repos; holds = s.holds; live = s.live };
  same = refl;
}

drop_holds-All :
    (repository : String) (ks : List String) (hs : List Hold)
    → All (λ h. NonNegative h.estimate_usd) hs
    → All (λ h. NonNegative h.estimate_usd) (drop_holds repository ks hs)
unfolding drop_holds
drop_holds-All repository [] hs a = a
drop_holds-All repository (k ∷ ks) hs a =
    drop_holds-All repository ks _ (All-keep _ (λ h. not (is_hold repository k h)) hs a)

new_slots-All :
    (label repository : String) (is : List ReservationIntent) (n : ℕ)
    → All (λ i. NonNegative i.estimate_usd) is
    → All (λ t. NonNegative t.estimate_usd) (new_slots label repository is n)
unfolding new_slots
new_slots-All label repository [] n a = tt
new_slots-All label repository (i ∷ is) n a = (a.0, new_slots-All label repository is (suc n) a.1)

take_slots-Sound :
    (g : Governor) (request : ReservationRequest) (repository : String) (n : ℕ)
    (take : List ReservationIntent) (ks : List String)
    → All (λ i. NonNegative i.estimate_usd) take
    → Sound g
    → Sound (take_slots g request repository n take ks)
unfolding take_slots
take_slots-Sound g request repository n take ks c s = record {
  once = s.once;
  repos = s.repos;
  holds = drop_holds-All repository ks g.holds s.holds;
  live =
      All-append (λ (t : Slot). NonNegative t.estimate_usd) g.live
        (new_slots request.repository repository take g.serials) s.live
        (new_slots-All request.repository repository take g.serials c);
}

wait_for_rest-Sound :
    (g : Governor) (request : ReservationRequest) (repository : String) (n : ℕ)
    → Sound g
    → Sound (wait_for_rest g request repository n)
unfolding wait_for_rest
wait_for_rest-Sound g request repository n s = record {
  once = s.once;
  repos = s.repos;
  holds = s.holds;
  live = s.live;
}

refuse_machine-Upholds :
    (g : Governor) (now : ℕ) (request : ReservationRequest) (repository : String) (ks : List String)
    (requested : ℤ)
    → Sound g
    → Upholds g.cfg (refuse_machine g now request repository ks requested)
unfolding refuse_machine refuse
refuse_machine-Upholds g now request repository ks requested s = record {
  apply = record { once = s.once; repos = s.repos; holds = s.holds; live = s.live };
  same = refl;
}

refuse_ceiling-Upholds :
    (g : Governor) (now : ℕ) (request : ReservationRequest) (repository : String) (ks : List String)
    (requested : ℤ)
    → Sound g
    → Upholds g.cfg (refuse_ceiling g now request repository ks requested)
unfolding refuse_ceiling refuse
refuse_ceiling-Upholds g now request repository ks requested s = record {
  apply = record { once = s.once; repos = s.repos; holds = s.holds; live = s.live };
  same = refl;
}

grant-Upholds :
    (g : Governor) (request : ReservationRequest) (repository : String) (n : ℕ)
    (take : List ReservationIntent) (ks : List String)
    → All (λ i. NonNegative i.estimate_usd) take
    → Sound g
    → Upholds g.cfg (grant g request repository n take ks)
unfolding grant take_slots wait_for_rest
grant-Upholds g request repository n take ks c s =
    let taken = take_slots-Sound g request repository n take ks c s in
    let waiting =
      wait_for_rest-Sound (take_slots g request repository n take ks) request repository n taken in
    if_intro (Upholds g.cfg) (n == length request.intents) (record { apply = taken; same = refl })
      (record { apply = waiting; same = refl })

reserve_funded-Upholds :
    (g : Governor) (now : ℕ) (request : ReservationRequest) (repository : String) (n : ℕ)
    (take : List ReservationIntent) (ks : List String)
    → All (λ i. NonNegative i.estimate_usd) take
    → Sound g
    → Upholds g.cfg (reserve_funded g now request repository n take ks)
unfolding reserve_funded
reserve_funded-Upholds g now request repository n take ks c s =
    if_intro (Upholds g.cfg) (over_machine g now repository ks (sum_intents take))
      (refuse_machine-Upholds g now request repository ks (sum_intents take) s)
      (if_intro (Upholds g.cfg) (over_ceiling g now repository ks (sum_intents take))
        (refuse_ceiling-Upholds g now request repository ks (sum_intents take) s)
        (grant-Upholds g request repository n take ks c s))

take_first-All :
    (n : ℕ) (is : List ReservationIntent)
    → All (λ i. NonNegative i.estimate_usd) is
    → All (λ i. NonNegative i.estimate_usd) (take_first n is)
take_first-All n [] a = tt
take_first-All zero (i ∷ is) a = tt
take_first-All (suc n) (i ∷ is) a = (a.0, take_first-All n is a.1)

reserve_slots-Upholds :
    (g : Governor) (now : ℕ) (request : ReservationRequest) (repository : String)
    → All (λ i. NonNegative i.estimate_usd) request.intents
    → Sound g
    → Upholds g.cfg (reserve_slots g now request repository)
unfolding reserve_slots
reserve_slots-Upholds g now request repository c s =
    let take = take_first (grantable g request repository) request.intents in
    if_intro (Upholds g.cfg) (not (is_empty (unseeded_repositories g)))
      (refuse-Upholds g (seed_refusal g request) (sum_intents request.intents) repository s)
      (if_intro (Upholds g.cfg) (grantable g request repository == 0)
        (refuse-Upholds g (slot_refusal g request repository) (sum_intents request.intents)
          repository s)
        (reserve_funded-Upholds g now request repository (grantable g request repository) take
          (superseded_keys (takes_over g.holds repository) take)
          (take_first-All (grantable g request repository) request.intents c) s))

Upholds-cfg : {j k : GovernorConfig} {x : Reserved × Governor} → j ≡ k → Upholds j x → Upholds k x
Upholds-cfg e u = record { apply = u.apply; same = u.same ∙ e }

reserve-Upholds :
    (g : Governor) (now : ℕ) (request : ReservationRequest)
    → All (λ i. NonNegative i.estimate_usd) request.intents
    → Sound g
    → Upholds g.cfg (reserve g now request)
unfolding reserve
reserve-Upholds g now request c s =
    let known = known_or_seeded g request.repository in
    option_split (Upholds g.cfg) (repeated_key [] request.intents)
      (λ e.
        if_intro (Upholds g.cfg) (has_text (repository_id_key request.repository) g.tombstones)
          (record { apply = s; same = refl })
          (Upholds-cfg (cfg_kept g now request.repository) (
            reserve_slots-Upholds (expire_and_free known now) now request
              (repository_id_key request.repository) c
              (expire_and_free-Sound known now (known_or_seeded-Sound g request.repository s)))))
      (λ key e. record { apply = s; same = refl })

-- The estimates that a call brings are not negative.
abbrev pub Priced : Call → Type 0
Priced (seeds label es) = All (λ e. NonNegative e.estimate_usd) es
Priced (lands_report label as_of r) = All (λ e. NonNegative e.estimate_usd) r.open_entries
Priced (reserves request) = All (λ i. NonNegative i.estimate_usd) request.intents
Priced _ = Unit

step-Sound : (g : Governor) (now : ℕ) (c : Call) → Priced c → Sound g → Sound (step g (now, c))
unfolding step
step-Sound g now (registers label opts) p s = register-Sound g label opts s
step-Sound g now (unregisters label b) p s = unregister-Sound g now label b s
step-Sound g now (seeds label es) p s = seed-Sound g now label es p s
step-Sound g now (begins_report label) p s = report_begins-Sound g label s
step-Sound g now (lands_report label as_of r) p s = report_lands-Sound g now label as_of r p s
step-Sound g now (subscribes label w) p s = subscribe-Sound g label w s
step-Sound g now (unsubscribes label w) p s = unsubscribe-Sound g label w s
step-Sound g now (reserves request) p s = (reserve-Upholds g now request p s).apply
step-Sound g now (commits serial at) p s = commit-Sound g serial at s
step-Sound g now (releases serial cost) p s = release-Sound g now serial cost s
step-Sound g now (waits) p s = idle-Sound g s
step-Sound g now (finishes_wake i) p s = wake_finished-Sound g now i s
step-Sound g now (ends_timer label) p s = timer_ended-Sound g now label s

step-cfg : (g : Governor) (now : ℕ) (c : Call) → Priced c → Sound g → (step g (now, c)).cfg ≡ g.cfg
unfolding step register
step-cfg g now (registers label opts) p s = refl
step-cfg g now (unregisters label b) p s = (unregister-Fewer g now label b).cfg
step-cfg g now (seeds label es) p s = (seed-Found g now label es).cfg
step-cfg g now (begins_report label) p s = (report_begins-Still g label).cfg
step-cfg g now (lands_report label as_of r) p s = (report_lands-Rests g now label as_of r).cfg
step-cfg g now (subscribes label w) p s = (subscribe-Still g label w).cfg
step-cfg g now (unsubscribes label w) p s = (unsubscribe-Still g label w).cfg
step-cfg g now (reserves request) p s = (reserve-Upholds g now request p s).same
step-cfg g now (commits serial at) p s = (commit-Still g serial at).cfg
step-cfg g now (releases serial cost) p s = (release-Frees g now serial cost).cfg
step-cfg g now (waits) p s = (idle-Still g).cfg
step-cfg g now (finishes_wake i) p s = (wake_finished-Still g now i).cfg
step-cfg g now (ends_timer label) p s = (timer_ended-Still g now label).cfg

run-cfg :
    (g : Governor) (cs : List (ℕ × Call))
    → All (λ c. Priced c.1) cs
    → Sound g
    → (run g cs).cfg ≡ g.cfg
unfolding run
run-cfg g [] p s = refl
run-cfg g ((now, c) ∷ cs) p s =
    run-cfg (step g (now, c)) cs p.1 (step-Sound g now c p.0 s) ∙ step-cfg g now c p.0 s

pub run-Sound :
    (g : Governor) (cs : List (ℕ × Call)) → All (λ c. Priced c.1) cs → Sound g → Sound (run g cs)
unfolding run
run-Sound g [] p s = s
run-Sound g ((now, c) ∷ cs) p s = run-Sound (step g (now, c)) cs p.1 (step-Sound g now c p.0 s)

register_all-Sound :
    (rs : List (String × RegisterOptions)) (g : Governor) → Sound g → Sound (register_all rs g)
unfolding register_all
register_all-Sound [] g s = s
register_all-Sound ((label, opts) ∷ rs) g s =
    register_all-Sound rs (register g label opts) (register-Sound g label opts s)

pub new_governor-Sound : (cfg : GovernorConfig) → Sound (new_governor cfg)
unfolding new_governor
new_governor-Sound cfg =
    register_all-Sound cfg.repositories (empty_governor cfg)
      (record { once = tt; repos = tt; holds = tt; live = tt })

-- A governor that is made with a spend limit, and enforces it, keeps to it whatever calls it receives, where
-- no estimate that they bring is negative: a request that is then granted anything leaves the machine's spend
-- in the window, closed and estimated, within the limit.
pub run-Solvent :
    (cfg : GovernorConfig) (cs : List (ℕ × Call)) (now : ℕ) (request : ReservationRequest)
    (limit : ℤ)
    → All (λ c. Priced c.1) cs
    → Priced (reserves request)
    → enforcing (new_governor cfg) ≡ true
    → (new_governor cfg).cfg.spend_limit_usd ≡ some limit
    → Solvent limit now (reserve (run (new_governor cfg) cs) now request)
run-Solvent cfg cs now request limit p c enforced limited =
    let g = new_governor cfg in
    let same = run-cfg g cs p (new_governor-Sound cfg) in
    reserve-Solvent (run g cs) now request limit (run-Sound g cs p (new_governor-Sound cfg)) c
      (enforcing_kept g (run g cs) same ∙ enforced)
      (ap (λ (k : GovernorConfig). k.spend_limit_usd) same ∙ limited)
