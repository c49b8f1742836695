-- ===== src/Orchestrator/Governor/Reserving/Admission.antt =====
-- How many slots `reserve` of packages/orchestrator/src/governor.ts takes.
use gateline.Prelude.{
  ℕ, zero, suc, ◌∷◌, ◌+◌, ◌≤◌, ◌<◌, ◌≡◌, refl, sym, ap, ◌∙◌, String, false, not, Option, none, List,
  [], ◌++◌, ℤ, length, has_text, arith, if_intro, if_split, option_split, is_empty, ◌==◌,
}
use gateline.Orchestrator.Governor.{
  unseeded_repositories, GovernorRefusal, RegisterOptions, repository_id_key, Governor,
  ReservationIntent, ReservationRequest, cap_of, occupied_slots,
}
use gateline.Orchestrator.Governor.Spend.{expire}
use gateline.Orchestrator.Governor.Waking.{take_first, freed}
use gateline.Orchestrator.Governor.Waking.Quiet.{Quiet, freed-Quiet}
use gateline.Orchestrator.Governor.Reserving.{
  Reserved, refuse, over_machine, over_ceiling, refuse_machine, refuse_ceiling, seed_refusal,
  slot_refusal, grant, take_slots, wait_for_rest, grantable, reserve_funded, reserve_slots,
  known_or_seeded, expire_and_free, reserve,
}
use gateline.Orchestrator.Governor.Counting.{
  takes_over, fitting, superseded_keys, repeated_key, drop_holds, new_slots, others_offered,
  sum_intents,
}
use gateline.Orchestrator.Governor.Registering.{register}
use gateline.Orchestrator.Governor.Reserving.Holds.{
  length-filter_by, length_with_slots, length-drop_holds-le, length_granted, Fresh,
  repeated_key-Fresh, granted_within,
}

pub record Fewer (g h : Governor) : Type 0 where
  pub cfg : h.cfg ≡ g.cfg
  pub live : length h.live ≤ length g.live
  pub held : length h.holds ≤ length g.holds

pub record Rests (g h : Governor) : Type 0 where
  pub cfg : h.cfg ≡ g.cfg
  pub live : length h.live ≡ length g.live
  pub held : length h.holds ≤ length g.holds

abbrev same : {g : Governor} → Rests g g
same = record { cfg = refl; live = refl; held = omega arith }

pub Quiet-Rests : {g h : Governor} → Quiet g h → Rests g h
Quiet-Rests q = record { cfg = q.cfg; live = ap length q.live; held = rw q.holds (omega arith) }

pub Rests-Fewer : {g h : Governor} → Rests g h → Fewer g h
Rests-Fewer r = record { cfg = r.cfg; live = omega (arith, r.live); held = r.held }

pub Fewer-trans : {g h k : Governor} → Fewer g h → Fewer h k → Fewer g k
Fewer-trans p q = record {
  cfg = q.cfg ∙ p.cfg;
  live = omega (arith, p.live, q.live);
  held = omega (arith, p.held, q.held);
}

pub Rests-trans : {g h k : Governor} → Rests g h → Rests h k → Rests g k
Rests-trans p q = record {
  cfg = q.cfg ∙ p.cfg;
  live = q.live ∙ p.live;
  held = omega (arith, p.held, q.held);
}

pub freed-Fewer :
    {g : Governor} (h : Governor) (now : ℕ) (exclude : Option String)
    → Fewer g h
    → Fewer g (freed h now exclude)
freed-Fewer h now exclude f = Fewer-trans f (Rests-Fewer (Quiet-Rests (freed-Quiet h now exclude)))

pub expire-Rests : (g : Governor) (now : ℕ) → Rests g (expire g now).0
unfolding expire
expire-Rests g now = record { cfg = refl; live = refl; held = length-filter_by _ g.holds }

pub register-Rests :
    (g : Governor) (label : String) (opts : RegisterOptions) → Rests g (register g label opts)
unfolding register
register-Rests g label opts = record { cfg = refl; live = refl; held = omega arith }

pub known_or_seeded-Rests : (g : Governor) (label : String) → Rests g (known_or_seeded g label)
unfolding known_or_seeded register
known_or_seeded-Rests g label =
    if_intro (Rests g) (has_text (repository_id_key label) g.repos)
      (record { cfg = refl; live = refl; held = omega arith })
      (record { cfg = refl; live = refl; held = omega arith })

pub expire_and_free-Rests : (g : Governor) (now : ℕ) → Rests g (expire_and_free g now)
unfolding expire_and_free
expire_and_free-Rests g now =
    if_intro (Rests g) (expire g now).1
      (Rests-trans (expire-Rests g now) (Quiet-Rests (freed-Quiet (expire g now).0 now none)))
      (expire-Rests g now)

-- What a reservation may do: leave the slots, or take some within the cap, as many as were asked at most.
pub data Takes (cap asked : ℕ) (g h : Governor) : Type 0 where
  takes_none : Rests g h → Takes cap asked g h
  takes_some :
      h.cfg ≡ g.cfg
      → length g.live < length h.live
      → length h.live ≤ length g.live + asked
      → length h.holds ≤ length g.holds
      → length h.live + length h.holds ≤ cap
      → Takes cap asked g h

length-take_first : (n : ℕ) (is : List ReservationIntent) → length (take_first n is) ≤ length is
length-take_first n [] = omega arith
length-take_first zero (i ∷ is) = omega arith
length-take_first (suc n) (i ∷ is) = omega (arith, length-take_first n is)

record Answers (cap asked : ℕ) (g : Governor) (x : Reserved × Governor) : Type 0 where
  apply : Takes cap asked g x.1

Rests-Takes :
    {cap asked : ℕ} {g h k : Governor} → Rests g h → Takes cap asked h k → Takes cap asked g k
Rests-Takes r (takes_none f) = takes_none (Rests-trans r f)
Rests-Takes r (takes_some e l m s w) =
    takes_some (e ∙ r.cfg) (omega (arith, r.live, l)) (omega (arith, r.live, m))
      (omega (arith, r.held, s)) w

pub cap_of-cfg : (g h : Governor) → h.cfg ≡ g.cfg → cap_of h ≡ cap_of g
unfolding cap_of
cap_of-cfg g h e = rw e refl

refuse-Answers :
    (cap asked : ℕ) (g : Governor) (r : GovernorRefusal) (requested : ℤ) (repository : String)
    → Answers cap asked g (refuse g r requested repository)
unfolding refuse
refuse-Answers cap asked g r requested repository = record {
  apply = takes_none (record { cfg = refl; live = refl; held = omega arith });
}

take_slots-Takes :
    (cap asked : ℕ) (g : Governor) (request : ReservationRequest) (repository : String) (n : ℕ)
    (take : List ReservationIntent) (ks : List String)
    → 0 < length take
    → length take ≤ asked
    → length g.live + length take + length (drop_holds repository ks g.holds) ≤ cap
    → Takes cap asked g (take_slots g request repository n take ks)
unfolding take_slots
take_slots-Takes cap asked g request repository n take ks some_taken few fits =
    takes_some refl (omega (arith, some_taken, grown)) (omega (arith, few, grown))
      (length-drop_holds-le repository ks g.holds) (omega (arith, fits, grown))
  where
    grown :
        length (g.live ++ new_slots request.repository repository take g.serials)
        ≡ length g.live + length take
    grown = length_with_slots g.live request.repository repository take g.serials

wait_for_rest-Takes :
    {cap asked : ℕ} {g : Governor} (h : Governor) (request : ReservationRequest)
    (repository : String) (n : ℕ)
    → Takes cap asked g h
    → Takes cap asked g (wait_for_rest h request repository n)
unfolding wait_for_rest
wait_for_rest-Takes h request repository n (takes_none f) =
    takes_none (record { cfg = f.cfg; live = f.live; held = f.held })
wait_for_rest-Takes h request repository n (takes_some e l m s w) = takes_some e l m s w

grant-Answers :
    (cap asked : ℕ) (g : Governor) (request : ReservationRequest) (repository : String) (n : ℕ)
    (take : List ReservationIntent) (ks : List String)
    → 0 < length take
    → length take ≤ asked
    → length g.live + length take + length (drop_holds repository ks g.holds) ≤ cap
    → Answers cap asked g (grant g request repository n take ks)
unfolding grant
grant-Answers cap asked g request repository n take ks some_taken few fits =
    let taken = take_slots-Takes cap asked g request repository n take ks some_taken few fits in
    if_intro (Answers cap asked g) (n == length request.intents) (record { apply = taken })
      (record { apply = wait_for_rest-Takes _ request repository n taken })

with_cap :
    (g : Governor) (request : ReservationRequest) (repository : String)
    → 0 < cap_of g
    → grantable g request repository
      ≡ fitting
          (takes_over g.holds repository)
          (cap_of g)
          (length g.live + length g.holds + others_offered repository g.offers)
          request.intents
unfolding grantable occupied_slots
with_cap g request repository h = ground arith

refuse_machine-Answers :
    (cap asked : ℕ) (g : Governor) (now : ℕ) (request : ReservationRequest) (repository : String)
    (ks : List String) (requested : ℤ)
    → Answers cap asked g (refuse_machine g now request repository ks requested)
unfolding refuse_machine refuse
refuse_machine-Answers cap asked g now request repository ks requested = record {
  apply = takes_none (record { cfg = refl; live = refl; held = omega arith });
}

refuse_ceiling-Answers :
    (cap asked : ℕ) (g : Governor) (now : ℕ) (request : ReservationRequest) (repository : String)
    (ks : List String) (requested : ℤ)
    → Answers cap asked g (refuse_ceiling g now request repository ks requested)
unfolding refuse_ceiling refuse
refuse_ceiling-Answers cap asked g now request repository ks requested = record {
  apply = takes_none (record { cfg = refl; live = refl; held = omega arith });
}

reserve_funded-Answers :
    (cap asked : ℕ) (g : Governor) (now : ℕ) (request : ReservationRequest) (repository : String)
    (n : ℕ) (take : List ReservationIntent) (ks : List String)
    → 0 < length take
    → length take ≤ asked
    → length g.live + length take + length (drop_holds repository ks g.holds) ≤ cap
    → Answers cap asked g (reserve_funded g now request repository n take ks)
unfolding reserve_funded
reserve_funded-Answers cap asked g now request repository n take ks some_taken few fits =
    if_intro (Answers cap asked g) (over_machine g now repository ks (sum_intents take))
      (refuse_machine-Answers cap asked g now request repository ks (sum_intents take))
      (if_intro (Answers cap asked g) (over_ceiling g now repository ks (sum_intents take))
        (refuse_ceiling-Answers cap asked g now request repository ks (sum_intents take))
        (grant-Answers cap asked g request repository n take ks some_taken few fits))

grantable_within :
    (g : Governor) (request : ReservationRequest) (repository : String)
    → 0 < cap_of g
    → Fresh [] request.intents
    → (grantable g request repository == 0) ≡ false
    → let take = take_first (grantable g request repository) request.intents in
      (0 < length take)
      × (length g.live
            + length take
            + length (
                drop_holds repository
                  (superseded_keys (takes_over g.holds repository) take)
                  g.holds)
          ≤ cap_of g)
grantable_within g request repository capped fresh = rw (with_cap g request repository capped) λ e.
    let some_fit = nonzero _ e in
    (
      length_granted (takes_over g.holds repository) (cap_of g) _ request.intents some_fit,
      omega (
        arith,
        granted_within repository g.holds (cap_of g) (length g.live)
            (others_offered repository g.offers) request.intents fresh some_fit,
      ),
    )
  where
    nonzero : (n : ℕ) → (n == 0) ≡ false → 0 < n
    nonzero n e = ground arith

reserve_slots-Answers :
    (g : Governor) (now : ℕ) (request : ReservationRequest) (repository : String)
    → 0 < cap_of g
    → Fresh [] request.intents
    → Answers (cap_of g) (length request.intents) g (reserve_slots g now request repository)
unfolding reserve_slots
reserve_slots-Answers g now request repository capped fresh =
    let n = grantable g request repository in
    let taking = takes_over g.holds repository in
    let take = take_first n request.intents in
    if_intro (Answers (cap_of g) (length request.intents) g)
      (not (is_empty (unseeded_repositories g)))
      (refuse-Answers (cap_of g) (length request.intents) g (seed_refusal g request)
        (sum_intents request.intents) repository)
      (if_split (Answers (cap_of g) (length request.intents) g) (n == 0)
        (λ e.
          refuse-Answers (cap_of g) (length request.intents) g (slot_refusal g request repository)
            (sum_intents request.intents) repository)
        (λ e.
          reserve_funded-Answers (cap_of g) (length request.intents) g now request repository n take
            (superseded_keys taking take) (grantable_within g request repository capped fresh e).0
            (length-take_first n request.intents)
            (grantable_within g request repository capped fresh e).1))

Rests-Answers :
    {asked : ℕ} {g h : Governor} {x : Reserved × Governor}
    → Rests g h
    → Answers (cap_of h) asked h x
    → Answers (cap_of g) asked g x
Rests-Answers {asked} {g} {h} {x} r a =
    let taken : Takes (cap_of g) asked h x.1 = rw (sym (cap_of-cfg g h r.cfg)) a.apply in
    record { apply = Rests-Takes r taken }

pub reserve-Takes :
    (g : Governor) (now : ℕ) (request : ReservationRequest)
    → 0 < cap_of g
    → Takes (cap_of g) (length request.intents) g (reserve g now request).1
unfolding reserve
reserve-Takes g now request capped =
    (option_split (Answers (cap_of g) (length request.intents) g) (repeated_key [] request.intents)
      (λ e.
        if_intro (Answers (cap_of g) (length request.intents) g)
          (has_text (repository_id_key request.repository) g.tombstones)
          (record { apply = takes_none same })
          (Rests-Answers rested (
            reserve_slots-Answers (expire_and_free (known_or_seeded g request.repository) now) now
              request (repository_id_key request.repository) still_capped
              (repeated_key-Fresh [] request.intents e))))
      (λ key e. record { apply = takes_none same })).apply
  where
    rested : Rests g (expire_and_free (known_or_seeded g request.repository) now)
    rested =
        Rests-trans (known_or_seeded-Rests g request.repository)
          (expire_and_free-Rests (known_or_seeded g request.repository) now)

    still_capped : 0 < cap_of (expire_and_free (known_or_seeded g request.repository) now)
    still_capped =
        rw (cap_of-cfg g (expire_and_free (known_or_seeded g request.repository) now) rested.cfg)
          capped
