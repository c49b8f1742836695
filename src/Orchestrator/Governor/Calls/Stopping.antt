-- ===== src/Orchestrator/Governor/Calls/Stopping.antt =====
-- A repository whose engine has stopped, in packages/orchestrator/src/governor.ts: its tombstone stays until
-- it registers again.
use text.Mathlib.TextEquality.{eq_iff}
use gateline.Prelude.{
  ℕ, ◌≡◌, ◌⊎◌, inl, inr, refl, String, Bool, true, false, not, none, some, List, [], ◌∷◌, ℤ, All,
  length, is_empty, text_eq, has_text, put_text, arith, Option-cases, if_intro, if_split,
  option_split, ◌==◌,
}
use gateline.Orchestrator.Governor.{
  Governor, GovernorRefusal, unregistered, ReservationRequest, ReservationIntent, repository_id_key,
  names_for, unseeded_repositories,
}
use gateline.Orchestrator.Governor.Spend.{expire}
use gateline.Orchestrator.Governor.Waking.{take_first}
use gateline.Orchestrator.Governor.Reserving.{
  refuse, refuse_machine, refuse_ceiling, grant, take_slots, wait_for_rest, grantable, over_machine,
  over_ceiling, seed_refusal, slot_refusal, reserve_funded, reserve_slots, Reserved, granted_with,
  repeated, thrown_message, reserve, base_refusal, known_or_seeded, expire_and_free,
}
use gateline.Orchestrator.Governor.Counting.{sum_intents, superseded_keys, takes_over, repeated_key}
use gateline.Orchestrator.Governor.Registering.{no_options}
use gateline.Orchestrator.Governor.Calls.{
  Call, registers, unregisters, seeds, begins_report, lands_report, subscribes, unsubscribes,
  reserves, commits, releases, waits, finishes_wake, ends_timer, step, run, subscribe, commit, idle,
}
use gateline.Orchestrator.Governor.Leaving.{unregister, tombstone_of, bury}
use gateline.Orchestrator.Governor.Calls.Tombstones.{
  Buries, standing, Buries-trans, freed-Buries, register-Buries, not_buried, seed-Buries,
  report_begins-Buries, forgotten-Buries, unregister-Buries, report_lands-Buries,
  unsubscribe-Buries, release-Buries, wake_finished-Buries, timer_ended-Buries,
}

-- What a reservation answers keeps the tombstones.
record Keeps (k : String) (g : Governor) (x : Reserved × Governor) : Type 0 where
  apply : Buries k g x.1

refuse-Keeps :
    (k : String) (g : Governor) (r : GovernorRefusal) (requested : ℤ) (repository : String)
    → Keeps k g (refuse g r requested repository)
unfolding refuse
refuse-Keeps k g r requested repository = record { apply = record { apply = λ b. b } }

refuse_machine-Keeps :
    (k : String) (g : Governor) (now : ℕ) (request : ReservationRequest) (repository : String)
    (ks : List String) (requested : ℤ)
    → Keeps k g (refuse_machine g now request repository ks requested)
unfolding refuse_machine refuse
refuse_machine-Keeps k g now request repository ks requested = record {
  apply = record { apply = λ b. b };
}

refuse_ceiling-Keeps :
    (k : String) (g : Governor) (now : ℕ) (request : ReservationRequest) (repository : String)
    (ks : List String) (requested : ℤ)
    → Keeps k g (refuse_ceiling g now request repository ks requested)
unfolding refuse_ceiling refuse
refuse_ceiling-Keeps k g now request repository ks requested = record {
  apply = record { apply = λ b. b };
}

grant-Keeps :
    (k : String) (g : Governor) (request : ReservationRequest) (repository : String) (n : ℕ)
    (take : List ReservationIntent) (ks : List String)
    → Keeps k g (grant g request repository n take ks)
unfolding grant take_slots wait_for_rest
grant-Keeps k g request repository n take ks =
    if_intro (Keeps k g) (n == length request.intents)
      (record { apply = record { apply = λ b. b } }) (record { apply = record { apply = λ b. b } })

reserve_funded-Keeps :
    (k : String) (g : Governor) (now : ℕ) (request : ReservationRequest) (repository : String)
    (n : ℕ) (take : List ReservationIntent) (ks : List String)
    → Keeps k g (reserve_funded g now request repository n take ks)
unfolding reserve_funded
reserve_funded-Keeps k g now request repository n take ks =
    if_intro (Keeps k g) (over_machine g now repository ks (sum_intents take))
      (refuse_machine-Keeps k g now request repository ks (sum_intents take))
      (if_intro (Keeps k g) (over_ceiling g now repository ks (sum_intents take))
        (refuse_ceiling-Keeps k g now request repository ks (sum_intents take))
        (grant-Keeps k g request repository n take ks))

reserve_slots-Keeps :
    (k : String) (g : Governor) (now : ℕ) (request : ReservationRequest) (repository : String)
    → Keeps k g (reserve_slots g now request repository)
unfolding reserve_slots
reserve_slots-Keeps k g now request repository =
    let take = take_first (grantable g request repository) request.intents in
    if_intro (Keeps k g) (not (is_empty (unseeded_repositories g)))
      (refuse-Keeps k g (seed_refusal g request) (sum_intents request.intents) repository)
      (if_intro (Keeps k g) (grantable g request repository == 0)
        (refuse-Keeps k g (slot_refusal g request repository) (sum_intents request.intents)
          repository)
        (reserve_funded-Keeps k g now request repository (grantable g request repository) take
          (superseded_keys (takes_over g.holds repository) take)))

known_or_seeded-Buries :
    (k : String) (g : Governor) (label : String)
    → has_text (repository_id_key label) g.tombstones ≡ false
    → Buries k g (known_or_seeded g label)
unfolding known_or_seeded
known_or_seeded-Buries k g label n =
    if_intro (Buries k g) (has_text (repository_id_key label) g.repos) standing (record {
      apply = λ b. (register-Buries k g label no_options (not_buried k g label b n)).apply b;
    })

expire_and_free-Buries : (k : String) (g : Governor) (now : ℕ) → Buries k g (expire_and_free g now)
unfolding expire_and_free expire
expire_and_free-Buries k g now =
    if_intro (Buries k g) (expire g now).1
      (freed-Buries (expire g now).0 now none (record { apply = λ b. b }))
      (record { apply = λ b. b })

reserve-Keeps :
    (k : String) (g : Governor) (now : ℕ) (request : ReservationRequest)
    → Keeps k g (reserve g now request)
unfolding reserve
reserve-Keeps k g now request =
    let label = request.repository in
    let known = known_or_seeded g label in
    option_split (Keeps k g) (repeated_key [] request.intents)
      (λ e.
        if_split (Keeps k g) (has_text (repository_id_key label) g.tombstones)
          (λ t. record { apply = standing })
          (λ n. record {
            apply = Buries-trans (known_or_seeded-Buries k g label n) (
                Buries-trans (expire_and_free-Buries k known now)
                  (reserve_slots-Keeps k (expire_and_free known now) now request
                    (repository_id_key label)).apply);
          }))
      (λ key e. record { apply = standing })

-- The call registers the repository of this key.
abbrev pub registers_key : String → Call → Bool
registers_key k (registers label opts) = text_eq (repository_id_key label) k
registers_key k _ = false

step-Buries :
    (k : String) (g : Governor) (now : ℕ) (c : Call)
    → registers_key k c ≡ false
    → Buries k g (step g (now, c))
unfolding step commit subscribe idle
step-Buries k g now (registers label opts) n = register-Buries k g label opts n
step-Buries k g now (unregisters label b) n = unregister-Buries k g now label b
step-Buries k g now (seeds label es) n = seed-Buries k g now label es
step-Buries k g now (begins_report label) n = report_begins-Buries k g label
step-Buries k g now (lands_report label as_of r) n = report_lands-Buries k g now label as_of r
step-Buries k g now (subscribes label w) n = record { apply = λ b. b }
step-Buries k g now (unsubscribes label w) n = unsubscribe-Buries k g label w
step-Buries k g now (reserves request) n = (reserve-Keeps k g now request).apply
step-Buries k g now (commits serial at) n = record { apply = λ b. b }
step-Buries k g now (releases serial cost) n = release-Buries k g now serial cost
step-Buries k g now (waits) n = record { apply = λ b. b }
step-Buries k g now (finishes_wake i) n = wake_finished-Buries k g now i
step-Buries k g now (ends_timer label) n = timer_ended-Buries k g now label

-- No call of the list registers the repository of this key.
abbrev pub Unregistering : String → List (ℕ × Call) → Type 0
Unregistering k = All (λ c. registers_key k c.1 ≡ false)

run-Buries :
    (k : String) (g : Governor) (cs : List (ℕ × Call)) → Unregistering k cs → Buries k g (run g cs)
unfolding run
run-Buries k g [] n = standing
run-Buries k g ((now, c) ∷ cs) n =
    Buries-trans (step-Buries k g now c n.0) (run-Buries k (step g (now, c)) cs n.1)

put_text-has {ℓ} :
    {V : Type ℓ} (k : String) (v : V) (m : List (String × V)) → has_text k (put_text k v m) ≡ true
put_text-has k v [] = rw ((eq_iff k k).1 refl) refl
put_text-has k v ((j, w) ∷ m) = ground (arith, put_text-has k v m)

unregister_buries :
    (g : Governor) (now : ℕ) (label : String) (b : Bool)
    → has_text (repository_id_key label) (unregister g now label b).tombstones ≡ true
unfolding bury
unregister_buries g now label b = (forgotten-Buries (repository_id_key label) g now label b).apply (
    put_text-has (repository_id_key label) (tombstone_of g label (repository_id_key label))
      g.tombstones)

buried_refused :
    (g : Governor) (now : ℕ) (request : ReservationRequest)
    → has_text (repository_id_key request.repository) g.tombstones ≡ true
    → ((key : String) × (reserve g now request
          ≡ (repeated (thrown_message key request.repository), g)))
      ⊎ ((r : GovernorRefusal) × (reserve g now request ≡ (granted_with [] (some r), g))
          × (r.limit ≡ unregistered))
unfolding reserve
buried_refused g now request b = elim (Option-cases (repeated_key [] request.intents)) [
  | inr (key, e) ↦ inl (key, rw (e, reserve) refl)
  | inl e ↦ inr (
    record (base_refusal g unregistered request) { names = names_for g (request.repository ∷ []) },
    rw (e, b, reserve) refl,
    refl,
  )
]

-- A repository that was unregistered is granted nothing, whatever calls follow, until one of them registers
-- it again: a request of it is refused as unregistered, or throws for a repeated key, and changes nothing.
pub stopped_gets_nothing :
    (g : Governor) (now : ℕ) (label : String) (is_uncounted : Bool) (cs : List (ℕ × Call))
    (later : ℕ) (request : ReservationRequest)
    → Unregistering (repository_id_key label) cs
    → repository_id_key request.repository ≡ repository_id_key label
    → let h = run (unregister g now label is_uncounted) cs in
      ((key : String) × (reserve h later request
          ≡ (repeated (thrown_message key request.repository), h)))
      ⊎ ((r : GovernorRefusal) × (reserve h later request ≡ (granted_with [] (some r), h))
          × (r.limit ≡ unregistered))
stopped_gets_nothing g now label is_uncounted cs later request n e =
    buried_refused (run (unregister g now label is_uncounted) cs) later request (
      rw e (
        (run-Buries (repository_id_key label) (unregister g now label is_uncounted) cs n).apply
          (unregister_buries g now label is_uncounted)))
