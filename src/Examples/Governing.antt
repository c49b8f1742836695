-- ===== src/Examples/Governing.antt =====
-- The governor of packages/orchestrator/src/governor.ts, on samples.
use gateline.Prelude.{
  ℕ, ◌+◌, ◌≤◌, ◌≡◌, ◌⊎◌, refl, pos, negsuc, String, true, false, none, some, [], ◌∷◌, List, length,
  arith,
}
use gateline.Orchestrator.Governor.Waking.{freed, offered_slots}
use gateline.Orchestrator.Governor.Waking.Offers.{freed_promises_within}
use gateline.Orchestrator.Governor.Reserving.Turns.{NotForSlot, offer_honoured}
use gateline.Orchestrator.Governor.Calls.Soundness.{run-Solvent}
use gateline.Orchestrator.Governor.{
  concurrency, occupied_slots, unseeded_repositories, GovernorConfig, Governor, GovernorRefusal,
  RepoState, ReservationIntent, ReservationRequest, dispatched, unregistered, repository_id_key,
  cap_of, enforcing,
}
use gateline.Orchestrator.Governor.Reserving.{
  granted_with, repeated, thrown_message, reserve, reserve_slots,
}
use gateline.Orchestrator.Governor.Registering.{no_options, register}
use gateline.Orchestrator.Governor.Reserving.Solvency.{Sound}
use gateline.Orchestrator.Governor.Reserving.Limits.{Solvent, reserve-Solvent}
use gateline.Orchestrator.Governor.Calls.{
  Call, seeds, reserves, commits, releases, empty_governor, register_all, new_governor, step, run,
}
use gateline.Orchestrator.Governor.Leaving.{unregister}
use gateline.Orchestrator.Governor.Calls.Capacity.{
  Admission, desk, step-Admission, run-live_bounded,
}
use gateline.Orchestrator.Governor.Calls.Stopping.{stopped_gets_nothing}

-- Two slots, and 10 dollars in the window.
abbrev limits : GovernorConfig
limits = record {
  max_concurrent_dispatches = some 2;
  spend_limit_usd = some (pos 10000000);
  spend_window_ms = none;
  budget_enforcement = none;
  repositories = ("Host/Billing", no_options) ∷ [];
  offer_ttl_ms = none;
  min_wake_interval_ms = none;
}

abbrev billing : RepoState
billing = record {
  label = "Host/Billing";
  spend_limit_usd = none;
  display_name = none;
  seeded = true;
  report = none;
  report_seq = negsuc 0;
  settled = [];
}

-- Billing has seeded; a role that was launched before the start still holds a slot.
abbrev started : Governor
started = record (empty_governor limits) {
  repos = ("host/billing", billing) ∷ [];
  holds =
      record {
        repository = "host/billing";
        key = "run-1|implementer";
        estimate_usd = pos 3000000;
        expires_at = 5000;
        kind = dispatched;
      }
      ∷ [];
}

abbrev intent : String → ReservationIntent
intent key = record { key = key; estimate_usd = pos 4000000; kind = none }

abbrev request : ReservationRequest
request = record {
  repository = "Host/Billing";
  intents = intent "run-1|implementer" ∷ intent "run-2|planner" ∷ [];
}

step-Admission_example :
    Admission
      (cap_of started)
      (reserves request)
      (desk started)
      (desk (step started (1000, reserves request)))
unfolding cap_of
step-Admission_example = step-Admission started (1000, reserves request) (omega arith)

abbrev history : List (ℕ × Call)
history =
    (0, seeds "host/billing" [])
    ∷ (1000, reserves request)
    ∷ (2000, commits 0 (some "t"))
    ∷ (3000, releases 0 none)
    ∷ (4000, reserves request)
    ∷ []

run-live_bounded_example :
    length (run (new_governor limits) history).live ≤ cap_of (new_governor limits)
unfolding cap_of new_governor register_all register repository_id_key
run-live_bounded_example = run-live_bounded limits history (omega arith)

-- Billing is unregistered at 2000, and reports and asks again.
stopped_gets_nothing_example :
    let h =
      run (unregister started 2000 "host/billing" false) ((2500, seeds "HOST/BILLING" []) ∷ []) in
    ((key : String) × (reserve h 3000 request ≡ (repeated (thrown_message key "Host/Billing"), h)))
    ⊎ ((r : GovernorRefusal) × (reserve h 3000 request ≡ (granted_with [] (some r), h))
        × (r.limit ≡ unregistered))
unfolding repository_id_key
stopped_gets_nothing_example =
    stopped_gets_nothing started 2000 "host/billing" false ((2500, seeds "HOST/BILLING" []) ∷ [])
      3000 request (refl, tt) refl

started-Sound : Sound started
unfolding repository_id_key
started-Sound = record {
  once = (refl, tt);
  repos = ((refl, tt), tt);
  holds = (omega arith, tt);
  live = tt;
}

reserve-Solvent_example : Solvent (pos 10000000) 1000 (reserve started 1000 request)
unfolding enforcing
reserve-Solvent_example =
    reserve-Solvent started 1000 request (pos 10000000) started-Sound
      (omega arith, (omega arith, tt)) refl refl

run-Solvent_example :
    Solvent (pos 10000000) 5000 (reserve (run (new_governor limits) history) 5000 request)
unfolding enforcing new_governor register_all register
run-Solvent_example =
    run-Solvent limits history 5000 request (pos 10000000)
      (tt, ((omega arith, (omega arith, tt)), (tt, (tt, ((omega arith, (omega arith, tt)), tt)))))
      (omega arith, (omega arith, tt)) refl refl

-- One slot is held, and the other is offered to billing.
abbrev offered : Governor
offered = record started {
  waiters = ("host/payroll", record { limit = concurrency; requested_usd = pos 1000000 }) ∷ [];
  offers = ("host/billing", record { serial = 0; slots = 1; expires_at = 9000 }) ∷ [];
}

freed_promises_within_example :
    occupied_slots (freed offered 1000 none) + offered_slots (freed offered 1000 none)
    ≤ cap_of offered
unfolding cap_of occupied_slots offered_slots
freed_promises_within_example = freed_promises_within offered 1000 none (omega arith) (omega arith)

offer_honoured_example : NotForSlot (reserve_slots offered 1000 request "host/billing")
unfolding cap_of occupied_slots offered_slots unseeded_repositories
offer_honoured_example =
    offer_honoured offered 1000 request "host/billing"
      (record { serial = 0; slots = 1; expires_at = 9000 }) refl (omega arith) refl (omega arith)
      (omega arith) (omega arith)
