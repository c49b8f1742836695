-- ===== src/Orchestrator/Governor/Calls.antt =====
-- The other calls of packages/orchestrator/src/governor.ts, the events that follow them, and runs of both.
-- The clock does not move within a call.
pub mod Slots
pub mod Capacity
pub mod Tombstones
pub mod Stopping
pub mod Keeping
pub mod Soundness
use gateline.Prelude.{
  ℕ, suc, ◌+◌, ◌-◌, ℤ, pos, ltb_ℤ, String, Bool, true, not, ◌&&◌, Option, none, some, List, [], ◌∷◌,
  ◌++◌, ◌==◌, or_else, if◌then◌else◌, filter_by, any, lookup_text, put_text, map, find_by,
}
use gateline.Orchestrator.Governor.{
  SpendReport, SeedEntry, RegisterOptions, GovernorConfig, RepoState, Slot, Governor,
  ReservationRequest, repository_id_key, spend_window,
}
use gateline.Orchestrator.Governor.Spend.{prune_settled}
use gateline.Orchestrator.Governor.Waking.{freed, wake_finished, timer_ended}
use gateline.Orchestrator.Governor.Reserving.{reserve}
use gateline.Orchestrator.Governor.Registering.{register}
use gateline.Orchestrator.Governor.Leaving.{unregister}
use gateline.Orchestrator.Governor.Reporting.{seed, report_begins, report_lands}

-- `new Governor(cfg)`.
abbrev pub empty_governor : GovernorConfig → Governor
empty_governor cfg = record {
  cfg = cfg;
  repos = [];
  live = [];
  holds = [];
  waiters = [];
  offers = [];
  subscribers = [];
  last_served = none;
  outstanding = 0;
  sent = [];
  idle_waiters = 0;
  seq = 0;
  serials = 0;
  last_wake = [];
  wake_timers = [];
  retired = [];
  tombstones = [];
  uncounted_keys = [];
}

unfoldable pub register_all : List (String × RegisterOptions) → Governor → Governor
unfolding register
register_all [] g = g
register_all ((label, opts) ∷ rest) g = register_all rest (register g label opts)

unfoldable pub new_governor : GovernorConfig → Governor
unfolding register_all
new_governor cfg = register_all cfg.repositories (empty_governor cfg)

abbrev pub without : ℕ → List ℕ → List ℕ
without w = filter_by (λ v. not (v == w))

abbrev pub with_wake : ℕ → List ℕ → List ℕ
with_wake w ws = if any (λ v. v == w) ws then ws else ws ++ w ∷ []

-- `subscribe`, and the function that it returns; a number stands for the callback.
unfoldable pub subscribe : Governor → String → ℕ → Governor
subscribe g label wake =
    let repository = repository_id_key label in
    let wakes = or_else (lookup_text repository g.subscribers) [] in
    record g { subscribers = put_text repository (with_wake wake wakes) g.subscribers }

unfoldable pub unsubscribe : Governor → String → ℕ → Governor
unsubscribe g label wake =
    let repository = repository_id_key label in
    elim (lookup_text repository g.subscribers) [
      | none ↦ g
      | some wakes ↦ record g {
        subscribers = put_text repository (without wake wakes) g.subscribers;
      }
    ]

-- `slot.commit(ledgerAt)`.
abbrev pub commit_slot : ℕ → Option String → Slot → Slot
commit_slot serial at s =
    if s.serial == serial && not s.committed
    then record s { committed = true; ledger_at = at }
    else s

unfoldable pub commit : Governor → ℕ → Option String → Governor
commit g serial at = record g { live = map (commit_slot serial at) g.live }

-- A cost that is negative is no cost at all.
abbrev pub known_cost : Option ℤ → Option ℤ
known_cost none = none
known_cost (some c) = if ltb_ℤ c (pos 0) then none else some c

abbrev pub settle_repo : Governor → ℕ → Slot → Option ℤ → RepoState → RepoState
settle_repo g now slot cost r =
    let q = prune_settled (now - spend_window g) r in
    record q {
      settled =
          q.settled
          ++ record {
            key = slot.key;
            amount_usd = or_else cost slot.estimate_usd;
            seq = g.seq;
            settled_at = now;
            ledger_at = slot.ledger_at;
            kind = slot.kind;
          }
            ∷ [];
    }

abbrev pub drop_slot : Governor → Slot → Governor
drop_slot g slot = record g { live = filter_by (λ s. not (s.serial == slot.serial)) g.live }

-- The settlement of a slot that was committed.
unfoldable pub settle_slot : Governor → ℕ → Slot → Option ℤ → Governor
settle_slot g now slot cost = elim (lookup_text slot.repo_key g.repos) [
  | none ↦ g
  | some r ↦ record g {
    repos = put_text slot.repo_key (settle_repo g now slot cost r) g.repos;
    seq = suc g.seq;
  }
]

-- `released(slot, wasCommitted, costUsd)`.
unfoldable pub release_slot : Governor → ℕ → Slot → Option ℤ → Governor
unfolding settle_slot freed
release_slot g now slot cost =
    if slot.committed
    then freed (settle_slot (drop_slot g slot) now slot cost) now none
    else freed (drop_slot g slot) now (some slot.repo_key)

-- `slot.release(costUsd)`: a slot that is not live is released already.
unfoldable pub release : Governor → ℕ → ℕ → Option ℤ → Governor
unfolding release_slot
release g now serial cost = elim (find_by (λ s. s.serial == serial) g.live) [
  | none ↦ g
  | some slot ↦ release_slot g now slot (known_cost cost)
]

-- `idle()`: a caller waits until every wake sent has finished.
unfoldable pub idle : Governor → Governor
idle g = record g {
  idle_waiters = if g.outstanding == 0 then g.idle_waiters else suc g.idle_waiters;
}

pub data Call : Type 0 where
  registers : String → RegisterOptions → Call
  unregisters : String → Bool → Call
  seeds : String → List SeedEntry → Call
  begins_report : String → Call
  lands_report : String → ℕ → SpendReport → Call
  subscribes unsubscribes : String → ℕ → Call
  reserves : ReservationRequest → Call
  commits : ℕ → Option String → Call
  releases : ℕ → Option ℤ → Call
  waits : Call
  finishes_wake : ℕ → Call
  ends_timer : String → Call

unfoldable pub step : Governor → ℕ × Call → Governor
step g (now, registers label opts) = register g label opts
step g (now, unregisters label is_uncounted) = unregister g now label is_uncounted
step g (now, seeds label entries) = seed g now label entries
step g (now, begins_report label) = report_begins g label
step g (now, lands_report label as_of gathered) = report_lands g now label as_of gathered
step g (now, subscribes label wake) = subscribe g label wake
step g (now, unsubscribes label wake) = unsubscribe g label wake
step g (now, reserves request) = (reserve g now request).1
step g (now, commits serial at) = commit g serial at
step g (now, releases serial cost) = release g now serial cost
step g (now, waits) = idle g
step g (now, finishes_wake i) = wake_finished g now i
step g (now, ends_timer label) = timer_ended g now label

unfoldable pub run : Governor → List (ℕ × Call) → Governor
run g [] = g
run g (c ∷ cs) = run (step g c) cs
