-- ===== src/Orchestrator/Governor/Calls/Capacity.antt =====
-- The cap of packages/orchestrator/src/governor.ts: the slots after each call.
use gateline.Prelude.{
  Bool, true, false, refl, Option, ℤ, ℕ, ◌+◌, ◌≤◌, ◌<◌, ◌≡◌, arith, sym, length, List, [], ◌∷◌,
  String,
}
use gateline.Orchestrator.Governor.{
  SpendReport, SeedEntry, ReservationRequest, Governor, cap_of, RegisterOptions, GovernorConfig,
}
use gateline.Orchestrator.Governor.Registering.{register}
use gateline.Orchestrator.Governor.Reserving.Admission.{
  Fewer, Takes, takes_none, takes_some, Rests-Fewer, Fewer-trans, register-Rests, reserve-Takes,
  cap_of-cfg,
}
use gateline.Orchestrator.Governor.Calls.{
  Call, registers, unregisters, seeds, begins_report, lands_report, subscribes, unsubscribes,
  reserves, commits, releases, waits, finishes_wake, ends_timer, step, run, register_all,
  new_governor, empty_governor,
}
use gateline.Orchestrator.Governor.Calls.Slots.{
  Still, unchanged, register-Still, unregister-Fewer, report_begins-Still, commit-Still,
  report_lands-Rests, subscribe-Still, unsubscribe-Still, release-Frees, idle-Still,
  wake_finished-Still, timer_ended-Still, seed-Found,
}

-- The slots as the cap sees them: granted and not released, and held since the start.
pub record Desk : Type 0 where
  pub live : ℕ
  pub held : ℕ

abbrev pub desk : Governor → Desk
desk g = record { live = length g.live; held = length g.holds }

-- The calls that leave the slots alone.
abbrev pub is_still : Call → Bool
is_still (unregisters label b) = false
is_still (seeds label es) = false
is_still (lands_report label as_of r) = false
is_still (reserves request) = false
is_still (releases serial cost) = false
is_still _ = true

-- What each call may do to the slots.
pub data Admission (cap : ℕ) : Call → Desk → Desk → Type 0 where
  keeps :
      {c : Call} {v w : Desk}
      → is_still c ≡ true
      → w.live ≡ v.live
      → w.held ≡ v.held
      → Admission cap c v w
  gives_up :
      {serial : ℕ} {cost : Option ℤ} {v w : Desk}
      → w.live ≤ v.live
      → w.held ≡ v.held
      → Admission cap (releases serial cost) v w
  leaves :
      {label : String} {stopped : Bool} {v w : Desk}
      → w.live ≤ v.live
      → w.held ≤ v.held
      → Admission cap (unregisters label stopped) v w
  clears :
      {label : String} {as_of : ℕ} {gathered : SpendReport} {v w : Desk}
      → w.live ≡ v.live
      → w.held ≤ v.held
      → Admission cap (lands_report label as_of gathered) v w
  refuses :
      {request : ReservationRequest} {v w : Desk}
      → w.live ≡ v.live
      → w.held ≤ v.held
      → Admission cap (reserves request) v w
  admits :
      {request : ReservationRequest} {v w : Desk}
      → v.live < w.live
      → w.live ≤ v.live + length request.intents
      → w.held ≤ v.held
      → w.live + w.held ≤ cap
      → Admission cap (reserves request) v w
  finds :
      {label : String} {entries : List SeedEntry} {v w : Desk}
      → w.live ≡ v.live
      → v.held ≤ w.held
      → w.held ≤ v.held + length entries
      → Admission cap (seeds label entries) v w

record Admits (c : Call) (g h : Governor) : Type 0 where
  cfg : h.cfg ≡ g.cfg
  moves : Admission (cap_of g) c (desk g) (desk h)

Takes-Admits :
    {request : ReservationRequest} {g h : Governor}
    → Takes (cap_of g) (length request.intents) g h
    → Admits (reserves request) g h
Takes-Admits (takes_none f) = record { cfg = f.cfg; moves = refuses f.live f.held }
Takes-Admits (takes_some e l m s w) = record { cfg = e; moves = admits l m s w }

Still-Admits : {c : Call} {g h : Governor} → is_still c ≡ true → Still g h → Admits c g h
Still-Admits e f = record { cfg = f.cfg; moves = keeps e f.live f.held }

step-Admits : (g : Governor) (c : ℕ × Call) → 0 < cap_of g → Admits c.1 g (step g c)
unfolding step
step-Admits g (now, registers label opts) h = Still-Admits refl (register-Still g label opts)
step-Admits g (now, unregisters label b) h =
    let f = unregister-Fewer g now label b in record { cfg = f.cfg; moves = leaves f.live f.held }
step-Admits g (now, seeds label es) h =
    let f = seed-Found g now label es in record { cfg = f.cfg; moves = finds f.live f.held f.most }
step-Admits g (now, begins_report label) h = Still-Admits refl (report_begins-Still g label)
step-Admits g (now, lands_report label as_of r) h =
    let f = report_lands-Rests g now label as_of r in
    record { cfg = f.cfg; moves = clears f.live f.held }
step-Admits g (now, subscribes label wake) h = Still-Admits refl (subscribe-Still g label wake)
step-Admits g (now, unsubscribes label wake) h = Still-Admits refl (unsubscribe-Still g label wake)
step-Admits g (now, reserves request) h = Takes-Admits (reserve-Takes g now request h)
step-Admits g (now, commits serial at) h = Still-Admits refl (commit-Still g serial at)
step-Admits g (now, releases serial cost) h =
    let f = release-Frees g now serial cost in
    record { cfg = f.cfg; moves = gives_up f.live f.held }
step-Admits g (now, waits) h = Still-Admits refl (idle-Still g)
step-Admits g (now, finishes_wake i) h = Still-Admits refl (wake_finished-Still g now i)
step-Admits g (now, ends_timer label) h = Still-Admits refl (timer_ended-Still g now label)

-- Each call on a capped governor moves the slots as an abstract desk of them allows: a reservation leaves
-- those granted and takes no hold, or grants as many as it asks for at most, within the cap together with
-- the holds; a seed adds at most a hold for each entry and grants nothing; a report that lands drops
-- holds only; a release gives up granted slots only; an unregistration adds neither; and every other call
-- leaves the counts of both as they were.
pub step-Admission :
    (g : Governor) (c : ℕ × Call)
    → 0 < cap_of g
    → Admission (cap_of g) c.1 (desk g) (desk (step g c))
step-Admission g c h = (step-Admits g c h).moves

bounded_step : {cap : ℕ} {c : Call} {v w : Desk} → Admission cap c v w → v.live ≤ cap → w.live ≤ cap
bounded_step (keeps e l s) h = omega (arith, l, h)
bounded_step (gives_up l s) h = omega (arith, l, h)
bounded_step (leaves l s) h = omega (arith, l, h)
bounded_step (clears l s) h = omega (arith, l, h)
bounded_step (refuses l s) h = omega (arith, l, h)
bounded_step (admits l m s w) h = omega (arith, w)
bounded_step (finds l s m) h = omega (arith, l, h)

run-live :
    (g : Governor) (cs : List (ℕ × Call))
    → 0 < cap_of g
    → length g.live ≤ cap_of g
    → length (run g cs).live ≤ cap_of g
unfolding run
run-live g [] h b = b
run-live g (c ∷ cs) h b =
    let a = step-Admits g c h in
    let same = cap_of-cfg g (step g c) a.cfg in
    rw (sym same) (run-live (step g c) cs (rw same h) (rw same (bounded_step a.moves b)))

register_all-Fewer :
    (rs : List (String × RegisterOptions)) (g : Governor) → Fewer g (register_all rs g)
unfolding register_all
register_all-Fewer [] g = unchanged
register_all-Fewer ((label, opts) ∷ rs) g =
    Fewer-trans (Rests-Fewer (register-Rests g label opts))
      (register_all-Fewer rs (register g label opts))

-- Whatever calls a capped governor receives, no more slots are granted and not released than its cap.
pub run-live_bounded :
    (cfg : GovernorConfig) (cs : List (ℕ × Call))
    → 0 < cap_of (new_governor cfg)
    → length (run (new_governor cfg) cs).live ≤ cap_of (new_governor cfg)
unfolding new_governor
run-live_bounded cfg cs h =
    let f = register_all-Fewer cfg.repositories (empty_governor cfg) in
    run-live (register_all cfg.repositories (empty_governor cfg)) cs h (omega (arith, f.live))
