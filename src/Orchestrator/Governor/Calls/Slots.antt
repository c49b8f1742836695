-- ===== src/Orchestrator/Governor/Calls/Slots.antt =====
-- What each call of packages/orchestrator/src/governor.ts but `reserve` does to the slots.
use gateline.Prelude.{
  suc, ◌+◌, ℕ, ◌≤◌, ◌≡◌, refl, arith, ◌∙◌, ap, length, List, [], ◌∷◌, String, Option, none, some,
  Bool, not, has_text, ℤ, lookup_text, any, if_intro, option_split, map, find_by, get_elem?, ◌==◌,
  mem_text, ◌||◌, ltb_ℤ, pos, leb, if◌then◌else◌,
}
use gateline.Orchestrator.Governor.{
  RegisterOptions, Governor, SeedEntry, SpendReport, RepoState, Slot, Wake, Hold, repository_id_key,
}
use gateline.Orchestrator.Governor.Spend.{expire}
use gateline.Orchestrator.Governor.Waking.{
  freed, wake_finished, timer_ended, give_back, end_wake, end_timer, drop_offer, still_offered,
}
use gateline.Orchestrator.Governor.Waking.Quiet.{Quiet, settle_idle-Quiet, freed-Quiet}
use gateline.Orchestrator.Governor.Registering.{register, no_options}
use gateline.Orchestrator.Governor.Reserving.Holds.{length-filter_by}
use gateline.Orchestrator.Governor.Reserving.Admission.{
  Rests, Rests-trans, Fewer, Rests-Fewer, Quiet-Rests, Fewer-trans, freed-Fewer, expire-Rests,
}
use gateline.Orchestrator.Governor.Calls.{
  subscribe, unsubscribe, commit, commit_slot, release, release_slot, settle_slot, drop_slot, idle,
  known_cost,
}
use gateline.Orchestrator.Governor.Reporting.{
  seed, seed_holds, plant, put_hold, hold_of, expiry, seeded_before, report_begins, report_lands,
  land_report, keep_report, cleared, merge_report,
}
use gateline.Orchestrator.Governor.Leaving.{unregister, bury, forget}

-- What a seed of so many entries does: it may add a hold for each, and no more.
pub record Found (n : ℕ) (g h : Governor) : Type 0 where
  pub cfg : h.cfg ≡ g.cfg
  pub live : length h.live ≡ length g.live
  pub held : length g.holds ≤ length h.holds
  pub most : length h.holds ≤ length g.holds + n

-- What a call does that leaves the slots alone.
pub record Still (g h : Governor) : Type 0 where
  pub cfg : h.cfg ≡ g.cfg
  pub live : length h.live ≡ length g.live
  pub held : length h.holds ≡ length g.holds

Still-trans : {g h k : Governor} → Still g h → Still h k → Still g k
Still-trans p q = record { cfg = q.cfg ∙ p.cfg; live = q.live ∙ p.live; held = q.held ∙ p.held }

Quiet-Still : {g h : Governor} → Quiet g h → Still g h
Quiet-Still q = record { cfg = q.cfg; live = ap length q.live; held = ap length q.holds }

freed-Still :
    {g : Governor} (h : Governor) (now : ℕ) (exclude : Option String)
    → Still g h
    → Still g (freed h now exclude)
freed-Still h now exclude f = Still-trans f (Quiet-Still (freed-Quiet h now exclude))

pub register-Still :
    (g : Governor) (label : String) (opts : RegisterOptions) → Still g (register g label opts)
unfolding register
register-Still g label opts = record { cfg = refl; live = refl; held = refl }

abbrev resting : {g : Governor} → Rests g g
resting = record { cfg = refl; live = refl; held = omega arith }

abbrev pub unchanged : {g : Governor} → Fewer g g
unchanged = record { cfg = refl; live = omega arith; held = omega arith }

forget-Fewer : (g : Governor) (now : ℕ) (repository : String) → Fewer g (forget g now repository)
unfolding forget
forget-Fewer g now repository = record {
  cfg = refl;
  live = length-filter_by _ g.live;
  held = length-filter_by _ g.holds;
}

bury-Fewer : (g : Governor) (label : String) (b : Bool) → Fewer g (bury g label b)
unfolding bury
bury-Fewer g label b = record { cfg = refl; live = omega arith; held = omega arith }

pub unregister-Fewer :
    (g : Governor) (now : ℕ) (label : String) (b : Bool) → Fewer g (unregister g now label b)
unfolding unregister
unregister-Fewer g now label b =
    if_intro (Fewer g) (not (has_text (repository_id_key label) g.repos)) (bury-Fewer g label b) (
      freed-Fewer _ now none (
        Fewer-trans
          (Fewer-trans (bury-Fewer g label b) (forget-Fewer _ now (repository_id_key label)))
          (Rests-Fewer (Quiet-Rests (settle_idle-Quiet _)))))

pub report_begins-Still : (g : Governor) (label : String) → Still g (report_begins g label)
unfolding report_begins register
report_begins-Still g label =
    if_intro (Still g) (has_text (repository_id_key label) g.tombstones)
      (record { cfg = refl; live = refl; held = refl })
      (record { cfg = refl; live = refl; held = refl })

length-map : (f : Slot → Slot) (xs : List Slot) → length (map f xs) ≡ length xs
length-map f [] = refl
length-map f (x ∷ xs) = ap suc (length-map f xs)

pub commit-Still : (g : Governor) (serial : ℕ) (at : Option String) → Still g (commit g serial at)
unfolding commit
commit-Still g serial at = record {
  cfg = refl;
  live = length-map (commit_slot serial at) g.live;
  held = refl;
}

keep_report-Rests :
    (g : Governor) (repository : String) (repo : RepoState) (as_of : ℕ) (gathered : SpendReport)
    → Rests g (keep_report g repository repo as_of gathered)
unfolding keep_report
keep_report-Rests g repository repo as_of gathered = record {
  cfg = refl;
  live = refl;
  held = length-filter_by _ g.holds;
}

land_report-Rests :
    (g : Governor) (now : ℕ) (repository : String) (repo : RepoState) (as_of : ℕ)
    (gathered : SpendReport)
    → Rests g (land_report g now repository repo as_of gathered)
unfolding land_report
land_report-Rests g now repository repo as_of gathered =
    if_intro (Rests g)
      ((expire (keep_report g repository repo as_of gathered) now).1
        || any (cleared repository (merge_report gathered repo.report)) g.holds)
      (Rests-trans expired (Quiet-Rests (freed-Quiet _ now none))) expired
  where
    expired : Rests g (expire (keep_report g repository repo as_of gathered) now).0
    expired =
        Rests-trans (keep_report-Rests g repository repo as_of gathered)
          (expire-Rests (keep_report g repository repo as_of gathered) now)

pub report_lands-Rests :
    (g : Governor) (now : ℕ) (label : String) (as_of : ℕ) (gathered : SpendReport)
    → Rests g (report_lands g now label as_of gathered)
unfolding report_lands
report_lands-Rests g now label as_of gathered =
    option_split (Rests g) (lookup_text (repository_id_key label) g.repos) (λ e. resting)
      λ repo e.
        if_intro (Rests g)
          (has_text (repository_id_key label) g.tombstones || ltb_ℤ (pos as_of) repo.report_seq)
          resting (land_report-Rests g now (repository_id_key label) repo as_of gathered)

pub subscribe-Still : (g : Governor) (label : String) (wake : ℕ) → Still g (subscribe g label wake)
unfolding subscribe
subscribe-Still g label wake = record { cfg = refl; live = refl; held = refl }

pub unsubscribe-Still :
    (g : Governor) (label : String) (wake : ℕ) → Still g (unsubscribe g label wake)
unfolding unsubscribe
unsubscribe-Still g label wake =
    option_split (Still g) (lookup_text (repository_id_key label) g.subscribers)
      (λ e. record { cfg = refl; live = refl; held = refl })
      λ wakes e. record { cfg = refl; live = refl; held = refl }

-- What a release does: it gives up slots, and leaves the holds.
pub record Frees (g h : Governor) : Type 0 where
  pub cfg : h.cfg ≡ g.cfg
  pub live : length h.live ≤ length g.live
  pub held : length h.holds ≡ length g.holds

Frees-trans : {g h k : Governor} → Frees g h → Frees h k → Frees g k
Frees-trans p q = record {
  cfg = q.cfg ∙ p.cfg;
  live = omega (arith, p.live, q.live);
  held = q.held ∙ p.held;
}

freed-Frees :
    {g : Governor} (h : Governor) (now : ℕ) (exclude : Option String)
    → Frees g h
    → Frees g (freed h now exclude)
freed-Frees h now exclude f =
    let q = freed-Quiet h now exclude in
    Frees-trans f (record { cfg = q.cfg; live = rw q.live (omega arith); held = ap length q.holds })

drop_slot-Frees : (g : Governor) (slot : Slot) → Frees g (drop_slot g slot)
drop_slot-Frees g slot = record { cfg = refl; live = length-filter_by _ g.live; held = refl }

settle_slot-Frees :
    (g : Governor) (now : ℕ) (slot : Slot) (cost : Option ℤ) → Frees g (settle_slot g now slot cost)
unfolding settle_slot
settle_slot-Frees g now slot cost =
    option_split (Frees g) (lookup_text slot.repo_key g.repos)
      (λ e. (record { cfg = refl; live = omega arith; held = refl }))
      λ r e. record { cfg = refl; live = omega arith; held = refl }

release_slot-Frees :
    (g : Governor) (now : ℕ) (slot : Slot) (cost : Option ℤ)
    → Frees g (release_slot g now slot cost)
unfolding release_slot
release_slot-Frees g now slot cost =
    if_intro (Frees g) slot.committed
      (freed-Frees (settle_slot (drop_slot g slot) now slot cost) now none
        (Frees-trans (drop_slot-Frees g slot) (settle_slot-Frees (drop_slot g slot) now slot cost)))
      (freed-Frees (drop_slot g slot) now (some slot.repo_key) (drop_slot-Frees g slot))

pub release-Frees :
    (g : Governor) (now serial : ℕ) (cost : Option ℤ) → Frees g (release g now serial cost)
unfolding release
release-Frees g now serial cost =
    option_split (Frees g) (find_by (λ s. s.serial == serial) g.live)
      (λ e. (record { cfg = refl; live = omega arith; held = refl }))
      λ slot e. release_slot-Frees g now slot (known_cost cost)

pub idle-Still : (g : Governor) → Still g (idle g)
unfolding idle
idle-Still g = record { cfg = refl; live = refl; held = refl }

give_back-Still : (g : Governor) (now : ℕ) (w : Wake) → Still g (give_back g now w)
unfolding give_back
give_back-Still g now w =
    if_intro (Still g) (still_offered g w)
      (freed-Still (drop_offer g w.repository) now none
        (record { cfg = refl; live = refl; held = refl }))
      (record { cfg = refl; live = refl; held = refl })

pub wake_finished-Still : (g : Governor) (now i : ℕ) → Still g (wake_finished g now i)
unfolding wake_finished
wake_finished-Still g now i =
    option_split (Still g) (get_elem? g.sent i)
      (λ e. record { cfg = refl; live = refl; held = refl })
      λ w e.
        Still-trans (record { cfg = refl; live = refl; held = refl })
          (Still-trans (give_back-Still (end_wake g i) now w)
            ((Quiet-Still (settle_idle-Quiet (give_back (end_wake g i) now w)))))

pub timer_ended-Still :
    (g : Governor) (now : ℕ) (label : String) → Still g (timer_ended g now label)
unfolding timer_ended
timer_ended-Still g now label =
    if_intro (Still g) (not (mem_text label g.wake_timers))
      (record { cfg = refl; live = refl; held = refl })
      (Still-trans
        (freed-Still (end_timer g label) now none (record { cfg = refl; live = refl; held = refl }))
        ((Quiet-Still (settle_idle-Quiet (freed (end_timer g label) now none)))))

length-put_hold :
    (h : Hold) (hs : List Hold)
    → (length hs ≤ length (put_hold h hs)) × (length (put_hold h hs) ≤ suc (length hs))
unfolding put_hold
length-put_hold h [] = (omega arith, omega arith)
length-put_hold h (j ∷ hs) = ground (arith, length-put_hold h hs)

length-seed_holds :
    (now : ℕ) (repository : String) (es : List SeedEntry) (hs : List Hold)
    → (length hs ≤ length (seed_holds now repository es hs))
      × (length (seed_holds now repository es hs) ≤ length hs + length es)
unfolding seed_holds
length-seed_holds now repository [] hs = (omega arith, omega arith)
length-seed_holds now repository (e ∷ es) hs =
    let first = if leb (expiry now e) now then hs else put_hold (hold_of now repository e) hs in
    let rest = length-seed_holds now repository es first in
    (omega (arith, rest.0, kept.0), omega (arith, rest.1, kept.1))
  where
    kept :
        (length hs
          ≤ length (if leb (expiry now e) now then hs else put_hold (hold_of now repository e) hs))
        × (length (if leb (expiry now e) now then hs else put_hold (hold_of now repository e) hs)
            ≤ suc (length hs))
    kept = ground (arith, length-put_hold (hold_of now repository e) hs)

Found-freed :
    {n : ℕ} {g : Governor} (h : Governor) (now : ℕ) → Found n g h → Found n g (freed h now none)
Found-freed h now f =
    let q = freed-Quiet h now none in
    record {
      cfg = q.cfg ∙ f.cfg;
      live = ap length q.live ∙ f.live;
      held = rw q.holds f.held;
      most = rw q.holds f.most;
    }

pub seed-Found :
    (g : Governor) (now : ℕ) (label : String) (es : List SeedEntry)
    → Found (length es) g (seed g now label es)
unfolding seed plant register
seed-Found g now label es =
    if_intro (Found (length es) g) (has_text (repository_id_key label) g.tombstones)
      (record { cfg = refl; live = refl; held = omega arith; most = omega arith })
      (if_intro (Found (length es) g)
        (seeded_before (lookup_text (repository_id_key label) (register g label no_options).repos))
        seeded (Found-freed _ now seeded))
  where
    seeded : Found (length es) g (plant g now label es)
    seeded =
        let found = length-seed_holds now (repository_id_key label) es g.holds in
        record { cfg = refl; live = refl; held = found.0; most = found.1 }
