-- ===== src/Orchestrator/Governor/Calls/Keeping.antt =====
-- What the spend window of packages/orchestrator/src/governor.ts relies on, kept by each call but `reserve`.
use gateline.Prelude.{
  ℕ, ◌≡◌, String, Bool, not, ◌&&◌, ◌||◌, Option, none, some, List, [], ◌∷◌, ℤ, All, All-append, any,
  ltb_ℤ, pos, leb, has_text, lookup_text, mem_text, map, filter_by, find_by, get_elem?, if_intro,
  option_split, ◌==◌,
}
use gateline.Orchestrator.Governor.{
  Governor, SeedEntry, SpendReport, OpenEntry, RepoState, Slot, Hold, repository_id_key,
}
use gateline.Orchestrator.Governor.Spend.{expire, report_open, is_sweep}
use gateline.Orchestrator.Governor.Spend.Sums.{NonNegative, put-Unique, filter-Unique}
use gateline.Orchestrator.Governor.Waking.{
  settle_idle, freed, wake_finished, timer_ended, still_offered, give_back, end_wake, end_timer,
  drop_offer,
}
use gateline.Orchestrator.Governor.Waking.Quiet.{settle_idle-Quiet, freed-Quiet}
use gateline.Orchestrator.Governor.Counting.{is_hold}
use gateline.Orchestrator.Governor.Registering.{register, no_options}
use gateline.Orchestrator.Governor.Reserving.Solvency.{Sound, RepoSound}
use gateline.Orchestrator.Governor.Reserving.Upkeep.{
  All-keep, Quiet-Sound, mark-Unique, mark-Sound, put-Sound, expire-Sound, found-RepoSound,
  register-Sound,
}
use gateline.Orchestrator.Governor.Calls.{
  subscribe, unsubscribe, commit, commit_slot, release, release_slot, settle_slot, settle_repo,
  drop_slot, idle, known_cost,
}
use gateline.Orchestrator.Governor.Reporting.{
  seed, plant, seed_holds, put_hold, hold_of, expiry, seeded_before, report_begins, report_lands,
  land_report, keep_report, apply_report, cleared, merge_report,
}
use gateline.Orchestrator.Governor.Leaving.{unregister, bury, forget}

freed-Sound :
    (g : Governor) (now : ℕ) (exclude : Option String) → Sound g → Sound (freed g now exclude)
freed-Sound g now exclude s = Quiet-Sound (freed-Quiet g now exclude) s

settle_idle-Sound : (g : Governor) → Sound g → Sound (settle_idle g)
settle_idle-Sound g s = Quiet-Sound (settle_idle-Quiet g) s

bury-Sound : (g : Governor) (label : String) (b : Bool) → Sound g → Sound (bury g label b)
unfolding bury
bury-Sound g label b s = record { once = s.once; repos = s.repos; holds = s.holds; live = s.live }

forget-Sound :
    (g : Governor) (now : ℕ) (repository : String) → Sound g → Sound (forget g now repository)
unfolding forget
forget-Sound g now repository s = record {
  once = filter-Unique _ g.repos s.once;
  repos = All-keep RepoSound _ g.repos s.repos;
  holds = All-keep _ _ g.holds s.holds;
  live = All-keep _ _ g.live s.live;
}

pub unregister-Sound :
    (g : Governor) (now : ℕ) (label : String) (b : Bool)
    → Sound g
    → Sound (unregister g now label b)
unfolding unregister
unregister-Sound g now label b s =
    let forgotten =
      forget-Sound (bury g label b) now (repository_id_key label) (bury-Sound g label b s) in
    if_intro Sound (not (has_text (repository_id_key label) g.repos)) (bury-Sound g label b s)
      (freed-Sound _ now none (settle_idle-Sound _ forgotten))

put_hold-All :
    (h : Hold) (hs : List Hold)
    → NonNegative h.estimate_usd
    → All (λ j. NonNegative j.estimate_usd) hs
    → All (λ j. NonNegative j.estimate_usd) (put_hold h hs)
unfolding put_hold
put_hold-All h [] n a = (n, tt)
put_hold-All h (j ∷ hs) n a =
    if_intro (All (λ (j : Hold). NonNegative j.estimate_usd)) (is_hold h.repository h.key j)
      (n, a.1) (a.0, put_hold-All h hs n a.1)

seed_holds-All :
    (now : ℕ) (repository : String) (es : List SeedEntry) (hs : List Hold)
    → All (λ e. NonNegative e.estimate_usd) es
    → All (λ j. NonNegative j.estimate_usd) hs
    → All (λ j. NonNegative j.estimate_usd) (seed_holds now repository es hs)
unfolding seed_holds
seed_holds-All now repository [] hs c a = a
seed_holds-All now repository (e ∷ es) hs c a = seed_holds-All now repository es _ c.1 (
    if_intro (All (λ (j : Hold). NonNegative j.estimate_usd)) (leb (expiry now e) now) a
      (put_hold-All (hold_of now repository e) hs c.0 a))

plant-Sound :
    (g : Governor) (now : ℕ) (label : String) (es : List SeedEntry)
    → All (λ e. NonNegative e.estimate_usd) es
    → Sound g
    → Sound (plant g now label es)
unfolding plant
plant-Sound g now label es c s =
    let r = register-Sound g label no_options s in
    record {
      once = mark-Unique (repository_id_key label) (register g label no_options).repos r.once;
      repos = mark-Sound (repository_id_key label) (register g label no_options).repos r.repos;
      holds =
          seed_holds-All now (repository_id_key label) es (register g label no_options).holds c
            r.holds;
      live = r.live;
    }

pub seed-Sound :
    (g : Governor) (now : ℕ) (label : String) (es : List SeedEntry)
    → All (λ e. NonNegative e.estimate_usd) es
    → Sound g
    → Sound (seed g now label es)
unfolding seed
seed-Sound g now label es c s =
    let planted = plant-Sound g now label es c s in
    if_intro Sound (has_text (repository_id_key label) g.tombstones) s (
      if_intro Sound
        (seeded_before (lookup_text (repository_id_key label) (register g label no_options).repos))
        planted (freed-Sound (plant g now label es) now none planted))

pub report_begins-Sound : (g : Governor) (label : String) → Sound g → Sound (report_begins g label)
unfolding report_begins
report_begins-Sound g label s =
    let r = register-Sound g label no_options s in
    if_intro Sound (has_text (repository_id_key label) g.tombstones) s
      (record { once = r.once; repos = r.repos; holds = r.holds; live = r.live })

merge_report-All :
    (gathered : SpendReport) (o : Option SpendReport)
    → All (λ e. NonNegative e.estimate_usd) gathered.open_entries
    → All (λ e. NonNegative e.estimate_usd) (report_open o)
    → All (λ e. NonNegative e.estimate_usd) (merge_report gathered o).open_entries
unfolding merge_report
merge_report-All gathered none a b = a
merge_report-All gathered (some old) a b =
    if_intro (λ (r : SpendReport). All (λ e. NonNegative e.estimate_usd) r.open_entries)
      gathered.sweeps_read a
      (All-append (λ (e : OpenEntry). NonNegative e.estimate_usd)
        (filter_by (λ e. not (is_sweep e.kind)) gathered.open_entries)
        (filter_by (λ e. is_sweep e.kind) old.open_entries)
        (All-keep (λ (e : OpenEntry). NonNegative e.estimate_usd) _ gathered.open_entries a)
        (All-keep (λ (e : OpenEntry). NonNegative e.estimate_usd) _ old.open_entries b))

keep_report-Sound :
    (g : Governor) (repository : String) (repo : RepoState) (as_of : ℕ) (gathered : SpendReport)
    → All (λ e. NonNegative e.estimate_usd) gathered.open_entries
    → lookup_text repository g.repos ≡ some repo
    → Sound g
    → Sound (keep_report g repository repo as_of gathered)
unfolding keep_report apply_report
keep_report-Sound g repository repo as_of gathered c e s =
    let found = found-RepoSound repository g.repos repo s.repos e in
    record {
      once = put-Unique repository (apply_report gathered as_of repo) g.repos s.once;
      repos =
          put-Sound repository (apply_report gathered as_of repo) g.repos
            (found.0, merge_report-All gathered repo.report c found.1) s.repos;
      holds = All-keep _ _ g.holds s.holds;
      live = s.live;
    }

land_report-Sound :
    (g : Governor) (now : ℕ) (repository : String) (repo : RepoState) (as_of : ℕ)
    (gathered : SpendReport)
    → All (λ e. NonNegative e.estimate_usd) gathered.open_entries
    → lookup_text repository g.repos ≡ some repo
    → Sound g
    → Sound (land_report g now repository repo as_of gathered)
unfolding land_report
land_report-Sound g now repository repo as_of gathered c e s =
    let expired =
      expire-Sound (keep_report g repository repo as_of gathered) now
        (keep_report-Sound g repository repo as_of gathered c e s) in
    if_intro Sound
      ((expire (keep_report g repository repo as_of gathered) now).1
        || any (cleared repository (merge_report gathered repo.report)) g.holds)
      (freed-Sound (expire (keep_report g repository repo as_of gathered) now).0 now none expired)
      expired

pub report_lands-Sound :
    (g : Governor) (now : ℕ) (label : String) (as_of : ℕ) (gathered : SpendReport)
    → All (λ e. NonNegative e.estimate_usd) gathered.open_entries
    → Sound g
    → Sound (report_lands g now label as_of gathered)
unfolding report_lands
report_lands-Sound g now label as_of gathered c s =
    option_split Sound (lookup_text (repository_id_key label) g.repos) (λ e. s)
      λ repo e.
        if_intro Sound
          (has_text (repository_id_key label) g.tombstones || ltb_ℤ (pos as_of) repo.report_seq) s
          (land_report-Sound g now (repository_id_key label) repo as_of gathered c e s)

pub subscribe-Sound :
    (g : Governor) (label : String) (w : ℕ) → Sound g → Sound (subscribe g label w)
unfolding subscribe
subscribe-Sound g label w s = record {
  once = s.once;
  repos = s.repos;
  holds = s.holds;
  live = s.live;
}

pub unsubscribe-Sound :
    (g : Governor) (label : String) (w : ℕ) → Sound g → Sound (unsubscribe g label w)
unfolding unsubscribe
unsubscribe-Sound g label w s =
    option_split Sound (lookup_text (repository_id_key label) g.subscribers) (λ e. s)
      λ wakes e. record { once = s.once; repos = s.repos; holds = s.holds; live = s.live }

pub commit-Sound :
    (g : Governor) (serial : ℕ) (at : Option String) → Sound g → Sound (commit g serial at)
unfolding commit
commit-Sound g serial at s = record {
  once = s.once;
  repos = s.repos;
  holds = s.holds;
  live = commit_all g.live s.live;
}
  where
    commit_all :
        (ss : List Slot)
        → All (λ t. NonNegative t.estimate_usd) ss
        → All (λ t. NonNegative t.estimate_usd) (map (commit_slot serial at) ss)
    commit_all [] a = tt
    commit_all (t ∷ ts) a = (
      if_intro (λ (u : Slot). NonNegative u.estimate_usd) (t.serial == serial && not t.committed)
          a.0 a.0,
      commit_all ts a.1,
    )

drop_slot-Sound : (g : Governor) (slot : Slot) → Sound g → Sound (drop_slot g slot)
drop_slot-Sound g slot s = record {
  once = s.once;
  repos = s.repos;
  holds = s.holds;
  live = All-keep _ _ g.live s.live;
}

settle_slot-Sound :
    (g : Governor) (now : ℕ) (slot : Slot) (cost : Option ℤ)
    → Sound g
    → Sound (settle_slot g now slot cost)
unfolding settle_slot
settle_slot-Sound g now slot cost s =
    option_split Sound (lookup_text slot.repo_key g.repos) (λ e. s)
      λ r e. record {
        once = put-Unique slot.repo_key (settle_repo g now slot cost r) g.repos s.once;
        repos =
            put-Sound slot.repo_key (settle_repo g now slot cost r) g.repos
              (found-RepoSound slot.repo_key g.repos r s.repos e) s.repos;
        holds = s.holds;
        live = s.live;
      }

pub release-Sound :
    (g : Governor) (now serial : ℕ) (cost : Option ℤ) → Sound g → Sound (release g now serial cost)
unfolding release release_slot
release-Sound g now serial cost s =
    option_split Sound (find_by (λ t. t.serial == serial) g.live) (λ e. s)
      λ slot e.
        let dropped = drop_slot-Sound g slot s in
        if_intro Sound slot.committed
          (freed-Sound (settle_slot (drop_slot g slot) now slot (known_cost cost)) now none
            (settle_slot-Sound (drop_slot g slot) now slot (known_cost cost) dropped))
          (freed-Sound (drop_slot g slot) now (some slot.repo_key) dropped)

pub idle-Sound : (g : Governor) → Sound g → Sound (idle g)
unfolding idle
idle-Sound g s = record { once = s.once; repos = s.repos; holds = s.holds; live = s.live }

pub wake_finished-Sound : (g : Governor) (now i : ℕ) → Sound g → Sound (wake_finished g now i)
unfolding wake_finished give_back
wake_finished-Sound g now i s =
    option_split Sound (get_elem? g.sent i) (λ e. s)
      λ w e. settle_idle-Sound (give_back (end_wake g i) now w) (
        if_intro Sound (still_offered (end_wake g i) w)
          (freed-Sound (drop_offer (end_wake g i) w.repository) now none
            (record { once = s.once; repos = s.repos; holds = s.holds; live = s.live }))
          (record { once = s.once; repos = s.repos; holds = s.holds; live = s.live }))

pub timer_ended-Sound :
    (g : Governor) (now : ℕ) (label : String) → Sound g → Sound (timer_ended g now label)
unfolding timer_ended
timer_ended-Sound g now label s = if_intro Sound (not (mem_text label g.wake_timers)) s (
    settle_idle-Sound (freed (end_timer g label) now none) (
      freed-Sound (end_timer g label) now none
        (record { once = s.once; repos = s.repos; holds = s.holds; live = s.live })))
