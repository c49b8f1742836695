-- ===== src/Orchestrator/Governor/Reporting.antt =====
-- What an engine tells packages/orchestrator/src/governor.ts of its ledgers: `seed` and `report`.
use gateline.Prelude.{
  ℕ, suc, ◌+◌, pos, ltb_ℤ, String, Bool, false, not, ◌&&◌, ◌||◌, Option, none, some, List, [], ◌∷◌,
  ◌++◌, ltb, leb, or_else, text_eq, mem_text, if◌then◌else◌, filter_by, any, lookup_text, has_text,
  put_text,
}
use gateline.Orchestrator.Governor.{
  EntryKind, dispatched, sweeping, SpendReport, OpenEntry, SeedEntry, RepoState, Hold, Governor,
  repository_id_key,
}
use gateline.Orchestrator.Governor.Spend.{is_sweep, parse_at, expire}
use gateline.Orchestrator.Governor.Waking.{freed}
use gateline.Orchestrator.Governor.Counting.{is_hold}
use gateline.Orchestrator.Governor.Registering.{register, no_options, mark_seeded}

-- When a hold of a startup entry ends; an entry without a date holds for one timeout from now.
abbrev pub expiry : ℕ → SeedEntry → ℕ
expiry now e = or_else (parse_at e.at) now + e.timeout_ms

abbrev pub hold_of : ℕ → String → SeedEntry → Hold
hold_of now repository e = record {
  repository = repository;
  key = e.key;
  estimate_usd = e.estimate_usd;
  expires_at = expiry now e;
  kind = e.kind;
}

-- `holds.set`: a hold under a known key keeps its place.
unfoldable pub put_hold : Hold → List Hold → List Hold
unfolding is_hold
put_hold h [] = h ∷ []
put_hold h (j ∷ hs) =
    let rest = put_hold h hs in if is_hold h.repository h.key j then h ∷ hs else j ∷ rest

unfoldable pub seed_holds : ℕ → String → List SeedEntry → List Hold → List Hold
unfolding put_hold
seed_holds now repository [] holds = holds
seed_holds now repository (e ∷ es) holds =
    seed_holds now repository es
      (if leb (expiry now e) now then holds else put_hold (hold_of now repository e) holds)

abbrev pub seeded_before : Option RepoState → Bool
seeded_before none = false
seeded_before (some r) = r.seeded

-- The holds of the entries, and the mark that the repository has seeded.
unfoldable pub plant : Governor → ℕ → String → List SeedEntry → Governor
unfolding register seed_holds
plant g now label entries =
    let h = register g label no_options in
    record h {
      holds = seed_holds now (repository_id_key label) entries h.holds;
      repos = mark_seeded (repository_id_key label) h.repos;
    }

-- `seed(label, entries)`.
unfoldable pub seed : Governor → ℕ → String → List SeedEntry → Governor
unfolding register plant freed
seed g now label entries =
    let repository = repository_id_key label in
    if has_text repository g.tombstones
    then g
    else if seeded_before (lookup_text repository (register g label no_options).repos)
    then plant g now label entries
    else freed (plant g now label entries) now none

-- The start of `report`: it takes its place in the sequence.
unfoldable pub report_begins : Governor → String → Governor
unfolding register
report_begins g label =
    if has_text (repository_id_key label) g.tombstones
    then g
    else let h = register g label no_options in record h { seq = suc h.seq }

abbrev pub of_kind : EntryKind → Option EntryKind → Bool
of_kind k none = false
of_kind dispatched (some j) = not (is_sweep j)
of_kind sweeping (some j) = is_sweep j

-- A report in which the sweeps were not read keeps those of the report before it.
unfoldable pub merge_report : SpendReport → Option SpendReport → SpendReport
merge_report gathered none = gathered
merge_report gathered (some old) = if gathered.sweeps_read then gathered else record {
  closed =
      filter_by (λ e. not (of_kind sweeping e.kind)) gathered.closed
      ++ filter_by (λ e. of_kind sweeping e.kind) old.closed;
  open_entries =
      filter_by (λ e. not (is_sweep e.kind)) gathered.open_entries
      ++ filter_by (λ e. is_sweep e.kind) old.open_entries;
  sweeps_read = false;
}

unfoldable pub apply_report : SpendReport → ℕ → RepoState → RepoState
unfolding merge_report
apply_report gathered as_of repo = record repo {
  report = some (merge_report gathered repo.report);
  report_seq = pos as_of;
  settled =
      filter_by (λ s. ltb as_of s.seq || not gathered.sweeps_read && is_sweep s.kind) repo.settled;
}

abbrev pub open_keys : List OpenEntry → List String
open_keys [] = []
open_keys (e ∷ es) = e.key ∷ open_keys es

-- A hold that the report clears.
abbrev pub cleared : String → SpendReport → Hold → Bool
cleared repository report h =
    text_eq h.repository repository
    && (not (is_sweep h.kind) && not (mem_text h.key (open_keys report.open_entries))
        || mem_text h.key (open_keys (filter_by (λ e. e.lost) report.open_entries)))

-- The report is kept, what it shows settled is dropped, and holds that it shows closed are cleared.
unfoldable pub keep_report : Governor → String → RepoState → ℕ → SpendReport → Governor
unfolding apply_report
keep_report g repository repo as_of gathered =
    let report = merge_report gathered repo.report in
    record g {
      repos = put_text repository (apply_report gathered as_of repo) g.repos;
      retired = filter_by (λ r. not (text_eq r.repository repository)) g.retired;
      holds = filter_by (λ h. not (cleared repository report h)) g.holds;
    }

unfoldable pub land_report : Governor → ℕ → String → RepoState → ℕ → SpendReport → Governor
unfolding keep_report expire freed
land_report g now repository repo as_of gathered =
    let e = expire (keep_report g repository repo as_of gathered) now in
    if e.1 || any (cleared repository (merge_report gathered repo.report)) g.holds
    then freed e.0 now none
    else e.0

-- The end of `report`, when what it gathered arrives.
unfoldable pub report_lands : Governor → ℕ → String → ℕ → SpendReport → Governor
unfolding land_report
report_lands g now label as_of gathered =
    let repository = repository_id_key label in
    elim (lookup_text repository g.repos) [
      | none ↦ g
      | some repo ↦
          if has_text repository g.tombstones || ltb_ℤ (pos as_of) repo.report_seq
          then g
          else land_report g now repository repo as_of gathered
    ]
