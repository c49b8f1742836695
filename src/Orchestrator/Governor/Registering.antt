-- ===== src/Orchestrator/Governor/Registering.antt =====
-- How packages/orchestrator/src/governor.ts makes a repository known: `register`.
use gateline.Prelude.{
  ℤ, String, true, false, Option, none, some, List, [], ◌∷◌, text_eq, if◌then◌else◌, lookup_text,
  put_text, drop_text, remove_text, negsuc,
}
use gateline.Orchestrator.Governor.{RegisterOptions, RepoState, Governor, repository_id_key}

abbrev pub no_options : RegisterOptions
no_options = record { spend_limit_usd = none; display_name = none }

abbrev pub limit_or_old : Option (Option ℤ) → Option ℤ → Option ℤ
limit_or_old none old = old
limit_or_old (some new) old = new

abbrev pub name_or_old : Option String → Option String → Option String
name_or_old none old = old
name_or_old (some new) old = some new

abbrev pub fresh_repo : String → RegisterOptions → RepoState
fresh_repo label opts = record {
  label = label;
  spend_limit_usd = limit_or_old opts.spend_limit_usd none;
  display_name = opts.display_name;
  seeded = false;
  report = none;
  report_seq = negsuc 0;
  settled = [];
}

abbrev pub update_repo : RepoState → RegisterOptions → RepoState
update_repo r opts = record r {
  spend_limit_usd = limit_or_old opts.spend_limit_usd r.spend_limit_usd;
  display_name = name_or_old opts.display_name r.display_name;
}

-- `register(label, opts)`.
unfoldable pub register : Governor → String → RegisterOptions → Governor
register g label opts =
    let repository = repository_id_key label in
    record g {
      tombstones = drop_text repository g.tombstones;
      uncounted_keys = remove_text repository g.uncounted_keys;
      repos = elim (lookup_text repository g.repos) [
        | none ↦ put_text repository (fresh_repo label opts) g.repos
        | some r ↦ put_text repository (update_repo r opts) g.repos
      ];
    }

abbrev pub mark_seeded : String → List (String × RepoState) → List (String × RepoState)
mark_seeded repository [] = []
mark_seeded repository ((k, r) ∷ m) =
    let rest = mark_seeded repository m in
    if text_eq k repository then (k, record r { seeded = true }) ∷ m else (k, r) ∷ rest
