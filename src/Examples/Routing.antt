-- ===== src/Examples/Routing.antt =====
-- The routing of packages/orchestrator/src/router.ts and the sweeps of schedule.ts, on samples.
use gateline.Prelude.{
  ◌≡◌, ◌↔◌, pos, String, true, false, none, some, [], ◌∷◌, text_eq, if◌then◌else◌,
}
use gateline.Orchestrator.Router.{HeadlessManifest, Registry, Router}
use gateline.Orchestrator.Schedule.{
  SweepFacts, dispatch_due, is_open, is_recent, over_limit, derive_sweep,
}
use gateline.Orchestrator.Schedule.Due.{derive_sweep_iff}
use gateline.Examples.{noon}

abbrev runner : String → String → HeadlessManifest
runner name vendor = record {
  adapter = name;
  model_map = λ profile. some "model";
  model_overrides = λ role. none;
  model_vendors = λ spelling. some vendor;
}

-- The reviewer is pinned off the implementer's vendor.
abbrev pins : Registry
pins = record {
  bindings = λ role.
      if text_eq role "reviewer"
      then some (record { profile = "deep"; avoid_vendor_of = some "implementer" })
      else none;
}

abbrev two_vendors : Router
two_vendors = record {
  first = runner "claude-code" "anthropic";
  others = runner "copilot-cli" "openai" ∷ [];
  registry = pins;
}

-- A day and a bit after the last sweep.
abbrev due : SweepFacts
due = record {
  now = 1767360000000;
  entry = record {
    role = "historian";
    every_ms = 86400000;
    cost_limit_usd = some (pos 5000000);
    enabled = true;
    every = "1d";
  };
  last_swept_at = some noon;
  open_sweep = none;
  slug_taken = false;
  estimate_usd = pos 2000000;
}

derive_sweep_iff_example : (derive_sweep due ≡ dispatch_due) ↔ (
    (due.entry.enabled ≡ true)
    × (is_open due.open_sweep ≡ false)
    × (is_recent due.now due.entry.every_ms due.last_swept_at ≡ false)
    × (due.slug_taken ≡ false)
    × (over_limit due.estimate_usd due.entry.cost_limit_usd ≡ false))
derive_sweep_iff_example = derive_sweep_iff due
