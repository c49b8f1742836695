-- ===== src/Orchestrator/Router/Pins.antt =====
-- What a routing promises of a pinned role: packages/orchestrator/src/router.ts.
use gateline.Prelude.{
  ◌≢◌, ◌++◌, All, if◌then◌else◌, not, ◌≡◌, String, Bool, true, false, Option, none, some, List, [],
  ◌∷◌, is_empty,
}
use gateline.Orchestrator.Router.{
  HeadlessManifest, Router, Routing, adapter_vendor, RouteDecision, routed, pin_error, differs,
}

-- The adapters, and the vendor that a pin is to be kept off.
abbrev pub adapters : Router → List HeadlessManifest
adapters router = router.first ∷ router.others

abbrev pub avoided : Router → String → Option String
avoided router pin = adapter_vendor router.first router.registry pin

-- Whether an adapter runs the role on a vendor that is known and other than the avoided one.
abbrev pub apart : Router → String → String → HeadlessManifest → Bool
apart router role pin m = differs (adapter_vendor m router.registry role) (avoided router pin)

abbrev pub runs_on : Router → String → HeadlessManifest → RouteDecision
runs_on router role m = record {
  adapter = m.adapter;
  vendor = adapter_vendor m router.registry role;
  advisory = false;
}

-- What becomes of a pinned role: it runs on the first adapter that is apart, or, where none is, it is
-- refused among several adapters, and runs on the only one there is, on the avoided vendor, as advisory.
pub data Kept (router : Router) (role pin : String) : Routing → Type 0 where
  kept_apart :
      (before after : List HeadlessManifest) (m : HeadlessManifest)
      → adapters router ≡ before ++ m ∷ after
      → All (λ n. apart router role pin n ≡ false) before
      → apart router role pin m ≡ true
      → Kept router role pin (routed (runs_on router role m))
  kept_refused :
      All (λ n. apart router role pin n ≡ false) (adapters router)
      → router.others ≢ []
      → Kept router role pin pin_error
  kept_advisory :
      apart router role pin router.first ≡ false
      → router.others ≡ []
      → Kept router role pin (
          routed (record {
            adapter = router.first.adapter;
            vendor = avoided router pin;
            advisory = true;
          }))

-- Where a search by a test stops: at the first that passes, or nowhere as none does.
data Searched (p : HeadlessManifest → Bool) (ms : List HeadlessManifest)
    : Option HeadlessManifest → Type 0 where
  found :
      (before after : List HeadlessManifest) (m : HeadlessManifest)
      → ms ≡ before ++ m ∷ after
      → All (λ n. p n ≡ false) before
      → p m ≡ true
      → Searched p ms (some m)
  missed : All (λ n. p n ≡ false) ms → Searched p ms none

-- What the search for an adapter makes of the routing.
outcome : Router → String → Option String → Option HeadlessManifest → Routing
outcome router role avoid (some m) = routed (runs_on router role m)
outcome router role avoid none =
    if not (is_empty router.others)
    then pin_error
    else routed (record { adapter = router.first.adapter; vendor = avoid; advisory = true })
