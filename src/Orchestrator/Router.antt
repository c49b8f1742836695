-- ===== src/Orchestrator/Router.antt =====
-- The routing of roles to adapters: packages/orchestrator/src/router.ts, which keeps a pinned role off
-- the vendor of the role that it checks.
pub mod Pins
use gateline.Prelude.{
  String, Bool, true, false, not, ◌&&◌, Option, none, some, List, [], ◌∷◌, is_empty, is_some,
  find_by, or_else, text_eq, if◌then◌else◌,
}

-- What the routing reads of a manifest.
pub record HeadlessManifest : Type 0 where
  pub adapter : String
  pub model_map : String → Option String
  pub model_overrides : String → Option String
  pub model_vendors : String → Option String

pub record RegistryBinding : Type 0 where
  pub profile : String
  pub avoid_vendor_of : Option String

pub record Registry : Type 0 where
  pub bindings : String → Option RegistryBinding

-- A list of adapters that is not empty.
pub record Router : Type 0 where
  pub first : HeadlessManifest
  pub others : List HeadlessManifest
  pub registry : Registry

abbrev pub profile_of : Registry → String → String
profile_of registry role = elim (registry.bindings role) [ none ↦ "" | some b ↦ b.profile ]

abbrev pub or_lookup : Option String → Option String → Option String
or_lookup (some s) other = some s
or_lookup none other = other

-- A text that is absent or empty counts as none.
abbrev pub given : Option String → Option String
given none = none
given (some s) = if text_eq s "" then none else some s

unfoldable pub adapter_vendor : HeadlessManifest → Registry → String → Option String
adapter_vendor m registry role =
    elim (given (or_lookup (m.model_overrides role) (m.model_map (profile_of registry role)))) [
      | none ↦ none
      | some spelling ↦ m.model_vendors spelling
    ]

pub record RouteDecision : Type 0 where
  pub adapter : String
  pub vendor : Option String
  pub advisory : Bool

-- The decision, or `VendorPinError`.
pub data Routing : Type 0 where
  routed : RouteDecision → Routing
  pin_error : Routing

abbrev pub differs : Option String → Option String → Bool
differs none avoid = false
differs (some v) none = false
differs (some v) (some w) = not (text_eq v w)

abbrev pub pin_of : Registry → String → Option String
pin_of registry role = elim (registry.bindings role) [
  | none ↦ none
  | some b ↦ given b.avoid_vendor_of
]

-- The first adapter that runs the role on another vendor.
unfoldable pub first_apart :
    Registry → String → Option String → List HeadlessManifest → Option HeadlessManifest
first_apart registry role avoid ms =
    find_by (λ (m : HeadlessManifest). differs (adapter_vendor m registry role) avoid) ms

unfoldable pub route : Router → String → Routing
unfolding first_apart
route router role = elim (pin_of router.registry role) [
  | none ↦ routed (record {
    adapter = router.first.adapter;
    vendor = adapter_vendor router.first router.registry role;
    advisory = false;
  })
  | some pin ↦
      let avoid = adapter_vendor router.first router.registry pin in
      elim (first_apart router.registry role avoid (router.first ∷ router.others)) [
        | some m ↦ routed (record {
          adapter = m.adapter;
          vendor = adapter_vendor m router.registry role;
          advisory = false;
        })
        | none ↦
            if not (is_empty router.others)
            then pin_error
            else routed (record { adapter = router.first.adapter; vendor = avoid; advisory = true })
      ]
]
