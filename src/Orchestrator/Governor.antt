-- ===== src/Orchestrator/Governor.antt =====
-- The governor of packages/orchestrator/src/governor.ts: what it holds. Amounts are whole millionths of
-- a dollar, so that the order of an addition does not matter; `now` is the clock of each call. The two
-- composite keys of the source, texts joined by a NUL, are pairs here.
pub mod Words
pub mod Spend
pub mod Waking
pub mod Registering
pub mod Counting
pub mod Reserving
pub mod Leaving
pub mod Reporting
pub mod Calls
unfoldable pub use gateline.Sources.Naming.{lower_letters, lower_by, lower_char, repository_id_key}
use gateline.Prelude.{
  ℕ, ◌+◌, ◌*◌, ℤ, String, Bool, true, not, Option, none, some, List, [], ◌∷◌, ◌==◌, length, is_none,
  or_else, if◌then◌else◌, lookup_text, has_text, drop_text, values_of,
}
use gateline.Record.Raw.{Stamp}

pub data GovernorLimit : Type 0 where
  concurrency turn spend repository_spend unregistered : GovernorLimit

pub data EntryKind : Type 0 where
  dispatched sweeping : EntryKind

pub record GovernorRefusal : Type 0 where
  pub limit : GovernorLimit
  pub repository : String
  pub occupied : ℕ
  pub cap : ℕ
  pub requested : ℕ
  pub granted : ℕ
  pub held_for : Option String
  pub unseeded : List String
  pub names : Option (List (String × String))
  pub projected_usd : Option ℤ
  pub closed_usd : Option ℤ
  pub requested_usd : Option ℤ
  pub limit_usd : Option ℤ
  pub window_ms : Option ℕ

pub record ReservationIntent : Type 0 where
  pub key : String
  pub estimate_usd : ℤ
  pub kind : Option EntryKind

pub record ReservationRequest : Type 0 where
  pub repository : String
  pub intents : List ReservationIntent

pub record ClosedEntry : Type 0 where
  pub key : Option String
  pub at : Option Stamp
  pub cost_usd : ℤ
  pub kind : Option EntryKind

pub record OpenEntry : Type 0 where
  pub key : String
  pub at : Option Stamp
  pub estimate_usd : ℤ
  pub kind : EntryKind
  pub lost : Bool

pub record SpendReport : Type 0 where
  pub closed : List ClosedEntry
  pub open_entries : List OpenEntry
  pub sweeps_read : Bool

pub record SeedEntry : Type 0 where
  pub key : String
  pub at : Option Stamp
  pub estimate_usd : ℤ
  pub timeout_ms : ℕ
  pub kind : EntryKind

-- What `register` may set: an absent field changes nothing, a null limit is no limit.
pub record RegisterOptions : Type 0 where
  pub spend_limit_usd : Option (Option ℤ)
  pub display_name : Option String

-- A negative cap is uncapped, as zero is.
pub record GovernorConfig : Type 0 where
  pub max_concurrent_dispatches : Option ℕ
  pub spend_limit_usd : Option ℤ
  pub spend_window_ms : Option ℕ
  pub budget_enforcement : Option Bool
  pub repositories : List (String × RegisterOptions)
  pub offer_ttl_ms : Option ℕ
  pub min_wake_interval_ms : Option ℕ

abbrev pub default_max_concurrent_dispatches : ℕ
default_max_concurrent_dispatches = 2

abbrev pub default_spend_window_ms : ℕ
default_spend_window_ms = 24 * 60 * 60 * 1000

abbrev pub default_offer_ttl_ms : ℕ
default_offer_ttl_ms = 2 * 60 * 1000

abbrev pub default_min_wake_interval_ms : ℕ
default_min_wake_interval_ms = 1000

pub record Settled : Type 0 where
  pub key : String
  pub amount_usd : ℤ
  pub seq : ℕ
  pub settled_at : ℕ
  pub ledger_at : Option String
  pub kind : EntryKind

pub record RepoState : Type 0 where
  pub label : String
  pub spend_limit_usd : Option ℤ
  pub display_name : Option String
  pub seeded : Bool
  pub report : Option SpendReport
  pub report_seq : ℤ
  pub settled : List Settled

-- A hold stands in its map under its repository and key.
pub record Hold : Type 0 where
  pub repository : String
  pub key : String
  pub estimate_usd : ℤ
  pub expires_at : ℕ
  pub kind : EntryKind

-- `serial` is the identity of the object.
pub record Offer : Type 0 where
  pub serial : ℕ
  pub slots : ℕ
  pub expires_at : ℕ

pub record Retired : Type 0 where
  pub repository : String
  pub amount_usd : ℤ
  pub at_ms : ℕ

-- A slot that is not released; `serial` is the identity of the object.
pub record Slot : Type 0 where
  pub serial : ℕ
  pub repository : String
  pub repo_key : String
  pub key : String
  pub estimate_usd : ℤ
  pub kind : EntryKind
  pub committed : Bool
  pub ledger_at : Option String

pub record Waiter : Type 0 where
  pub limit : GovernorLimit
  pub requested_usd : ℤ

pub record Tombstone : Type 0 where
  pub label : String
  pub display_name : Option String

-- A wake that was sent and has not finished, with the offer that it carries.
pub record Wake : Type 0 where
  pub repository : String
  pub offer : Option ℕ

-- `serials` counts the objects made so far.
pub record Governor : Type 0 where
  pub cfg : GovernorConfig
  pub repos : List (String × RepoState)
  pub live : List Slot
  pub holds : List Hold
  pub waiters : List (String × Waiter)
  pub offers : List (String × Offer)
  pub subscribers : List (String × List ℕ)
  pub last_served : Option String
  pub outstanding : ℕ
  pub sent : List Wake
  pub idle_waiters : ℕ
  pub seq : ℕ
  pub serials : ℕ
  pub last_wake : List (String × ℕ)
  pub wake_timers : List String
  pub retired : List Retired
  pub tombstones : List (String × Tombstone)
  pub uncounted_keys : List String

abbrev pub or_option {ℓ} : {A : Type ℓ} → Option A → Option A → Option A
or_option none b = b
or_option (some a) b = some a

abbrev pub label_of_repo : Option RepoState → Option String
label_of_repo none = none
label_of_repo (some r) = some r.label

abbrev pub name_of_repo : Option RepoState → Option String
name_of_repo none = none
name_of_repo (some r) = r.display_name

abbrev pub label_of_tombstone : Option Tombstone → Option String
label_of_tombstone none = none
label_of_tombstone (some t) = some t.label

abbrev pub name_of_tombstone : Option Tombstone → Option String
name_of_tombstone none = none
name_of_tombstone (some t) = t.display_name

-- `labelOf(key)`.
unfoldable pub label_of : Governor → String → String
label_of g key =
    or_else
      (or_option (label_of_repo (lookup_text key g.repos))
        (label_of_tombstone (lookup_text key g.tombstones)))
      key

-- What `displayOf` and `namesFor` read for a key.
unfoldable pub display_name_of : Governor → String → Option String
display_name_of g key =
    or_option (name_of_repo (lookup_text key g.repos))
      (name_of_tombstone (lookup_text key g.tombstones))

unfoldable pub display_of : Governor → String → String
unfolding label_of display_name_of
display_of g label =
    let repository = repository_id_key label in
    or_else (display_name_of g repository) (label_of g repository)

-- `namesFor`: a key named twice stands once, at its first place.
abbrev pub names_loop : Governor → List String → List (String × String)
unfolding display_name_of
names_loop g [] = []
names_loop g (key ∷ keys) =
    let rest = names_loop g keys in
    elim (display_name_of g (repository_id_key key)) [
      | none ↦ rest
      | some name ↦ (key, name) ∷ drop_text key rest
    ]

unfoldable pub names_for : Governor → List String → Option (List (String × String))
names_for g keys =
    let names = names_loop g keys in elim names [ [] ↦ none | n ∷ ns ↦ some (n ∷ ns) ]

unfoldable pub cap_of : Governor → ℕ
cap_of g = or_else g.cfg.max_concurrent_dispatches default_max_concurrent_dispatches

unfoldable pub enforcing : Governor → Bool
enforcing g = or_else g.cfg.budget_enforcement true

unfoldable pub spend_window : Governor → ℕ
spend_window g = or_else g.cfg.spend_window_ms default_spend_window_ms

abbrev pub labels_unseeded : List RepoState → List String
labels_unseeded [] = []
labels_unseeded (r ∷ rs) =
    let rest = labels_unseeded rs in if not r.seeded then r.label ∷ rest else rest

unfoldable pub unseeded_repositories : Governor → List String
unseeded_repositories g = labels_unseeded (values_of g.repos)

unfoldable pub is_registered : Governor → String → Bool
is_registered g repository = has_text (repository_id_key repository) g.repos

abbrev pub labels_of : Governor → List String → List String
unfolding label_of
labels_of g [] = []
labels_of g (k ∷ ks) = label_of g k ∷ labels_of g ks

unfoldable pub uncounted : Governor → List String
unfolding enforcing
uncounted g =
    if not (enforcing g)
    then []
    else if is_none g.cfg.spend_limit_usd
    then []
    else labels_of g g.uncounted_keys

-- `occupied()`: live reservations and the holds that still stand.
unfoldable pub occupied_slots : Governor → ℕ
occupied_slots g = length g.live + length g.holds
