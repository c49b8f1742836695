-- ===== src/Orchestrator/Governor/Leaving.antt =====
-- How packages/orchestrator/src/governor.ts forgets a repository whose engine has stopped: `unregister`.
use gateline.Prelude.{
  ℕ, ◌-◌, ℤ, String, Bool, not, Option, none, some, List, [], ◌∷◌, ◌++◌, ◌==◌, leb, length, or_else,
  text_eq, mem_text, if◌then◌else◌, filter_by, lookup_text, has_text, put_text, drop_text, keys_of,
  add_text, remove_text, get_elem?,
}
use gateline.Orchestrator.Governor.{
  Retired, Tombstone, Governor, repository_id_key, or_option, label_of_repo, label_of_tombstone,
  name_of_repo, name_of_tombstone, spend_window,
}
use gateline.Orchestrator.Governor.Spend.{Counted, spend_items}
use gateline.Orchestrator.Governor.Waking.{freed, settle_idle, after_index}

-- What `unregister` keeps of the closed items: those in the window, dated now where they have no date.
abbrev pub retire_closed : String → ℕ → ℕ → List Counted → List Retired
retire_closed repository now since [] = []
retire_closed repository now since (c ∷ cs) =
    let at = or_else c.at_ms now in
    let rest = retire_closed repository now since cs in
    if leb since at
    then record { repository = repository; amount_usd = c.amount_usd; at_ms = at } ∷ rest
    else rest

abbrev pub retire_open : String → ℕ → List (String × ℤ) → List Retired
retire_open repository now [] = []
retire_open repository now ((k, v) ∷ m) =
    record { repository = repository; amount_usd = v; at_ms = now } ∷ retire_open repository now m

-- The element before a repository on the ring, the last one before the first.
abbrev pub before_on_ring : String → List String → Option String
before_on_ring name ring =
    let n = length ring in
    if leb n 1
    then none
    else let i = after_index name ring in
      get_elem? ring (if i == 0 then n - 2 else if i == 1 then n - 1 else i - 2)

abbrev pub turn_after : Option String → String → List String → Option String
turn_after none repository ring = none
turn_after (some last) repository ring =
    if text_eq last repository then before_on_ring repository ring else some last

abbrev pub tombstone_of : Governor → String → String → Tombstone
tombstone_of g label repository = record {
  label =
      or_else
        (or_option (label_of_repo (lookup_text repository g.repos))
          (label_of_tombstone (lookup_text repository g.tombstones)))
        label;
  display_name =
      or_option (name_of_repo (lookup_text repository g.repos))
        (name_of_tombstone (lookup_text repository g.tombstones));
}

-- What `unregister` removes of a repository that is registered.
unfoldable pub forget : Governor → ℕ → String → Governor
unfolding spend_items
forget g now repository =
    let items = spend_items g now repository [] in
    let since = now - spend_window g in
    let timed = mem_text repository g.wake_timers in
    record g {
      retired =
          g.retired
          ++ retire_closed repository now since items.closed
          ++ retire_open repository now items.open_estimates;
      live = filter_by (λ s. not (text_eq s.repo_key repository)) g.live;
      holds = filter_by (λ h. not (text_eq h.repository repository)) g.holds;
      offers = drop_text repository g.offers;
      waiters = drop_text repository g.waiters;
      subscribers = drop_text repository g.subscribers;
      last_wake = drop_text repository g.last_wake;
      wake_timers = remove_text repository g.wake_timers;
      outstanding = if timed then g.outstanding - 1 else g.outstanding;
      last_served = turn_after g.last_served repository (keys_of g.repos);
      repos = drop_text repository g.repos;
    }

unfoldable pub bury : Governor → String → Bool → Governor
bury g label is_uncounted =
    let repository = repository_id_key label in
    record g {
      tombstones = put_text repository (tombstone_of g label repository) g.tombstones;
      uncounted_keys =
          if is_uncounted then add_text repository g.uncounted_keys else g.uncounted_keys;
    }

-- `unregister(label, opts)`.
unfoldable pub unregister : Governor → ℕ → String → Bool → Governor
unfolding bury forget freed settle_idle
unregister g now label is_uncounted =
    let repository = repository_id_key label in
    let h = bury g label is_uncounted in
    if not (has_text repository g.repos)
    then h
    else freed (settle_idle (forget h now repository)) now none
