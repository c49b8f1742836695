-- ===== src/Orchestrator/Governor/Spend.antt =====
-- The spend window of packages/orchestrator/src/governor.ts: what counts, what has left the window.
pub mod Sums
use gateline.Prelude.{
  ℕ, ◌-◌, ℤ, pos, ◌+ℤ◌, ltb_ℤ, String, Bool, true, false, not, ◌&&◌, ◌||◌, Option, none, some, List,
  [], ◌∷◌, ◌++◌, ltb, leb, or_else, text_eq, mem_text, if◌then◌else◌, filter_by, any, lookup_text,
  put_text, drop_text, keys_of,
}
use gateline.Record.Raw.{Stamp}
use gateline.Orchestrator.Governor.{
  EntryKind, sweeping, dispatched, ClosedEntry, OpenEntry, SpendReport, Settled, RepoState, Hold,
  Retired, Slot, Governor, repository_id_key, spend_window, enforcing,
}

-- `Date.parse(at)`, of a time that is there.
abbrev pub parse_at : Option Stamp → Option ℕ
parse_at none = none
parse_at (some s) = if text_eq s.text "" then none else s.ms

abbrev pub in_window : ℕ → Option Stamp → Bool
in_window since at = elim (parse_at at) [ none ↦ true | some t ↦ leb since t ]

abbrev pub at_text : Option Stamp → Option String
at_text none = none
at_text (some s) = some s.text

-- `ledgerId(key, at)`.
abbrev pub ledger_id : String → Option String → String × String
ledger_id key at = (key, or_else at "")

abbrev pub has_id : String × String → List (String × String) → Bool
has_id id ids = any (λ j. text_eq id.0 j.0 && text_eq id.1 j.1) ids

-- A closed amount, and since when it counts.
pub record Counted : Type 0 where
  pub amount_usd : ℤ
  pub at_ms : Option ℕ

pub record SpendItems : Type 0 where
  pub closed : List Counted
  pub open_estimates : List (String × ℤ)

abbrev pub report_closed : Option SpendReport → List ClosedEntry
report_closed none = []
report_closed (some r) = r.closed

abbrev pub report_open : Option SpendReport → List OpenEntry
report_open none = []
report_open (some r) = r.open_entries

abbrev pub report_of : Option RepoState → Option SpendReport
report_of none = none
report_of (some r) = r.report

abbrev pub settled_of : Option RepoState → List Settled
settled_of none = []
settled_of (some r) = r.settled

abbrev pub reported_ids : List ClosedEntry → List (String × String)
reported_ids [] = []
reported_ids (e ∷ es) =
    let rest = reported_ids es in
    elim e.key [ none ↦ rest | some k ↦ ledger_id k (at_text e.at) ∷ rest ]

-- `inReport(key, at)`.
abbrev pub in_report : List (String × String) → String → Option String → Bool
in_report ids key none = false
in_report ids key (some at) = has_id (ledger_id key (some at)) ids

abbrev pub closed_in_window : ℕ → List ClosedEntry → List Counted
closed_in_window since [] = []
closed_in_window since (e ∷ es) =
    let rest = closed_in_window since es in
    if in_window since e.at
    then record { amount_usd = e.cost_usd; at_ms = parse_at e.at } ∷ rest
    else rest

abbrev pub settled_in_window : ℕ → List (String × String) → List Settled → List Counted
settled_in_window since ids [] = []
settled_in_window since ids (s ∷ ss) =
    let rest = settled_in_window since ids ss in
    if in_report ids s.key s.ledger_at || ltb s.settled_at since
    then rest
    else record { amount_usd = s.amount_usd; at_ms = some s.settled_at } ∷ rest

-- `settledIds` and `settledUndated`.
abbrev pub settled_ids : List Settled → List (String × String)
settled_ids [] = []
settled_ids (s ∷ ss) =
    let rest = settled_ids ss in
    elim s.ledger_at [ none ↦ rest | some at ↦ ledger_id s.key (some at) ∷ rest ]

abbrev pub settled_undated : List Settled → List String
settled_undated [] = []
settled_undated (s ∷ ss) =
    let rest = settled_undated ss in elim s.ledger_at [ none ↦ s.key ∷ rest | some at ↦ rest ]

abbrev pub is_sweep : EntryKind → Bool
is_sweep dispatched = false
is_sweep sweeping = true

-- An open entry of the report that is passed over.
unfoldable pub passed_over : ℕ → List Settled → List String → OpenEntry → Bool
passed_over since settled superseded e =
    is_sweep e.kind && not (in_window since e.at)
    || has_id (ledger_id e.key (at_text e.at)) (settled_ids settled)
    || mem_text e.key (settled_undated settled)
    || mem_text e.key superseded

unfoldable pub count_open :
    (OpenEntry → Bool) → List OpenEntry → List (String × ℤ) → List (String × ℤ)
count_open passed [] m = m
count_open passed (e ∷ es) m =
    count_open passed es (if passed e then m else put_text e.key e.estimate_usd m)

unfoldable pub count_holds :
    String → List String → List Hold → List (String × ℤ) → List (String × ℤ)
count_holds repository superseded [] m = m
count_holds repository superseded (h ∷ hs) m = count_holds repository superseded hs (
    if text_eq h.repository repository && not (mem_text h.key superseded)
    then put_text h.key h.estimate_usd m
    else m)

unfoldable pub count_live :
    String → List (String × String) → List Slot → List (String × ℤ) → List (String × ℤ)
count_live repository ids [] m = m
count_live repository ids (s ∷ ss) m = count_live repository ids ss (
    if not (text_eq s.repo_key repository)
    then m
    else if s.committed && in_report ids s.key s.ledger_at
    then drop_text s.key m
    else put_text s.key s.estimate_usd m)

-- `spendItems(repository, superseded)`.
unfoldable pub spend_items : Governor → ℕ → String → List String → SpendItems
unfolding passed_over count_open count_holds count_live
spend_items g now repository superseded =
    let since = now - spend_window g in
    let state = lookup_text repository g.repos in
    let report = report_of state in
    let settled = settled_of state in
    let ids = reported_ids (report_closed report) in
    record {
      closed = closed_in_window since (report_closed report) ++ settled_in_window since ids settled;
      open_estimates = count_live repository ids g.live (
          count_holds repository superseded g.holds
            (count_open (passed_over since settled superseded) (report_open report) []));
    }

pub record SpendSum : Type 0 where
  pub closed : ℤ
  pub open_usd : ℤ

unfoldable pub sum_counted : List Counted → ℤ
sum_counted [] = pos 0
sum_counted (c ∷ cs) = c.amount_usd +ℤ sum_counted cs

unfoldable pub sum_values : List (String × ℤ) → ℤ
sum_values [] = pos 0
sum_values ((k, v) ∷ m) = v +ℤ sum_values m

unfoldable pub repo_spend : Governor → ℕ → String → List String → SpendSum
repo_spend g now label superseded =
    let items = spend_items g now (repository_id_key label) superseded in
    record { closed = sum_counted items.closed; open_usd = sum_values items.open_estimates }

abbrev pub key_of_requester : Option String → Option String
key_of_requester none = none
key_of_requester (some r) = some (repository_id_key r)

abbrev pub superseded_for : Option String → String → List String → List String
superseded_for none name superseded = []
superseded_for (some r) name superseded = if text_eq name r then superseded else []

abbrev pub add_spend : SpendSum → SpendSum → SpendSum
add_spend s t = record { closed = s.closed +ℤ t.closed; open_usd = s.open_usd +ℤ t.open_usd }

unfoldable pub spend_over : Governor → ℕ → Option String → List String → List String → SpendSum
unfolding repo_spend
spend_over g now requester superseded [] = record { closed = pos 0; open_usd = pos 0 }
spend_over g now requester superseded (name ∷ names) =
    add_spend (repo_spend g now name (superseded_for requester name superseded))
      (spend_over g now requester superseded names)

unfoldable pub sum_retired : ℕ → List Retired → ℤ
sum_retired since [] = pos 0
sum_retired since (r ∷ rs) =
    let rest = sum_retired since rs in if leb since r.at_ms then r.amount_usd +ℤ rest else rest

-- `machineSpend(requester, superseded)`.
unfoldable pub machine_spend : Governor → ℕ → Option String → List String → SpendSum
unfolding spend_over sum_retired
machine_spend g now requester superseded =
    let key = key_of_requester requester in
    let s = spend_over g now key superseded (keys_of g.repos) in
    record s { closed = s.closed +ℤ sum_retired (now - spend_window g) g.retired }

-- `pruneSettled(repo)`.
abbrev pub prune_settled : ℕ → RepoState → RepoState
prune_settled since repo = record repo {
  settled = filter_by (λ s. leb since s.settled_at) repo.settled;
}

abbrev pub prune_repos : ℕ → List (String × RepoState) → List (String × RepoState)
prune_repos since [] = []
prune_repos since ((k, r) ∷ m) = (k, prune_settled since r) ∷ prune_repos since m

-- `expire()`, and whether a slot came free.
unfoldable pub expire : Governor → ℕ → Governor × Bool
expire g now =
    let since = now - spend_window g in
    (
      record g {
        repos = prune_repos since g.repos;
        retired = filter_by (λ r. leb since r.at_ms) g.retired;
        holds = filter_by (λ h. ltb now h.expires_at) g.holds;
        offers = filter_by (λ o. ltb now o.1.expires_at) g.offers;
      },
      any (λ h. leb h.expires_at now) g.holds || any (λ o. leb o.1.expires_at now) g.offers,
    )

-- `atOwnCeiling(repository, requestedUsd)`.
unfoldable pub at_own_ceiling : Governor → ℕ → String → ℤ → Bool
unfolding enforcing repo_spend
at_own_ceiling g now repository requested =
    if not (enforcing g) then false else elim (lookup_text repository g.repos) [
      | none ↦ false
      | some r ↦ elim r.spend_limit_usd [
        | none ↦ false
        | some ceiling ↦
            let s = repo_spend g now repository [] in
            ltb_ℤ ceiling (s.closed +ℤ s.open_usd +ℤ requested)
      ]
    ]
