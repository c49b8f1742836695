-- ===== src/Orchestrator/Governor/Words.antt =====
-- What a refusal says: `describeWindow`, `refusalRule` and `refusalReason` of
-- packages/orchestrator/src/governor.ts. A number of a refusal that the source leaves out counts as 0.
use gateline.Prelude.{
  ℕ, zero, suc, ◌+◌, ◌/◌, ◌%◌, ◌≡◌, refl, ℤ, pos, negsuc, ◌+ℤ◌, String, ◌&&◌, Option, none, some,
  [], ◌∷◌, ◌==◌, leb, or_else, is_empty, join, join_with, decimal, if◌then◌else◌, map, lookup_text,
}
use gateline.Orchestrator.Intents.{to_fixed, number_text}
use gateline.Orchestrator.Governor.{
  concurrency, turn, spend, repository_spend, unregistered, GovernorRefusal,
  default_spend_window_ms,
}

-- `describeWindow(ms)`; the minutes are rounded, a half upwards.
unfoldable pub describe_window : ℕ → String
describe_window ms =
    let hour : ℕ = 3600000 in
    let hours = ms / hour in
    let whole = ms % hour == 0 in
    if leb 48 hours && whole && hours % 24 == 0
    then join (decimal (hours / 24) ∷ " days" ∷ [])
    else if leb 1 hours && whole
    then join (decimal hours ∷ " hour" ∷ (if hours == 1 then "" else "s") ∷ [])
    else join (decimal ((ms + 30000) / 60000) ∷ " min" ∷ [])

-- The rule of the engine that a refusal defers under.
pub data DeferRule : Type 0 where
  mc hb : DeferRule

unfoldable pub refusal_rule : GovernorRefusal → DeferRule
refusal_rule r = elim r.limit [
  | concurrency ↦ mc
  | turn ↦ mc
  | unregistered ↦ mc
  | spend ↦ hb
  | repository_spend ↦ hb
]

abbrev pub money : Option ℤ → String
unfolding to_fixed
money n = join ("$" ∷ to_fixed (or_else n (pos 0)) ∷ [])

abbrev pub minus_ℤ : ℤ → ℤ → ℤ
minus_ℤ a b = a +ℤ opposite b
  where
    opposite : ℤ → ℤ
    opposite (pos zero) = pos 0
    opposite (pos (suc n)) = negsuc n
    opposite (negsuc n) = pos (suc n)

abbrev pub name_in : GovernorRefusal → String → String
name_in r key = or_else (lookup_text key (or_else r.names [])) key

abbrev pub optional_name : GovernorRefusal → Option String → String
optional_name r none = ""
optional_name r (some key) = name_in r key

unfoldable pub spend_words : GovernorRefusal → String
unfolding describe_window number_text
spend_words r =
    let closed = or_else r.closed_usd (pos 0) in
    let projected = or_else r.projected_usd (pos 0) +ℤ or_else r.requested_usd (pos 0) in
    join (
      money (some projected)
      ∷ " over the last "
      ∷ describe_window (or_else r.window_ms default_spend_window_ms)
      ∷ " (ledger "
      ∷ money (some closed)
      ∷ " in the window + "
      ∷ money (some (minus_ℤ projected closed))
      ∷ " in flight and requested) exceeds "
      ∷ [])

abbrev limit_words : GovernorRefusal → String
limit_words r = number_text (or_else r.limit_usd (pos 0))

-- `refusalReason(r, what, rederives)`.
unfoldable pub refusal_reason : GovernorRefusal → String → String → String
unfolding spend_words
refusal_reason r what rederives = elim r.limit [
  | concurrency ↦
      if is_empty r.unseeded
      then join (
          what
          ∷ " deferred — "
          ∷ decimal r.occupied
          ∷ " in flight against --max-concurrent-dispatches "
          ∷ decimal r.cap
          ∷ "; re-derived when a slot frees"
          ∷ [])
      else join (
          what
          ∷ " deferred — the governor grants nothing until "
          ∷ join_with ", " (map (name_in r) r.unseeded)
          ∷ " has counted its open dispatches and reported its spend since startup; re-derived once it has"
          ∷ [])
  | turn ↦ join (
      what
      ∷ " deferred — the free slot is held for "
      ∷ optional_name r r.held_for
      ∷ "'s turn (round-robin between repositories under --max-concurrent-dispatches "
      ∷ decimal r.cap
      ∷ "); re-derived when a slot frees"
      ∷ [])
  | spend ↦ join (
      "projected host spend "
      ∷ spend_words r
      ∷ "--spend-limit-usd $"
      ∷ limit_words r
      ∷ " — deferred, not paused: the window rolls and "
      ∷ rederives
      ∷ [])
  | repository_spend ↦ join (
      "projected spend for "
      ∷ name_in r r.repository
      ∷ " "
      ∷ spend_words r
      ∷ "that repository's own ceiling $"
      ∷ limit_words r
      ∷ " — deferred, not paused: the window rolls and "
      ∷ rederives
      ∷ [])
  | unregistered ↦ join (
      what
      ∷ " not admitted — "
      ∷ name_in r r.repository
      ∷ " has left the governor (its engine stopped); nothing is granted to it until it registers again"
      ∷ [])
]

window_tests :
    (describe_window 86400000 ≡ "24 hours")
    × (describe_window 172800000 ≡ "2 days")
    × (describe_window 5400000 ≡ "90 min")
unfolding describe_window decimal
window_tests = (refl, refl, refl)
