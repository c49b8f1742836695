-- ===== src/Orchestrator/Bouncing.antt =====
-- The bounces that count against an artifact, in the walk of `observeRun` over the history of a run:
-- packages/orchestrator/src/observe.ts, with the pattern CONTRACT_DISPUTE of derive.ts.
pub mod Bounces
pub mod Resets
pub mod Shadowed
pub mod Disputes
use Prim.Native.Char.{Char, code}
use gateline.Prelude.{
  lookup_text, ℕ, suc, ◌+◌, ◌/◌, ltb, leb, ◌==◌, String, Bool, true, false, not, ◌&&◌, ◌||◌, Option,
  none, some, List, [], ◌∷◌, or_else, mem_text, is_space, is_blank, trim_start, if◌then◌else◌,
}
use gateline.Record.State.{Escalation}
use gateline.Record.Raw.{Stamp}
use gateline.Sources.Order.{CommitInfo, StateCommit}
use gateline.Orchestrator.Observation.{at_index}

-- ---- Bounces.

abbrev pub strip_text : String → String → Option String
strip_text String.[] s = some s
strip_text (String.◌∷◌ c p) String.[] = none
strip_text (String.◌∷◌ c p) (String.◌∷◌ d s) = if code c == code d then strip_text p s else none

-- The longest prefix with no white space, and the rest.
unfoldable pub split_word : String → String × String
split_word String.[] = ("", "")
split_word (String.◌∷◌ c s) =
    let rest = split_word s in
    if is_space c then ("", String.◌∷◌ c s) else (String.◌∷◌ c rest.0, rest.1)

-- What follows the first `)`, with it; `none` where nothing stands before it, or there is none.
unfoldable pub past_slug : Bool → String → Option String
past_slug some_seen String.[] = none
past_slug some_seen (String.◌∷◌ c s) =
    let rest = past_slug true s in
    if code c == b')' then (if some_seen then some (String.◌∷◌ c s) else none) else rest

abbrev pub is_digit : Char → Bool
is_digit c = leb b'0' (code c) && leb (code c) b'9'

abbrev pub drop_digits : Bool → String → Option String
drop_digits some_seen String.[] = if some_seen then some "" else none
drop_digits some_seen (String.◌∷◌ c s) =
    let rest = drop_digits true s in
    if is_digit c then rest else if some_seen then some (String.◌∷◌ c s) else none

abbrev pub is_word : Char → Bool
is_word c =
    is_digit c
    || leb b'A' (code c) && leb (code c) b'Z'
    || leb b'a' (code c) && leb (code c) b'z'
    || code c == b'_'

abbrev pub ends_word : String → Bool
ends_word String.[] = true
ends_word (String.◌∷◌ c s) = not (is_word c)

abbrev pub and_then : Option String → (String → Option String) → Option String
and_then none f = none
and_then (some s) f = f s

abbrev pub starts_blank : String → Bool
starts_blank String.[] = false
starts_blank (String.◌∷◌ c s) = is_space c

abbrev pub nonempty : String → Option String
nonempty s = if is_blank s then none else some s

-- `/^(\S+) bounced \d+× and is still malformed\b/`.
unfoldable pub contract_dispute : String → Option String
contract_dispute reason =
    let word = split_word reason in
    and_then (nonempty word.0) (λ artifact. and_then (strip_text " bounced " word.1) (λ s.
      and_then (drop_digits false s) (λ t.
        and_then (strip_text "× and is still malformed" t)
          (λ rest. if ends_word rest then some artifact else none))))

-- `/^state\([^)]+\):\s*bounced\s+(\S+)/`.
unfoldable pub bounced_artifact : String → Option String
bounced_artifact subject = and_then (strip_text "state(" subject) (λ s.
    and_then (past_slug false s) (λ t. and_then (strip_text "):" t) (λ u.
      and_then (strip_text "bounced" (trim_start u))
        (λ rest. if starts_blank rest then nonempty (split_word (trim_start rest)).0 else none))))

-- `disputeResolutionOids`, a later dispute of a commit in place of an earlier one.
unfoldable pub dispute_oids :
    List Escalation → List (Option CommitInfo) → ℕ → List (String × String) → List (String × String)
dispute_oids [] commits i m = m
dispute_oids (e ∷ es) commits i m =
    dispute_oids es commits (suc i) (elim (if e.resolved then contract_dispute e.reason else none) [
      | none ↦ m
      | some artifact ↦ elim (at_index commits i) [ none ↦ m | some c ↦ (c.oid, artifact) ∷ m ]
    ])

-- The seconds of a time stamp.
abbrev pub stamp_seconds : Option Stamp → Option ℕ
stamp_seconds none = none
stamp_seconds (some s) = elim s.ms [ none ↦ none | some ms ↦ some (ms / 1000) ]

abbrev pub later_than : ℕ → Option ℕ → Bool
later_than t none = true
later_than t (some u) = ltb u t

-- `disputeResolvedAt`.
unfoldable pub dispute_times :
    List Escalation → List (Option CommitInfo) → ℕ → List (String × ℕ) → List (String × ℕ)
dispute_times [] commits i m = m
dispute_times (e ∷ es) commits i m =
    dispute_times es commits (suc i)
      (elim (if e.resolved then contract_dispute e.reason else none) [
        | none ↦ m
        | some artifact ↦ elim (at_index commits i) [
          | some c ↦ m
          | none ↦ elim (stamp_seconds e.resolved_at) [
            | none ↦ m
            | some at ↦ if later_than at (lookup_text artifact m) then (artifact, at) ∷ m else m
          ]
        ]
      ])

abbrev pub close_budget : Option String → List String → List String
close_budget none closed = closed
close_budget (some artifact) closed = artifact ∷ closed

abbrev pub bump : String → List (String × ℕ) → List (String × ℕ)
bump artifact counts = (artifact, or_else (lookup_text artifact counts) 0 + 1) ∷ counts

-- The rounds of the walk that concern bounces.
unfoldable pub walk_bounces :
    List (String × String)
    → List (String × ℕ)
    → List StateCommit
    → List String
    → List (String × ℕ)
    → List (String × ℕ)
walk_bounces oids times [] closed counts = counts
walk_bounces oids times (c ∷ cs) closed counts =
    let closed' = close_budget (lookup_text c.commit.oid oids) closed in
    walk_bounces oids times cs closed' (elim (bounced_artifact c.commit.subject) [
      | none ↦ counts
      | some artifact ↦
          if not (mem_text artifact closed')
            && later_than c.commit.time (lookup_text artifact times)
          then bump artifact counts
          else counts
    ])

unfoldable pub bounce_counts_of :
    List StateCommit → List Escalation → List (Option CommitInfo) → List (String × ℕ)
unfolding walk_bounces
bounce_counts_of history escalations commits =
    walk_bounces (dispute_oids escalations commits 0 []) (dispute_times escalations commits 0 [])
      history [] []
