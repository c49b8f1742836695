-- ===== src/Orchestrator/Bouncing/Shadowed.antt =====
-- Two contract disputes that one commit resolved: disputeResolutionOids in `observeRun` of
-- packages/orchestrator/src/observe.ts keeps one artifact for a commit.
use gateline.Prelude.{lookup_text, ◌≡◌, String, true, false, Option, some, List, ◌∷◌}
use gateline.Record.State.{Escalation}
use gateline.Sources.Order.{CommitInfo}
use gateline.Orchestrator.Bouncing.{contract_dispute}

-- Two maps that answer alike.
abbrev Alike : List (String × String) → List (String × String) → Type 0
Alike m n = (k : String) → lookup_text k m ≡ lookup_text k n

-- The escalation with its resolution taken back.
abbrev pub unresolved : Escalation → Escalation
unresolved e = record e { resolved = false }

module _ (d e : Escalation) (es : List Escalation) (c : CommitInfo)
    (commits : List (Option CommitInfo)) (a b : String) (r : d.resolved ≡ true)
    (n : contract_dispute d.reason ≡ some a) (s : e.resolved ≡ true)
    (m : contract_dispute e.reason ≡ some b) where
  abbrev both : List (Option CommitInfo)
  both = some c ∷ some c ∷ commits
