-- ===== src/Orchestrator/Derive/Gated.antt =====
-- The checks of `gatedDispatch` in packages/orchestrator/src/derive.ts, DL and DB, hold of whatever the
-- table dispatches; and its escalations pause the run.
use gateline.Prelude.{
  ◌<◌, ◌≡◌, ◌≢◌, ℤ, ◌≤ℤ◌, Option, none, some, List, [], ◌∷◌, ◌⊎◌, inl, inr, All, arith, String,
  option_split, Option-cases,
}
use gateline.Orchestrator.Observation.{RunObservation}
use gateline.Orchestrator.Intents.{
  Rule, DispatchIntent, DerivedAction, dispatch, escalate, landing_cap,
}
use gateline.Orchestrator.Checks.{
  idle_count, landing_check, enforced_limit, projected, budget_check, gated_dispatch,
}
use gateline.Orchestrator.Derive.Table.{derive_action}
use gateline.Orchestrator.Derive.Induction.{derive_induction}

abbrev pub Within : Option ℤ → ℤ → Type 0
Within none amount = Unit
Within (some limit) amount = amount ≤ℤ limit

-- No role of the dispatches has twice returned without landing what it is sent for, and what they
-- would cost at most, with what is spent and open, is within the limit that is enforced.
pub record Affordable (obs : RunObservation) (ds : List DispatchIntent) : Type 0 where
  pub productive : All (λ d. (d.lands ≡ none) ⊎ (idle_count obs d < landing_cap)) ds
  pub within : Within (enforced_limit obs) (projected obs ds)

landing_check_productive :
    (obs : RunObservation) (ds : List DispatchIntent)
    → landing_check obs ds ≡ none
    → All (λ d. (d.lands ≡ none) ⊎ (idle_count obs d < landing_cap)) ds
unfolding landing_check
landing_check_productive obs [] h = tt
landing_check_productive obs (d ∷ ds) h = elim (Option-cases d.lands) [
  | inl free ↦ (inl free, landing_check_productive obs ds (ground arith))
  | inr (artifact, e) ↦ (inr (ground arith), landing_check_productive obs ds (ground arith))
]

budget_check-Within :
    (obs : RunObservation) (ds : List DispatchIntent)
    → budget_check obs ds ≡ none
    → Within (enforced_limit obs) (projected obs ds)
unfolding budget_check
budget_check-Within obs ds h = ground arith

-- If the action dispatches, what it dispatches is affordable.
record Gates (obs : RunObservation) (a : DerivedAction) : Type 0 where
  apply : (r : Rule) (ds : List DispatchIntent) → a ≡ dispatch r ds → Affordable obs ds

gated_dispatch-Gates :
    (obs : RunObservation) (ds : List DispatchIntent) (rule : Rule)
    → Gates obs (gated_dispatch obs ds rule)
unfolding gated_dispatch
gated_dispatch-Gates obs ds rule =
    option_split (Gates obs) (landing_check obs ds)
      (λ landing.
        option_split (Gates obs) (budget_check obs ds)
          (λ budget. record {
            apply = λ r es e.
                let same : ds ≡ es = cc e in
                rw (← same) (record {
                  productive = landing_check_productive obs ds landing;
                  within = budget_check-Within obs ds budget;
                });
          })
          (λ reason e. record { apply = λ r es e'. cc e' }))
      (λ reason e. record { apply = λ r es e'. cc e' })

-- Whatever the table dispatches has passed both checks: no role of it has twice or more returned
-- without landing its artifact, and where a limit is enforced, the ledger with the estimates of the
-- open dispatches and of these stays within it.
pub derive_dispatches-Affordable :
    (obs : RunObservation) (rule : Rule) (ds : List DispatchIntent)
    → derive_action obs ≡ dispatch rule ds
    → Affordable obs ds
derive_dispatches-Affordable obs rule ds e =
    (derive_induction obs (Gates obs) (λ r. record { apply = λ r' es e'. cc e' })
        (λ r us. record { apply = λ r' es e'. cc e' })
        (λ r reason pause. record { apply = λ r' es e'. cc e' }) (gated_dispatch-Gates obs)).apply
      rule ds e

-- An escalation names the reason to pause with.
record Pauses (a : DerivedAction) : Type 0 where
  apply :
      (r : Rule) (reason : String) (pause : Option String)
      → a ≡ escalate r reason pause
      → pause ≢ none

gated_dispatch-Pauses :
    (obs : RunObservation) (ds : List DispatchIntent) (rule : Rule)
    → Pauses (gated_dispatch obs ds rule)
unfolding gated_dispatch
gated_dispatch-Pauses obs ds rule =
    option_split Pauses (landing_check obs ds)
      (λ landing.
        option_split Pauses (budget_check obs ds)
          (λ budget. record { apply = λ r reason pause e. cc e })
          (λ text e. record { apply = λ r reason pause e'. λ n. cc (e', n) }))
      (λ text e. record { apply = λ r reason pause e'. λ n. cc (e', n) })

-- Every escalation the table answers with pauses the run.
pub derive_escalations_pause :
    (obs : RunObservation) (rule : Rule) (reason : String) (pause : Option String)
    → derive_action obs ≡ escalate rule reason pause
    → pause ≢ none
derive_escalations_pause obs rule reason pause e =
    (derive_induction obs Pauses (λ r. record { apply = λ r' t p e'. cc e' })
        (λ r us. record { apply = λ r' t p e'. cc e' })
        (λ r t p. record { apply = λ r' t' p' e'. λ n. cc (e', n) })
        (gated_dispatch-Pauses obs)).apply
      rule reason pause e
