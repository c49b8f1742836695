-- ===== src/Orchestrator/Derive/Answers.antt =====
-- Which resolution answers a question of the table: `latestResolution` of
-- packages/orchestrator/src/derive.ts, and the round cap (D4) that it lifts.
use text.Mathlib.TextLemmas.{append_assoc}
use Prim.Native.String.{◌++◌}
use gateline.Prelude.{
  ℕ, zero, suc, ◌+◌, ◌≡◌, refl, sym, ◌∙◌, ap, String, Bool, true, not, ◌||◌, Option, none, some,
  List, [], ◌∷◌, is_some, get_elem?, if_split, arith, includes, decimal, includes-append_left,
  if_intro,
}
use gateline.Record.State.{Escalation, TaskEntry}
use gateline.Orchestrator.Observation.{RunObservation, Anchor, after, anchored, resolution_anchor}
use gateline.Orchestrator.Intents.{round_cap_reason, task_key}
use gateline.Orchestrator.Routes.{
  Resolution, is_newer, better_resolution, best_resolution, escalations_of, latest_resolution,
  review_anchor, review_of,
}
use gateline.Orchestrator.Derive.Table.{granted_round}

-- A resolved entry of the record that matches, and that was resolved after the given point.
pub record IsAnswer (obs : RunObservation) (matches : String → Bool) (since : Anchor)
    (r : Resolution) : Type 0 where
  pub listed : get_elem? (escalations_of obs.state) r.index ≡ some r.entry
  pub resolved : r.entry.resolved ≡ true
  pub matching : matches r.entry.reason ≡ true
  pub placed : r.at ≡ resolution_anchor obs r.index
  pub newer : after obs.order r.at since ≡ true

record Best (P : Resolution → Type 0) (o : Option Resolution) : Type 0 where
  apply : (r : Resolution) → o ≡ some r → P r

Best-some : {P : Resolution → Type 0} {r : Resolution} → P r → Best P (some r)
Best-some {r = r} p = record { apply = λ q e. let same : r ≡ q = cc e in rw (← same) p }

module _ (obs : RunObservation) (matches : String → Bool) (since : Anchor) where
  better_resolution-Best :
      (e : Escalation) (i : ℕ) (best : Option Resolution)
      → get_elem? (escalations_of obs.state) i ≡ some e
      → Best (IsAnswer obs matches since) best
      → Best (IsAnswer obs matches since) (better_resolution obs matches since e i best)
  unfolding better_resolution
  better_resolution-Best e i best listed b =
      let P = IsAnswer obs matches since in
      let at = resolution_anchor obs i in
      if_split (Best P) (not e.resolved || not (matches e.reason)) (λ h. b)
        (λ h.
          if_split (Best P) (not (anchored at) || not (after obs.order at since)) (λ k. b)
            (λ k.
              if_intro (Best P) (is_newer obs.order at best)
                (Best-some (record {
                  listed = listed;
                  resolved = ground arith;
                  matching = ground arith;
                  placed = refl;
                  newer = ground arith;
                }))
                b))

  best_resolution-Best :
      (es : List Escalation) (i : ℕ) (best : Option Resolution)
      → ((k : ℕ) (e : Escalation)
          → get_elem? es k ≡ some e
          → get_elem? (escalations_of obs.state) (k + i) ≡ some e)
      → Best (IsAnswer obs matches since) best
      → Best (IsAnswer obs matches since) (best_resolution obs matches since es i best)
  unfolding best_resolution
  best_resolution-Best [] i best h b = b
  best_resolution-Best (e ∷ es) i best h b =
      best_resolution-Best es (suc i) _
        (λ k e' l. let shift : suc k + i ≡ k + suc i = omega arith in rw (← shift) (h (suc k) e' l))
        (better_resolution-Best e i best
          (let zero_first : 0 + i ≡ i = omega arith in rw (← zero_first) (h 0 e refl)) b)

  better_resolution-found :
      (e : Escalation) (i : ℕ) (best : Option Resolution)
      → e.resolved ≡ true
      → matches e.reason ≡ true
      → anchored (resolution_anchor obs i) ≡ true
      → after obs.order (resolution_anchor obs i) since ≡ true
      → is_some (better_resolution obs matches since e i best) ≡ true
  unfolding better_resolution
  better_resolution-found e i best r m a n = ground arith

  better_resolution-kept :
      (e : Escalation) (i : ℕ) (best : Option Resolution)
      → is_some best ≡ true
      → is_some (better_resolution obs matches since e i best) ≡ true
  unfolding better_resolution
  better_resolution-kept e i best h = ground arith

  best_resolution-kept :
      (es : List Escalation) (i : ℕ) (best : Option Resolution)
      → is_some best ≡ true
      → is_some (best_resolution obs matches since es i best) ≡ true
  unfolding best_resolution
  best_resolution-kept [] i best h = h
  best_resolution-kept (e ∷ es) i best h =
      best_resolution-kept es (suc i) _ (better_resolution-kept e i best h)

  best_resolution-found :
      (es : List Escalation) (i k : ℕ) (best : Option Resolution) (e : Escalation)
      → get_elem? es k ≡ some e
      → e.resolved ≡ true
      → matches e.reason ≡ true
      → anchored (resolution_anchor obs (k + i)) ≡ true
      → after obs.order (resolution_anchor obs (k + i)) since ≡ true
      → is_some (best_resolution obs matches since es i best) ≡ true
  unfolding best_resolution
  best_resolution-found [] i k best e l r m a n = cc l
  best_resolution-found (e' ∷ es) i zero best e l r m a n =
      let same : e' ≡ e = cc l in
      let none_before : 0 + i ≡ i = omega arith in
      best_resolution-kept es (suc i) _ (
        better_resolution-found e' i best (rw same r) (rw same m) (rw none_before at a)
          (rw none_before at n))
  best_resolution-found (e' ∷ es) i (suc k) best e l r m a n =
      let shift : suc k + i ≡ k + suc i = omega arith in
      best_resolution-found es (suc i) k _ e l r m (rw shift at a) (rw shift at n)

plus_zero : (k : ℕ) → k + 0 ≡ k
plus_zero k = omega arith

-- What `latestResolution` answers with is an entry of the record, resolved, with a reason that matches,
-- and resolved after the given point.
pub latest_resolution_sound :
    (obs : RunObservation) (matches : String → Bool) (since : Anchor) (r : Resolution)
    → latest_resolution obs matches since ≡ some r
    → IsAnswer obs matches since r
unfolding latest_resolution
latest_resolution_sound obs matches since r e =
    (if_intro (Best (IsAnswer obs matches since)) (anchored since)
        (best_resolution-Best obs matches since (escalations_of obs.state) 0 none
          (λ k e' l. rw (plus_zero k) l) (record { apply = λ q f. cc f }))
        (record { apply = λ q f. cc f })).apply
      r e

-- Where the given point is known and some resolved entry that matches was resolved after it,
-- `latestResolution` finds an answer.
pub latest_resolution_complete :
    (obs : RunObservation) (matches : String → Bool) (since : Anchor) (k : ℕ) (e : Escalation)
    → anchored since ≡ true
    → get_elem? (escalations_of obs.state) k ≡ some e
    → e.resolved ≡ true
    → matches e.reason ≡ true
    → anchored (resolution_anchor obs k) ≡ true
    → after obs.order (resolution_anchor obs k) since ≡ true
    → is_some (latest_resolution obs matches since) ≡ true
unfolding latest_resolution
latest_resolution_complete obs matches since k e s l r m a n = rw s (
    best_resolution-found obs matches since (escalations_of obs.state) 0 k none e l r m
      (rw (plus_zero k) a) (rw (plus_zero k) n))

includes-round_cap_reason :
    (task : String) (rounds : ℕ) → includes (round_cap_reason task rounds) (task_key task) ≡ true
unfolding round_cap_reason task_key
includes-round_cap_reason task rounds =
    let rest : String =
      decimal rounds ++ (" review rounds without convergence — usually a spec ambiguity" ++ "") in
    let body : String = " " ++ rest in
    let whole : round_cap_reason task rounds ≡ task_key task ++ body = sym (
      append_assoc "task " (task ++ ":") body
      ∙ ap (λ r. "task " ++ r)
          (append_assoc task ":" body ∙ ap (λ r. task ++ r) (sym (append_assoc ":" " " rest)))) in
    rw whole (includes-append_left (task_key task) body)

-- A resolved entry that carries the reason the round cap escalates with, whatever its count of rounds,
-- and that was resolved after the task's last verdict, lifts the cap: rule D4 finds an answer.
pub round_cap_lifted :
    (obs : RunObservation) (t : TaskEntry) (rounds k : ℕ) (e : Escalation)
    → anchored (review_anchor obs (review_of obs t.id)) ≡ true
    → get_elem? (escalations_of obs.state) k ≡ some e
    → e.resolved ≡ true
    → e.reason ≡ round_cap_reason t.id rounds
    → anchored (resolution_anchor obs k) ≡ true
    → after obs.order (resolution_anchor obs k) (review_anchor obs (review_of obs t.id)) ≡ true
    → is_some (granted_round obs t) ≡ true
unfolding granted_round
round_cap_lifted obs t rounds k e s l r m a n =
    latest_resolution_complete obs (λ reason. includes reason (task_key t.id))
      (review_anchor obs (review_of obs t.id)) k e s l r
      (rw m (includes-round_cap_reason t.id rounds)) a n
