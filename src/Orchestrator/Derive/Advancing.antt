-- ===== src/Orchestrator/Derive/Advancing.antt =====
-- How rule D5 of packages/orchestrator/src/derive.ts comes to rest, tick after tick.
use gateline.Prelude.{
  ℕ, zero, suc, ◌+◌, ◌≤◌, ◌<◌, ◌≡◌, refl, true, Option, none, some, List, [], ◌∷◌, ◌⊎◌, inl, inr,
  arith, length, Bool-cases, Option-cases, ◌&&◌,
}
use gateline.Record.Phases.{
  Phase, Profile, GateId, profile_gates, profile_phases, mem_phase, phase_after_gate, gate_phases,
}
use gateline.Record.State.{Gates, gate_entry, index_of, sequence}
use gateline.Sources.Order.{earlier}
use gateline.Orchestrator.Intents.{d5, DerivedAction, book, set_phase}
use gateline.Orchestrator.Derive.Table.{advance_gate}
use gateline.Orchestrator.Derive.Held.{advance_gate_forward}

-- The phase after a tick's answer is written: the one that it books, or the same.
abbrev pub booked : Phase → Option DerivedAction → Phase
booked ph (some (book rule (set_phase q ∷ []))) = q
booked ph _ = ph

-- The phase after so many ticks at which D5 alone is asked, the gates left as they are.
abbrev pub after_ticks : ℕ → Profile → Gates → Phase → Phase
after_ticks zero p gs ph = ph
after_ticks (suc n) p gs ph =
    after_ticks n p gs (booked ph (advance_gate p ph gs (profile_gates p)))

advance_gate-cases :
    (p : Profile) (ph : Phase) (gs : Gates) (gates : List GateId)
    → (advance_gate p ph gs gates ≡ none)
      ⊎ ((q : Phase) × (advance_gate p ph gs gates ≡ some (book d5 (set_phase q ∷ []))))
unfolding advance_gate
advance_gate-cases p ph gs [] = inl refl
advance_gate-cases p ph gs (g ∷ gates) =
    elim (Bool-cases (mem_phase ph (gate_phases g) && (gate_entry gs g).approved)) [
      | inl e ↦ inr (phase_after_gate g p, rw e refl)
      | inr e ↦ elim (advance_gate-cases p ph gs gates) [
        | inl k ↦ inl (rw e k)
        | inr (q, k) ↦ inr (q, rw e k)
      ]
    ]

index_of-lt : (p : Phase) (ps : List Phase) (i : ℕ) → index_of p ps ≡ some i → i < length ps
index_of-lt p [] i e = cc e
index_of-lt p (q ∷ ps) i e = elim (Option-cases (index_of p ps)) [
  | inl missing ↦ ground arith
  | inr (j, here) ↦ (let inside = index_of-lt p ps j here in ground (arith, inside))
]

placed :
    (p : Profile) (q : Phase) (i : ℕ)
    → index_of q (sequence p) ≡ some i
    → mem_phase q (profile_phases p) ≡ true
placed p q i e = ground arith

still :
    (n : ℕ) (p : Profile) (gs : Gates) (ph : Phase)
    → advance_gate p ph gs (profile_gates p) ≡ none
    → after_ticks n p gs ph ≡ ph
still zero p gs ph e = refl
still (suc n) p gs ph e = rw e (still n p gs ph e)

-- What `earlier` says: both have a place, the first before the second.
earlier-places :
    (x y : Option ℕ)
    → earlier x y ≡ some true
    → (i : ℕ) × (j : ℕ) × (x ≡ some i) × (y ≡ some j) × (i < j)
earlier-places none y e = cc e
earlier-places (some i) none e = cc e
earlier-places (some i) (some j) e = (i, j, refl, refl, ground arith)

settles_from :
    (n i : ℕ) (p : Profile) (gs : Gates) (ph : Phase)
    → index_of ph (sequence p) ≡ some i
    → length (sequence p) ≤ n + i
    → advance_gate p (after_ticks n p gs ph) gs (profile_gates p) ≡ none
settles_from zero i p gs ph e h =
    let inside = index_of-lt ph (sequence p) i e in absurd (omega (arith, inside, h))
settles_from (suc n) i p gs ph e h = elim (advance_gate-cases p ph gs (profile_gates p)) [
  | inl rests ↦ rw (still (suc n) p gs ph rests) rests
  | inr (q, moves) ↦
      (let (k, j, at, to, before) =
          earlier-places _ _ (advance_gate_forward p ph q gs moves (placed p ph i e)) in
        let same : k ≡ i = cc (at, e) in
        rw moves (settles_from n j p gs q to (omega (arith, before, same, h))))
]

-- Rule D5 comes to rest: with the gates left as they are, after as many ticks as the profile has phases in
-- its sequence, it has no move left, whatever phase of the profile the run began in.
pub advance_gate_settles :
    (p : Profile) (gs : Gates) (ph : Phase)
    → mem_phase ph (profile_phases p) ≡ true
    → advance_gate p (after_ticks (length (sequence p)) p gs ph) gs (profile_gates p) ≡ none
advance_gate_settles p gs ph m = elim (advance_gate-cases p ph gs (profile_gates p)) [
  | inl rests ↦ rw (still (length (sequence p)) p gs ph rests) rests
  | inr (q, moves) ↦
      (let (i, j, at, to, before) = earlier-places _ _ (advance_gate_forward p ph q gs moves m) in
        settles_from (length (sequence p)) i p gs ph at (omega arith))
]
