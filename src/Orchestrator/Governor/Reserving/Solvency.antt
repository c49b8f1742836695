-- ===== src/Orchestrator/Governor/Reserving/Solvency.antt =====
-- The spend window of packages/orchestrator/src/governor.ts after a grant.
use Prim.Native.Char.{Char, code}
use gateline.Prelude.{
  ℕ, ◌-◌, ◌≡◌, refl, sym, ap, ◌∙◌, ◌⊎◌, inl, inr, ℤ, pos, ◌+ℤ◌, ◌≤ℤ◌, String, true, false, none,
  some, List, [], ◌∷◌, ◌==◌, has_text, keys_of, lookup_text, text_eq, arith, Bool-cases, All,
}
use gateline.Orchestrator.Governor.{
  Governor, RepoState, ReservationIntent, ReservationRequest, repository_id_key, lower_char,
  lower_by, lower_letters, spend_window,
}
use gateline.Orchestrator.Governor.Spend.{
  report_of, report_open, report_closed, settled_of, reported_ids, spend_items, count_open,
  count_holds, passed_over, repo_spend, spend_over, SpendSum, superseded_for, add_spend,
}
use gateline.Orchestrator.Governor.Spend.Sums.{NonNegative, Unique, text_path, text_flip, parts_add}
use gateline.Orchestrator.Governor.Reserving.{take_slots}
use gateline.Orchestrator.Governor.Counting.{takes_over, superseded_keys, sum_intents}
use gateline.Orchestrator.Governor.Reserving.Holds.{Fresh}
use gateline.Orchestrator.Governor.Reserving.Costs.{own_estimates}
use gateline.Orchestrator.Governor.Reserving.Estimates.{count_holds_other, count_live_other}

-- ---- The key of a key is the key.

abbrev Fixed : List (ℕ × Char) → Type 0
Fixed [] = Unit
Fixed ((n, l) ∷ ls) = (lower_by lower_letters l ≡ l) × Fixed ls

lower_by-cases :
    (ls : List (ℕ × Char)) (c : Char)
    → Fixed ls
    → (lower_by ls c ≡ c) ⊎ (lower_by lower_letters (lower_by ls c) ≡ lower_by ls c)
lower_by-cases [] c f = inl refl
lower_by-cases ((n, l) ∷ ls) c f = elim (Bool-cases (code c == n)) [
  | inl e ↦ rw e (inr f.0)
  | inr e ↦ rw e (lower_by-cases ls c f.1)
]

letters-Fixed : Fixed lower_letters
letters-Fixed = (
  refl,
  (
    refl,
    (
      refl,
      (
        refl,
        (
          refl,
          (
            refl,
            (
              refl,
              (
                refl,
                (
                  refl,
                  (
                    refl,
                    (
                      refl,
                      (
                        refl,
                        (
                          refl,
                          (
                            refl,
                            (
                              refl,
                              (
                                refl,
                                (
                                  refl,
                                  (
                                    refl,
                                    (
                                      refl,
                                      (refl, (refl, (refl, (refl, (refl, (refl, (refl, tt))))))),
                                    ),
                                  ),
                                ),
                              ),
                            ),
                          ),
                        ),
                      ),
                    ),
                  ),
                ),
              ),
            ),
          ),
        ),
      ),
    ),
  ),
)

lower_char_twice : (c : Char) → lower_char (lower_char c) ≡ lower_char c
unfolding lower_char
lower_char_twice c = elim (lower_by-cases lower_letters c letters-Fixed) [
  | inl e ↦ ap (lower_by lower_letters) e
  | inr e ↦ e
]

pub repository_id_key_twice :
    (s : String) → repository_id_key (repository_id_key s) ≡ repository_id_key s
unfolding repository_id_key
repository_id_key_twice String.[] = refl
repository_id_key_twice (String.◌∷◌ c s) = rw (lower_char_twice c, repository_id_key_twice s) refl

-- ---- What the spend window needs of the state.

-- A repository stands under its key, and no open estimate of its report is negative.
abbrev pub RepoSound : String × RepoState → Type 0
RepoSound e =
    (repository_id_key e.0 ≡ e.0) × All (λ o. NonNegative o.estimate_usd) (report_open e.1.report)

-- Each repository stands once, under its key, and no estimate is negative.
pub record Sound (g : Governor) : Type 0 where
  pub once : Unique g.repos
  pub repos : All RepoSound g.repos
  pub holds : All (λ h. NonNegative h.estimate_usd) g.holds
  pub live : All (λ s. NonNegative s.estimate_usd) g.live

pub report_costly :
    (name : String) (m : List (String × RepoState))
    → All RepoSound m
    → All (λ o. NonNegative o.estimate_usd) (report_open (report_of (lookup_text name m)))
report_costly name [] a = tt
report_costly name ((k, r) ∷ m) a = elim (Bool-cases (text_eq k name)) [
  | inl e ↦ rw e a.0.1
  | inr e ↦ rw e (report_costly name m a.1)
]

absent_head :
    (repository k : String) (r : RepoState) (m : List (String × RepoState))
    → has_text repository ((k, r) ∷ m) ≡ false
    → text_eq k repository ≡ false
absent_head repository k r m h = ground (arith, h)

absent_tail :
    (repository k : String) (r : RepoState) (m : List (String × RepoState))
    → has_text repository ((k, r) ∷ m) ≡ false
    → has_text repository m ≡ false
absent_tail repository k r m h = ground (arith, h)

absent_same :
    (j k : String) (m : List (String × RepoState))
    → text_eq j k ≡ true
    → has_text j m ≡ false
    → has_text k m ≡ false
absent_same j k m h a = rw (sym (text_path j k h)) a

from_zero : (v : ℤ) → NonNegative v → pos 0 ≤ℤ pos 0 +ℤ v
from_zero v h = omega (arith, parts_add (pos 0) v, h)

own_first : (a b c v : ℤ) → a ≤ℤ b +ℤ v → a +ℤ c ≤ℤ b +ℤ c +ℤ v
own_first a b c v h =
    omega (arith, parts_add a c, parts_add b v, parts_add b c, parts_add (b +ℤ c) v, h)

own_rest : (a b c v : ℤ) → b ≤ℤ c +ℤ v → a +ℤ b ≤ℤ a +ℤ c +ℤ v
own_rest a b c v h =
    omega (arith, parts_add a b, parts_add a c, parts_add c v, parts_add (a +ℤ c) v, h)

pub own_others : (a d b c v : ℤ) → a ≡ d → b ≤ℤ c +ℤ v → a +ℤ b ≤ℤ d +ℤ c +ℤ v
own_others a d b c v e h = rw e (own_rest d b c v h)

-- ---- One repository after the grant.

module _ (g : Governor) (now : ℕ) (request : ReservationRequest) (repository : String) (n : ℕ)
    (take : List ReservationIntent) where
  abbrev superseded : List String
  superseded = superseded_keys (takes_over g.holds repository) take

  abbrev grown : Governor
  grown = take_slots g request repository n take superseded

  other_spend :
      (name : String)
      → text_eq repository (repository_id_key name) ≡ false
      → repo_spend grown now name [] ≡ repo_spend g now name []
  unfolding repo_spend spend_items take_slots spend_window
  other_spend name ne =
      let state = lookup_text (repository_id_key name) g.repos in
      let ids = reported_ids (report_closed (report_of state)) in
      let opened =
        count_open (passed_over (now - spend_window g) (settled_of state) [])
          (report_open (report_of state)) [] in
      rw
        (
          count_holds_other (repository_id_key name) repository superseded g.holds opened ne,
          count_live_other (repository_id_key name) request.repository repository ids g.live take
              g.serials (count_holds (repository_id_key name) [] g.holds opened) ne,
        )
        refl

  own_spend :
      (name : String)
      → repository_id_key name ≡ repository
      → Fresh [] take
      → Sound g
      → (repo_spend grown now name []).open_usd
        ≤ℤ (repo_spend g now name superseded).open_usd +ℤ sum_intents take
  unfolding repo_spend spend_items take_slots spend_window
  own_spend name e f s = rw e (
      own_estimates (now - spend_window g) g.serials (settled_of (lookup_text repository g.repos))
        request.repository repository
        (reported_ids (report_closed (report_of (lookup_text repository g.repos))))
        (report_open (report_of (lookup_text repository g.repos))) g.holds g.live
        (takes_over g.holds repository) take f (report_costly repository g.repos s.repos) s.holds
        s.live)

  closed_spend :
      (name : String) (ks : List String)
      → (repo_spend grown now name []).closed ≡ (repo_spend g now name ks).closed
  unfolding repo_spend spend_items take_slots spend_window
  closed_spend name ks = refl

  other_step :
      (k : String)
      → repository_id_key k ≡ k
      → text_eq k repository ≡ false
      → repo_spend grown now k []
        ≡ repo_spend g now k (superseded_for (some repository) k superseded)
  other_step k e ne = rw ne (other_spend k (rw e (text_flip k repository ne)))

  others_spend :
      (m : List (String × RepoState))
      → All RepoSound m
      → has_text repository m ≡ false
      → spend_over grown now none [] (keys_of m)
        ≡ spend_over g now (some repository) superseded (keys_of m)
  unfolding spend_over
  others_spend [] a h = refl
  others_spend ((k, r) ∷ m) a h =
      ap (λ s. add_spend s (spend_over grown now none [] (keys_of m)))
        (other_step k a.0.0 (absent_head repository k r m h))
      ∙ ap (add_spend (repo_spend g now k (superseded_for (some repository) k superseded)))
          (others_spend m a.1 (absent_tail repository k r m h))

  own_step :
      (k : String)
      → repository_id_key k ≡ k
      → text_eq k repository ≡ true
      → Fresh [] take
      → Sound g
      → (repo_spend grown now k []).open_usd
        ≤ℤ (repo_spend g now k (superseded_for (some repository) k superseded)).open_usd
          +ℤ sum_intents take
  own_step k e same f s = rw same (own_spend k (e ∙ text_path k repository same) f s)

  pub all_spend :
      (m : List (String × RepoState))
      → Fresh [] take
      → Sound g
      → Unique m
      → All RepoSound m
      → NonNegative (sum_intents take)
      → let a = spend_over grown now none [] (keys_of m) in
        let b = spend_over g now (some repository) superseded (keys_of m) in
        (a.closed ≡ b.closed) × (a.open_usd ≤ℤ b.open_usd +ℤ sum_intents take)
  unfolding spend_over
  all_spend [] f s u a c = (refl, from_zero (sum_intents take) c)
  all_spend ((k, r) ∷ m) f s u a c =
      let judged = repo_spend g now k (superseded_for (some repository) k superseded) in
      let closed = closed_spend k (superseded_for (some repository) k superseded) in
      elim (Bool-cases (text_eq k repository)) [
        | inl e ↦
            let rest = others_spend m a.1 (absent_same k repository m e u.0) in
            (
              ap (λ x. x +ℤ (spend_over grown now none [] (keys_of m)).closed) closed
                  ∙ ap (λ (t : SpendSum). judged.closed +ℤ t.closed) rest,
              rw rest (
                  own_first (repo_spend grown now k []).open_usd judged.open_usd _
                    (sum_intents take) (own_step k a.0.0 e f s)),
            )
        | inr e ↦
            let rest = all_spend m f s u.1 a.1 c in
            (
              ap (λ x. x +ℤ (spend_over grown now none [] (keys_of m)).closed) closed
                  ∙ ap (λ x. judged.closed +ℤ x) rest.0,
              own_others (repo_spend grown now k []).open_usd judged.open_usd _ _ (sum_intents take)
                  (ap (λ (t : SpendSum). t.open_usd) (other_step k a.0.0 e)) rest.1,
            )
      ]
