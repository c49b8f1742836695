-- ===== src/Orchestrator/Governor/Calls/Tombstones.antt =====
-- What each call of packages/orchestrator/src/governor.ts but `reserve` does to the tombstones.
use text.Mathlib.TextEquality.{eq_iff}
use gateline.Prelude.{
  ℕ, ◌≡◌, inl, inr, refl, String, Bool, true, false, not, ◌||◌, Option, none, some, List, [], ◌∷◌,
  ℤ, any, ltb_ℤ, pos, text_eq, has_text, put_text, drop_text, lookup_text, mem_text, find_by,
  get_elem?, arith, Bool-cases, if_intro, if_split, option_split, ◌==◌,
}
use gateline.Orchestrator.Governor.{
  Governor, RegisterOptions, SeedEntry, SpendReport, RepoState, Slot, Wake, repository_id_key,
}
use gateline.Orchestrator.Governor.Spend.{expire}
use gateline.Orchestrator.Governor.Waking.{
  settle_idle, freed, wake_finished, timer_ended, still_offered, give_back, end_wake, end_timer,
  drop_offer,
}
use gateline.Orchestrator.Governor.Waking.Quiet.{Quiet, settle_idle-Quiet, freed-Quiet}
use gateline.Orchestrator.Governor.Registering.{register, no_options}
use gateline.Orchestrator.Governor.Calls.{
  unsubscribe, release, release_slot, settle_slot, drop_slot, known_cost,
}
use gateline.Orchestrator.Governor.Reporting.{
  seed, plant, seeded_before, report_begins, report_lands, land_report, keep_report, cleared,
  merge_report,
}
use gateline.Orchestrator.Governor.Leaving.{unregister, bury, forget}

-- Steps that leave a tombstone standing.
pub record Buries (k : String) (g h : Governor) : Type 0 where
  pub apply : has_text k g.tombstones ≡ true → has_text k h.tombstones ≡ true

abbrev pub standing : {k : String} {g : Governor} → Buries k g g
standing = record { apply = λ b. b }

pub Buries-trans : {k : String} {g h i : Governor} → Buries k g h → Buries k h i → Buries k g i
Buries-trans p q = record { apply = λ b. q.apply (p.apply b) }

Quiet-Buries : {k : String} {g h : Governor} → Quiet g h → Buries k g h
Quiet-Buries q = record { apply = λ b. rw q.tombstones b }

pub freed-Buries :
    {k : String} {g : Governor} (h : Governor) (now : ℕ) (exclude : Option String)
    → Buries k g h
    → Buries k g (freed h now exclude)
freed-Buries h now exclude b = Buries-trans b (Quiet-Buries (freed-Quiet h now exclude))

text_same : (a b k : String) → text_eq a b ≡ true → text_eq a k ≡ text_eq b k
text_same a b k e = rw ((eq_iff a b).0 e) refl

has-put_text {ℓ} :
    {V : Type ℓ} (k j : String) (v : V) (m : List (String × V))
    → has_text k m ≡ true
    → has_text k (put_text j v m) ≡ true
has-put_text k j v [] h = ground (arith, h)
has-put_text k j v ((i, w) ∷ m) h = ground (arith, has-put_text k j v m, text_same i j k)

has-drop_text {ℓ} :
    {V : Type ℓ} (k j : String) (m : List (String × V))
    → text_eq j k ≡ false
    → has_text k m ≡ true
    → has_text k (drop_text j m) ≡ true
has-drop_text k j [] e h = h
has-drop_text k j ((i, w) ∷ m) e h = ground (arith, has-drop_text k j m e, text_same i j k)

pub register-Buries :
    (k : String) (g : Governor) (label : String) (opts : RegisterOptions)
    → text_eq (repository_id_key label) k ≡ false
    → Buries k g (register g label opts)
unfolding register
register-Buries k g label opts other = record {
  apply = has-drop_text k (repository_id_key label) g.tombstones other;
}

-- A call that registers nobody that stands in the tombstones.
pub not_buried :
    (k : String) (g : Governor) (label : String)
    → has_text k g.tombstones ≡ true
    → has_text (repository_id_key label) g.tombstones ≡ false
    → text_eq (repository_id_key label) k ≡ false
not_buried k g label b n = elim (Bool-cases (text_eq (repository_id_key label) k)) [
  | inr other ↦ other
  | inl eq ↦ clash ((eq_iff (repository_id_key label) k).0 eq)
]
  where
    clash : repository_id_key label ≡ k → text_eq (repository_id_key label) k ≡ false
    clash e = cc

plant-Buries :
    (k : String) (g : Governor) (now : ℕ) (label : String) (es : List SeedEntry)
    → has_text (repository_id_key label) g.tombstones ≡ false
    → Buries k g (plant g now label es)
unfolding plant
plant-Buries k g now label es n = record {
  apply = λ b. (register-Buries k g label no_options (not_buried k g label b n)).apply b;
}

pub seed-Buries :
    (k : String) (g : Governor) (now : ℕ) (label : String) (es : List SeedEntry)
    → Buries k g (seed g now label es)
unfolding seed
seed-Buries k g now label es =
    if_split (Buries k g) (has_text (repository_id_key label) g.tombstones) (λ t. standing)
      λ n.
        if_intro (Buries k g)
          (seeded_before
            (lookup_text (repository_id_key label) (register g label no_options).repos))
          (plant-Buries k g now label es n)
          (freed-Buries (plant g now label es) now none (plant-Buries k g now label es n))

pub report_begins-Buries :
    (k : String) (g : Governor) (label : String) → Buries k g (report_begins g label)
unfolding report_begins
report_begins-Buries k g label =
    if_split (Buries k g) (has_text (repository_id_key label) g.tombstones) (λ t. standing)
      λ n. record {
        apply = λ b. (register-Buries k g label no_options (not_buried k g label b n)).apply b;
      }

bury-Buries : (k : String) (g : Governor) (label : String) (b : Bool) → Buries k g (bury g label b)
unfolding bury
bury-Buries k g label b = record { apply = has-put_text k (repository_id_key label) _ g.tombstones }

forget-Buries :
    (k : String) (g : Governor) (now : ℕ) (repository : String)
    → Buries k g (forget g now repository)
unfolding forget
forget-Buries k g now repository = record { apply = λ b. b }

pub forgotten-Buries :
    (k : String) (g : Governor) (now : ℕ) (label : String) (b : Bool)
    → Buries k (bury g label b) (unregister g now label b)
unfolding unregister
forgotten-Buries k g now label b =
    if_intro (Buries k (bury g label b)) (not (has_text (repository_id_key label) g.repos)) standing
      (freed-Buries (settle_idle (forget (bury g label b) now (repository_id_key label))) now none (
        Buries-trans (forget-Buries k (bury g label b) now (repository_id_key label)) (
          Quiet-Buries
            (settle_idle-Quiet (forget (bury g label b) now (repository_id_key label))))))

pub unregister-Buries :
    (k : String) (g : Governor) (now : ℕ) (label : String) (b : Bool)
    → Buries k g (unregister g now label b)
unregister-Buries k g now label b =
    Buries-trans (bury-Buries k g label b) (forgotten-Buries k g now label b)

land_report-Buries :
    (k : String) (g : Governor) (now : ℕ) (repository : String) (repo : RepoState) (as_of : ℕ)
    (gathered : SpendReport)
    → Buries k g (land_report g now repository repo as_of gathered)
unfolding land_report keep_report expire
land_report-Buries k g now repository repo as_of gathered =
    if_intro (Buries k g)
      ((expire (keep_report g repository repo as_of gathered) now).1
        || any (cleared repository (merge_report gathered repo.report)) g.holds)
      (freed-Buries (expire (keep_report g repository repo as_of gathered) now).0 now none
        (record { apply = λ b. b }))
      (record { apply = λ b. b })

pub report_lands-Buries :
    (k : String) (g : Governor) (now : ℕ) (label : String) (as_of : ℕ) (gathered : SpendReport)
    → Buries k g (report_lands g now label as_of gathered)
unfolding report_lands
report_lands-Buries k g now label as_of gathered =
    option_split (Buries k g) (lookup_text (repository_id_key label) g.repos) (λ e. standing)
      λ repo e.
        if_intro (Buries k g)
          (has_text (repository_id_key label) g.tombstones || ltb_ℤ (pos as_of) repo.report_seq)
          standing (land_report-Buries k g now (repository_id_key label) repo as_of gathered)

pub unsubscribe-Buries :
    (k : String) (g : Governor) (label : String) (w : ℕ) → Buries k g (unsubscribe g label w)
unfolding unsubscribe
unsubscribe-Buries k g label w =
    option_split (Buries k g) (lookup_text (repository_id_key label) g.subscribers) (λ e. standing)
      λ wakes e. record { apply = λ b. b }

settle_slot-Buries :
    (k : String) (g : Governor) (now : ℕ) (slot : Slot) (cost : Option ℤ)
    → Buries k g (settle_slot g now slot cost)
unfolding settle_slot
settle_slot-Buries k g now slot cost =
    option_split (Buries k g) (lookup_text slot.repo_key g.repos) (λ e. standing)
      λ r e. record { apply = λ b. b }

release_slot-Buries :
    (k : String) (g : Governor) (now : ℕ) (slot : Slot) (cost : Option ℤ)
    → Buries k g (release_slot g now slot cost)
unfolding release_slot
release_slot-Buries k g now slot cost =
    if_intro (Buries k g) slot.committed
      (freed-Buries (settle_slot (drop_slot g slot) now slot cost) now none
        (record { apply = (settle_slot-Buries k (drop_slot g slot) now slot cost).apply }))
      (freed-Buries (drop_slot g slot) now (some slot.repo_key) (record { apply = λ b. b }))

pub release-Buries :
    (k : String) (g : Governor) (now serial : ℕ) (cost : Option ℤ)
    → Buries k g (release g now serial cost)
unfolding release
release-Buries k g now serial cost =
    option_split (Buries k g) (find_by (λ s. s.serial == serial) g.live) (λ e. standing)
      λ slot e. release_slot-Buries k g now slot (known_cost cost)

give_back-Buries : (k : String) (g : Governor) (now : ℕ) (w : Wake) → Buries k g (give_back g now w)
unfolding give_back
give_back-Buries k g now w =
    if_intro (Buries k g) (still_offered g w)
      (freed-Buries (drop_offer g w.repository) now none (record { apply = λ b. b })) standing

pub wake_finished-Buries :
    (k : String) (g : Governor) (now i : ℕ) → Buries k g (wake_finished g now i)
unfolding wake_finished
wake_finished-Buries k g now i =
    option_split (Buries k g) (get_elem? g.sent i) (λ e. standing)
      λ w e. record {
        apply =
            (Buries-trans (give_back-Buries k (end_wake g i) now w)
              (Quiet-Buries (settle_idle-Quiet (give_back (end_wake g i) now w)))).apply;
      }

pub timer_ended-Buries :
    (k : String) (g : Governor) (now : ℕ) (label : String) → Buries k g (timer_ended g now label)
unfolding timer_ended
timer_ended-Buries k g now label =
    if_intro (Buries k g) (not (mem_text label g.wake_timers)) standing (
      Buries-trans (freed-Buries {g = g} (end_timer g label) now none (record { apply = λ b. b }))
        (Quiet-Buries (settle_idle-Quiet (freed (end_timer g label) now none))))
