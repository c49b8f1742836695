-- ===== src/Orchestrator/Governor/Spend/Sums.antt =====
-- Sums of estimates, as packages/orchestrator/src/governor.ts adds them up, over a map with each key once.
use text.Mathlib.TextEquality.{eq_iff}
use gateline.Prelude.{
  ◌+◌, ◌≡◌, refl, sym, ap, ◌∙◌, inl, inr, ℤ, pos, ◌+ℤ◌, ◌≤ℤ◌, ltb_ℤ, pos_part, neg_part, String,
  Bool, true, false, not, List, [], ◌∷◌, filter_by, has_text, put_text, drop_text, mem_text,
  text_eq, arith, Bool-cases, All,
}
use gateline.Orchestrator.Governor.Spend.{sum_values}

-- What an addition does to the parts.
pub parts_add :
    (a b : ℤ)
    → pos_part (a +ℤ b) + (neg_part a + neg_part b) ≡ neg_part (a +ℤ b) + (pos_part a + pos_part b)
unfolding ◌+ℤ◌
parts_add a b = ground arith

pub within_limit : (a b : ℤ) → ltb_ℤ b a ≡ false → a ≤ℤ b
within_limit a b h = ground arith

abbrev pub NonNegative : ℤ → Type 0
NonNegative a = pos 0 ≤ℤ a

-- A map with each key once.
abbrev pub Unique {ℓ} : {V : Type ℓ} → List (String × V) → Type 0
Unique [] = Unit
Unique ((k, v) ∷ m) = (has_text k m ≡ false) × Unique m

abbrev pub without_keys {ℓ} : {V : Type ℓ} → List String → List (String × V) → List (String × V)
without_keys ks m = filter_by (λ e. not (mem_text e.0 ks)) m

pub text_path : (a b : String) → text_eq a b ≡ true → a ≡ b
text_path a b h = (eq_iff a b).0 h

pub text_self : (a : String) → text_eq a a ≡ true
text_self a = (eq_iff a a).1 refl

same_member : (j k : String) (ks : List String) → text_eq j k ≡ true → mem_text j ks ≡ mem_text k ks
same_member j k ks h = rw (text_path j k h) refl

pub same_test : (j k i : String) → text_eq j k ≡ true → text_eq j i ≡ text_eq k i
same_test j k i h = rw (text_path j k h) refl

pub text_flip : (a b : String) → text_eq a b ≡ false → text_eq b a ≡ false
text_flip a b h = elim (Bool-cases (text_eq b a)) [
  | inr ne ↦ ne
  | inl eq ↦ clash (text_path b a eq)
]
  where
    clash : b ≡ a → text_eq b a ≡ false
    clash e = cc

module _ {ℓ} {V : Type ℓ} where
  without-put_in :
      (ks : List String) (k : String) (v : V) (m : List (String × V))
      → mem_text k ks ≡ true
      → without_keys ks (put_text k v m) ≡ without_keys ks m
  without-put_in ks k v [] h = ground (arith, h)
  without-put_in ks k v ((j, w) ∷ m) h =
      ground (arith, without-put_in ks k v m h, same_member j k ks)

  pub without-put_out :
      (ks : List String) (k : String) (v : V) (m : List (String × V))
      → mem_text k ks ≡ false
      → without_keys ks (put_text k v m) ≡ put_text k v (without_keys ks m)
  without-put_out ks k v [] h = ground (arith, h)
  without-put_out ks k v ((j, w) ∷ m) h =
      ground (arith, without-put_out ks k v m h, same_member j k ks)

  without-drop :
      (ks : List String) (k : String) (m : List (String × V))
      → without_keys ks (drop_text k m) ≡ drop_text k (without_keys ks m)
  without-drop ks k [] = refl
  without-drop ks k ((j, w) ∷ m) = ground (arith, without-drop ks k m)

  -- Maps that agree but for some keys still do after an insertion or a removal.
  pub put_agrees :
      (ks : List String) (k : String) (v : V) (m n : List (String × V))
      → without_keys ks m ≡ without_keys ks n
      → without_keys ks (put_text k v m) ≡ without_keys ks (put_text k v n)
  put_agrees ks k v m n e = elim (Bool-cases (mem_text k ks)) [
    | inl h ↦ without-put_in ks k v m h ∙ e ∙ sym (without-put_in ks k v n h)
    | inr h ↦ without-put_out ks k v m h ∙ ap (put_text k v) e ∙ sym (without-put_out ks k v n h)
  ]

  pub drop_agrees :
      (ks : List String) (k : String) (m n : List (String × V))
      → without_keys ks m ≡ without_keys ks n
      → without_keys ks (drop_text k m) ≡ without_keys ks (drop_text k n)
  drop_agrees ks k m n e = without-drop ks k m ∙ ap (drop_text k) e ∙ sym (without-drop ks k n)

  pub put_hidden :
      (ks : List String) (k : String) (v : V) (m n : List (String × V))
      → mem_text k ks ≡ true
      → without_keys ks m ≡ without_keys ks n
      → without_keys ks (put_text k v m) ≡ without_keys ks n
  put_hidden ks k v m n h e = without-put_in ks k v m h ∙ e

  pub without-cons :
      (k : String) (ks : List String) (m : List (String × V))
      → without_keys (k ∷ []) (without_keys ks m) ≡ without_keys (k ∷ ks) m
  without-cons k ks [] = refl
  without-cons k ks ((j, w) ∷ m) = ground (arith, without-cons k ks m)

  has-filter :
      (p : String × V → Bool) (k : String) (m : List (String × V))
      → has_text k m ≡ false
      → has_text k (filter_by p m) ≡ false
  has-filter p k [] h = h
  has-filter p k ((j, w) ∷ m) h = ground (arith, has-filter p k m)

  pub filter-Unique :
      (p : String × V → Bool) (m : List (String × V)) → Unique m → Unique (filter_by p m)
  filter-Unique p [] u = tt
  filter-Unique p ((k, v) ∷ m) u = ground (arith, filter-Unique p m u.1, has-filter p k m u.0)

  has-put_other :
      (j k : String) (v : V) (m : List (String × V))
      → text_eq k j ≡ false
      → has_text j m ≡ false
      → has_text j (put_text k v m) ≡ false
  has-put_other j k v [] h e = ground (arith, h)
  has-put_other j k v ((i, w) ∷ m) h e = ground (arith, has-put_other j k v m h, same_test i k j)

  pub put-Unique : (k : String) (v : V) (m : List (String × V)) → Unique m → Unique (put_text k v m)
  put-Unique k v [] u = (refl, tt)
  put-Unique k v ((j, w) ∷ m) u =
      ground (arith, put-Unique k v m u.1, has-put_other j k v m, text_flip j k)

  pub All-put {κ} :
      (P : V → Type κ) (k : String) (v : V) (m : List (String × V))
      → P v
      → All (λ e. P e.1) m
      → All (λ e. P e.1) (put_text k v m)
  All-put P k v [] p a = (p, tt)
  All-put P k v ((j, w) ∷ m) p a = ground (arith, All-put P k v m p a.1)

  pub All-filter {κ} :
      (P : String × V → Type κ) (q : String × V → Bool) (m : List (String × V))
      → All P m
      → All P (filter_by q m)
  All-filter P q [] a = tt
  All-filter P q (e ∷ m) a = ground (arith, All-filter P q m a.1)

without-absent :
    (k : String) (m : List (String × ℤ)) → has_text k m ≡ false → without_keys (k ∷ []) m ≡ m
without-absent k [] h = refl
without-absent k ((j, w) ∷ m) h = ground (arith, without-absent k m)

absent_same :
    (j k : String) (m : List (String × ℤ))
    → text_eq j k ≡ true
    → has_text j m ≡ false
    → has_text k m ≡ false
absent_same j k m h a = rw (sym (text_path j k h)) a

pub add_comm_le : (a b : ℤ) → a +ℤ b ≤ℤ b +ℤ a
add_comm_le a b = omega (arith, parts_add a b, parts_add b a)

pub add_mono : (a b c d : ℤ) → a ≤ℤ b → c ≤ℤ d → a +ℤ c ≤ℤ b +ℤ d
add_mono a b c d h k = omega (arith, parts_add a c, parts_add b d, h, k)

pub le_trans : (a b c : ℤ) → a ≤ℤ b → b ≤ℤ c → a ≤ℤ c
le_trans a b c h k = omega (arith, h, k)

add_shift : (w s t v : ℤ) → s ≤ℤ t +ℤ v → w +ℤ s ≤ℤ w +ℤ t +ℤ v
add_shift w s t v h =
    omega (arith, parts_add w s, parts_add w t, parts_add (w +ℤ t) v, parts_add t v, h)

-- An insertion adds its value to what the other keys have.
pub sum-put :
    (k : String) (v : ℤ) (m : List (String × ℤ))
    → Unique m
    → sum_values (put_text k v m) ≤ℤ sum_values (without_keys (k ∷ []) m) +ℤ v
unfolding sum_values
sum-put k v [] u = add_comm_le v (pos 0)
sum-put k v ((j, w) ∷ m) u = elim (Bool-cases (text_eq j k)) [
  | inl e ↦ rw (e, without-absent k m (absent_same j k m e u.0)) (add_comm_le v (sum_values m))
  | inr e ↦ rw e (add_shift w _ _ v (sum-put k v m u.1))
]

skip_one : (v s t : ℤ) → NonNegative v → s ≤ℤ t → s ≤ℤ v +ℤ t
skip_one v s t n h = omega (arith, parts_add v t, n, h)

pub sum-filter :
    (p : String × ℤ → Bool) (m : List (String × ℤ))
    → All (λ e. NonNegative e.1) m
    → sum_values (filter_by p m) ≤ℤ sum_values m
unfolding sum_values
sum-filter p [] a = omega arith
sum-filter p ((k, v) ∷ m) a = elim (Bool-cases (p (k, v))) [
  | inl e ↦ rw e (add_mono v v _ _ (omega arith) (sum-filter p m a.1))
  | inr e ↦ rw e (skip_one v _ _ a.0 (sum-filter p m a.1))
]
