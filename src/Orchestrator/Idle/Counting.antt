-- ===== src/Orchestrator/Idle/Counting.antt =====
-- The counters of packages/orchestrator/src/observe.ts against a plain count of the ledger's entries: the
-- cache of floors changes nothing.
use text.Mathlib.TextEquality.{eq_iff}
use gateline.Prelude.{
  lookup_text, ℕ, suc, ◌+◌, ◌≡◌, refl, sym, ◌∙◌, String, Bool, true, false, ◌&&◌, Option, some,
  List, [], ◌∷◌, inl, inr, All, arith, is_some, or_else, text_eq, if◌then◌else◌, Bool-cases,
  Option-cases,
}
use gateline.Record.Ledger.{BudgetLedgerEntry}
use gateline.Orchestrator.Observation.{Anchor, anchored, idle_key}
use gateline.Orchestrator.Idle.{
  IdleInput, floor_for, cached, remember, above, count_up, closed_ok, opening_anchor, count_idle,
  idle_dispatch_counts,
}

-- An entry counts where it closed well, its opening is known, and it was opened after whatever last
-- reset the count of its role and task.
abbrev pub is_idle : IdleInput → BudgetLedgerEntry → ℕ → Bool
is_idle input e i =
    let opened = opening_anchor input e i in
    closed_ok e && anchored opened && above input.order opened (floor_for input e.role e.task)

abbrev pub one_if : Bool → ℕ
one_if true = 1
one_if false = 0

-- How many of the entries under the key count.
abbrev pub idle_total : IdleInput → String → List BudgetLedgerEntry → ℕ → ℕ
idle_total input key [] i = 0
idle_total input key (e ∷ es) i =
    one_if (text_eq (idle_key e.role e.task) key && is_idle input e i)
    + idle_total input key es (suc i)

abbrev pub counted : String → List (String × ℕ) → ℕ
counted key counts = or_else (lookup_text key counts) 0

-- The floor of an entry is given by its key.
abbrev pub FloorsByKey : IdleInput → (String → Option Anchor) → List BudgetLedgerEntry → Type 0
FloorsByKey input floor_of es =
    All (λ e. floor_for input e.role e.task ≡ floor_of (idle_key e.role e.task)) es

record Caches (floor_of : String → Option Anchor) (floors : List (String × Option Anchor))
    : Type 0 where
  apply : (key : String) (a : Option Anchor) → lookup_text key floors ≡ some a → a ≡ floor_of key

cached_floor :
    (floor_of : String → Option Anchor) (floors : List (String × Option Anchor)) (key : String)
    → Caches floor_of floors
    → cached floors key (floor_of key) ≡ floor_of key
cached_floor floor_of floors key c = elim (Option-cases (lookup_text key floors)) [
  | inl e ↦ rw e refl
  | inr (a, e) ↦ rw e (c.apply key a e)
]

Caches-cons :
    (floor_of : String → Option Anchor) (floors : List (String × Option Anchor)) (key : String)
    → Caches floor_of floors
    → Caches floor_of ((key, floor_of key) ∷ floors)
Caches-cons floor_of floors key c = record {
  apply = λ k a e. elim (Bool-cases (text_eq key k)) [
    | inl same ↦
        let named : key ≡ k = (eq_iff key k).0 same in
        let found : floor_of key ≡ a = ground arith in rw (← named) (sym found)
    | inr other ↦ c.apply k a (rw other at e)
  ];
}

Caches-remember :
    (floor_of : String → Option Anchor) (floors : List (String × Option Anchor)) (key : String)
    (looks : Bool)
    → Caches floor_of floors
    → Caches floor_of (if looks then remember floors key (floor_of key) else floors)
Caches-remember floor_of floors key false c = c
Caches-remember floor_of floors key true c = elim (Bool-cases (is_some (lookup_text key floors))) [
  | inl e ↦ rw e c
  | inr e ↦ rw e (Caches-cons floor_of floors key c)
]

zero_plus : (n : ℕ) → 0 + n ≡ n
zero_plus n = omega arith

plus_zero : (n : ℕ) → n + 0 ≡ n
plus_zero n = omega arith

plus_comm : (m n : ℕ) → m + n ≡ n + m
plus_comm m n = omega arith

counted-count_up :
    (key k : String) (counts : List (String × ℕ)) (b : Bool)
    → counted key (if b then count_up counts k else counts)
      ≡ one_if (text_eq k key && b) + counted key counts
counted-count_up key k counts false = elim (Bool-cases (text_eq k key)) [
  | inl same ↦ rw same (sym (zero_plus _))
  | inr other ↦ rw other (sym (zero_plus _))
]
counted-count_up key k counts true = elim (Bool-cases (text_eq k key)) [
  | inl same ↦ let named : k ≡ key = (eq_iff k key).0 same in rw same (rw named (plus_comm _ 1))
  | inr other ↦ rw other (sym (zero_plus _))
]

plus_swap : (a b c d : ℕ) → b ≡ a + c → d + b ≡ a + d + c
plus_swap a b c d h = omega arith

count_idle_lem :
    (input : IdleInput) (floor_of : String → Option Anchor) (key : String)
    (es : List BudgetLedgerEntry) (i : ℕ) (floors : List (String × Option Anchor))
    (counts : List (String × ℕ))
    → FloorsByKey input floor_of es
    → Caches floor_of floors
    → counted key (count_idle input es i floors counts)
      ≡ idle_total input key es i + counted key counts
unfolding count_idle
count_idle_lem input floor_of key [] i floors counts f c = sym (zero_plus _)
count_idle_lem input floor_of key (e ∷ es) i floors counts f c =
    let k = idle_key e.role e.task in
    let opened = opening_anchor input e i in
    let looks = closed_ok e && anchored opened in
    rw (f.0, cached_floor floor_of floors k c)
      (count_idle_lem input floor_of key es (suc i) _ _ f.1
          (Caches-remember floor_of floors k looks c)
        ∙ plus_swap _ _ _ _
            (counted-count_up key k counts (looks && above input.order opened (floor_of k))))

-- Where the floor of each entry is given by its key, the count under a key is the number of the ledger's
-- entries under that key that closed well, with an opening that is known and after the floor.
pub idle_dispatch_counts_lem :
    (input : IdleInput) (floor_of : String → Option Anchor) (key : String)
    → FloorsByKey input floor_of input.ledger
    → counted key (idle_dispatch_counts input) ≡ idle_total input key input.ledger 0
unfolding idle_dispatch_counts
idle_dispatch_counts_lem input floor_of key f =
    count_idle_lem input floor_of key input.ledger 0 [] [] f (record { apply = λ k a e. cc e })
    ∙ plus_zero _
