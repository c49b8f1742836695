-- ===== src/Record/Ledger.antt =====
-- The budget ledger: packages/core/src/record/ledger.ts.
use gateline.Prelude.{
  ℕ, ℤ, String, Bool, false, not, ◌&&◌, Option, none, some, List, [], ◌∷◌, ◌*◌, is_none, text_eq,
  if◌then◌else◌,
}
use gateline.Record.Raw.{
  Stamp, Raw, bool, num, str, date, arr, obj, RawItems, nil, cons, RawFields, raw_field,
}
use gateline.Record.State.{RunState}

pub record BudgetLedgerEntry : Type 0 where
  pub at : Option Stamp
  pub role : String
  pub task : Option String
  pub round : Option ℤ
  pub adapter : Option String
  pub model : Option String
  pub tokens_in : Option ℤ
  pub tokens_out : Option ℤ
  pub cost_usd : Option ℤ
  pub failed : Bool
  pub refused : Bool
  pub engine : Option String
  pub session : Option String

-- Half an hour, in milliseconds.
abbrev pub role_timeout_ms : ℕ
role_timeout_ms = 30 * 60 * 1000

-- `typeof v === 'string' ? v : null`, and so on for the other types.
abbrev pub as_text : Option Raw → Option String
as_text (some (str s)) = some s.text
as_text _ = none

abbrev pub as_nonempty : Option Raw → Option String
as_nonempty (some (str s)) = if text_eq s.text "" then none else some s.text
as_nonempty _ = none

abbrev pub as_stamp : Option Raw → Option Stamp
as_stamp (some (str s)) = some s
as_stamp (some (date s)) = some s
as_stamp _ = none

abbrev pub as_number : Option Raw → Option ℤ
as_number (some (num n)) = some n
as_number _ = none

abbrev pub is_true : Option Raw → Bool
is_true (some (bool b)) = b
is_true _ = false

entry_of : String → RawFields → BudgetLedgerEntry
entry_of role e = record {
  at = as_stamp (raw_field "at" e);
  role = role;
  task = as_text (raw_field "task" e);
  round = as_number (raw_field "round" e);
  adapter = as_text (raw_field "adapter" e);
  model = as_text (raw_field "model" e);
  tokens_in = as_number (raw_field "tokens_in" e);
  tokens_out = as_number (raw_field "tokens_out" e);
  cost_usd = as_number (raw_field "cost_usd" e);
  failed = is_true (raw_field "failed" e);
  refused = is_true (raw_field "refused" e);
  engine = as_nonempty (raw_field "engine" e);
  session = as_nonempty (raw_field "session" e);
}

-- One round of the loop: an item that is no object, or has no role, is passed over.
parse_item : Raw → Option BudgetLedgerEntry
unfolding entry_of
parse_item (obj e) = elim (as_text (raw_field "role" e)) [
  | none ↦ none
  | some role ↦ some (entry_of role e)
]
parse_item _ = none

unfoldable pub parse_items : RawItems → List BudgetLedgerEntry
unfolding parse_item
parse_items nil = []
parse_items (cons item rest) = elim (parse_item item) [
  | none ↦ parse_items rest
  | some e ↦ e ∷ parse_items rest
]

parse_raw : Option Raw → List BudgetLedgerEntry
unfolding parse_items
parse_raw (some (arr items)) = parse_items items
parse_raw _ = []

-- `state?.budget?.ledger`.
abbrev ledger_of : Option RunState → Option Raw
ledger_of none = none
ledger_of (some s) = elim s.budget [ none ↦ none | some b ↦ b.ledger ]

unfoldable pub parse_ledger : Option RunState → List BudgetLedgerEntry
unfolding parse_raw
parse_ledger s = parse_raw (ledger_of s)

abbrev pub is_open_dispatch : BudgetLedgerEntry → Bool
is_open_dispatch e = is_none e.cost_usd && not e.failed
