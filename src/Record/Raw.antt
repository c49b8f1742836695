-- ===== src/Record/Raw.antt =====
-- The values that the YAML parser returns (a number counted in millionths), which is what the ledger
-- of a budget still is when it is read; and time stamps.
use gateline.Prelude.{ℕ, ℤ, String, Bool, Option, none, some, text_eq, if◌then◌else◌}

-- A time stamp: its text, and what `Date.parse` makes of that text, in milliseconds (`none` is NaN).
pub record Stamp : Type 0 where
  pub text : String
  pub ms : Option ℕ

mutual
  pub data Raw : Type 0 where
    null : Raw
    bool : Bool → Raw
    num : ℤ → Raw
    str : Stamp → Raw
    date : Stamp → Raw
    arr : RawItems → Raw
    obj : RawFields → Raw

  pub data RawItems : Type 0 where
    nil : RawItems
    cons : Raw → RawItems → RawItems

  pub data RawFields : Type 0 where
    end : RawFields
    field : String → Raw → RawFields → RawFields

-- `e.key`, `none` for undefined.
abbrev pub raw_field : String → RawFields → Option Raw
raw_field key end = none
raw_field key (field k v fs) = if text_eq k key then some v else raw_field key fs
