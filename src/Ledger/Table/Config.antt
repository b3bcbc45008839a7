-- ===== src/Ledger/Table/Config.antt =====
-- The settings of a request: `CONFIG_KEY_SPECS` and `check_config` of equivalent/ledger/table.py.
pub mod Bounds
use skateboard.Prelude.{
  ℕ, zero, suc, ◌^◌, ◌-◌, ◌≤◌, String, ◌≡◌, ◌↔◌, refl, Bool, true, false, ◌&&◌, List, [], ◌∷◌, map,
  Option, some, none, ◌==◌, string_eq, if◌then◌else◌, all, all-In, all_of_In, elem, elem-In, leb,
  ltb, In, Bool-cases, inl, inr, arith, not,
}
use skateboard.Prelude.Text.{str_leb}
use skateboard.Prelude.Sorting.{sort_by, In-sort_by}
use skateboard.Errors.{Result, ok, raise, key_error, type_error}
use skateboard.Ledger.Value.{Value, Integer, pos, negsuc}
use skateboard.Ledger.Table.{ActionRow}

-- a <= b
abbrev pub int_leb : Integer → Integer → Bool
int_leb (pos a) (pos b) = leb a b
int_leb (pos a) (negsuc b) = false
int_leb (negsuc a) (pos b) = true
int_leb (negsuc a) (negsuc b) = leb b a

-- The integer keys, which all have both bounds.
pub record Spec : Type 0 where
  pub minimum : Integer
  pub maximum : Integer

-- `CONFIG_KEY_SPECS.get(key)`
unfoldable pub spec_of : String → Option Spec
spec_of key =
    if key == "repeats"
    then some (record { minimum = pos 5; maximum = pos 100 })
    else if key == "seed"
    then some (record { minimum = negsuc (2 ^ 63 - 1); maximum = pos (2 ^ 63 - 1) })
    else if key == "max_examples"
    then some (record { minimum = pos 100; maximum = pos 10000 })
    else if key == "limit"
    then some (record { minimum = pos 1; maximum = pos 10000 })
    else none

pub data Problem : Type 0 where
  unknown_keys not_an_integer below_minimum above_maximum : Problem

abbrev pub Config : Type 0
Config = List (String × Value)

-- One value against its key's specification. A Boolean is no integer.
unfoldable pub check_value : Spec → Value → Option Problem
check_value spec (Value.int n) =
    if not (int_leb spec.minimum n)
    then some below_minimum
    else if not (int_leb n spec.maximum)
    then some above_maximum
    else none
check_value spec _ = some not_an_integer

abbrev pub key_le : (String × Value) → (String × Value) → Bool
key_le a b = str_leb a.0 b.0

-- The loop over the sorted keys: the first problem.
unfoldable pub check_entries : Config → Result (Option Problem)
unfolding check_value spec_of
check_entries [] = ok none
check_entries ((key, value) ∷ rest) =
    let later = check_entries rest in
    elim (spec_of key) [
      | none ↦ raise (key_error "config key")
      | some spec ↦ elim (check_value spec value) [
        | some problem ↦ ok (some problem)
        | none ↦ later
      ]
    ]

-- `check_config`
unfoldable pub check_config : ActionRow → Config → Result (Option Problem)
unfolding check_entries sort_by
check_config row config =
    if all (λ entry. elem entry.0 row.config_keys) config
    then check_entries (sort_by key_le config)
    else ok (some unknown_keys)
