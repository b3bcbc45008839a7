-- ===== src/Ledger/Table/Config/Bounds.antt =====
-- Which settings `check_config` of equivalent/ledger/table.py lets through.
use skateboard.Prelude.{
  String, ◌≡◌, ◌↔◌, refl, ap, Bool, true, [], ◌∷◌, some, none, Option-cases, Bool-cases, In, inl,
  inr, arith, all, all-In, all_of_In, elem, string_eq,
}
use skateboard.Prelude.Sorting.{sort_by, In-sort_by, In-sort_by_of}
use skateboard.Errors.{ok}
use skateboard.Ledger.Value.{Value, Integer}
use skateboard.Ledger.Table.{ActionRow}
use skateboard.Ledger.Table.Config.{
  int_leb, Spec, spec_of, Config, check_value, check_entries, check_config, key_le,
}

-- The key has a specification and the value is an integer within its bounds.
pub record IsWithin (key : String) (value : Value) : Type 0 where
  pub spec : Spec
  pub specified : spec_of key ≡ some spec
  pub number : Integer
  pub integer : value ≡ Value.int number
  pub above : int_leb spec.minimum number ≡ true
  pub below : int_leb number spec.maximum ≡ true

check_value-IsWithin :
    (key : String) (spec : Spec) (value : Value)
    → spec_of key ≡ some spec
    → check_value spec value ≡ none
    → IsWithin key value
unfolding check_value
check_value-IsWithin key spec (Value.int n) e h = record {
  spec = spec;
  specified = e;
  number = n;
  integer = refl;
  above = ground arith;
  below = ground arith;
}
check_value-IsWithin key spec _ e h = absurd (ground arith)

check_value_of_IsWithin :
    (key : String) (spec : Spec) (value : Value)
    → spec_of key ≡ some spec
    → IsWithin key value
    → check_value spec value ≡ none
unfolding check_value
check_value_of_IsWithin key spec value e w =
    let same : w.spec ≡ spec = ground arith in
    let above : int_leb spec.minimum w.number ≡ true = rw same at w.above in
    let below : int_leb w.number spec.maximum ≡ true = rw same at w.below in
    rw (w.integer, above, below) refl

check_entries-IsWithin :
    (l : Config)
    → check_entries l ≡ ok none
    → (key : String) (value : Value) → In (key, value) l
    → IsWithin key value
unfolding check_entries
check_entries-IsWithin [] h key value i = absurd i
check_entries-IsWithin ((k, v) ∷ rest) h key value i = elim (Option-cases (spec_of k)) [
  | inl e ↦ absurd (ground arith)
  | inr (spec, e) ↦ elim (Option-cases (check_value spec v)) [
    | inr (problem, c) ↦ absurd (ground arith)
    | inl c ↦ elim i [
      | inl same ↦ rw (ap (λ x. x.0) same, ap (λ x. x.1) same) (check_value-IsWithin k spec v e c)
      | inr later ↦ check_entries-IsWithin rest (ground arith) key value later
    ]
  ]
]

check_entries_of_IsWithin :
    (l : Config)
    → ((key : String) (value : Value) → In (key, value) l → IsWithin key value)
    → check_entries l ≡ ok none
unfolding check_entries
check_entries_of_IsWithin [] h = refl
check_entries_of_IsWithin ((k, v) ∷ rest) h =
    let w = h k v (inl refl) in
    rw (check_entries, w.specified, check_value_of_IsWithin k w.spec v w.specified w)
      (check_entries_of_IsWithin rest (λ key value i. h key value (inr i)))

-- `check_config` finds no problem exactly when the action takes every key of the settings, each has
-- a specification, and each value is an integer within the bounds of its key.
pub check_config-IsWithin :
    (row : ActionRow) (config : Config)
    → (check_config row config ≡ ok none) ↔ (
        (key : String) (value : Value)
        → In (key, value) config
        → (elem key row.config_keys ≡ true) × IsWithin key value)
unfolding check_config
check_config-IsWithin row config =
    let taken : (String × Value) → Bool = λ entry. elem entry.0 row.config_keys in
    (
      (λ h key value i. elim (Bool-cases (all taken config)) [
        | inr f ↦ absurd (ground arith)
        | inl t ↦ (
          all-In taken config t (key, value) i,
          check_entries-IsWithin (sort_by key_le config) (rw (t, check_config) at h) key value
              (In-sort_by_of key_le (key, value) config i),
        )
      ]),
      (λ h. rw (all_of_In taken config (λ entry i. (h entry.0 entry.1 i).0)) (
          check_entries_of_IsWithin (sort_by key_le config)
            (λ key value i. (h key value (In-sort_by key_le (key, value) config i)).1))),
    )
