-- ===== src/Mutation/Classify.antt =====
-- `classify` of services/builder/mutate.py: what one case says of a mutant. A note keeps the names that
-- it lists; its wording is not modelled.
pub mod Verdicts
use skateboard.Prelude.{
  ℕ, String, Bool, true, false, ◌&&◌, List, [], ◌∷◌, ◌++◌, Option, some, none, if◌then◌else◌,
  lookup, string_eq, ◌==◌,
}
use skateboard.Prelude.Text.{str_leb}
use skateboard.Prelude.Sorting.{sort_by}
use skateboard.Errors.{Result, ok, raise, ◌>>=◌}
use skateboard.Ledger.FileSet.{text_eq}
use skateboard.Ledger.Value.{Value}
use skateboard.Capture.{Array, same_dtype}
use skateboard.Capture.Tolerance.{Floats}
use skateboard.Capture.Compare.{compare_variable}
use skateboard.Capture.Cases.{Arrays}
use skateboard.Mutation.{Status}

-- The elements are bit patterns, so that one list of them is one string of bytes.
unfoldable pub bitwise_equal : Array → Array → Bool
bitwise_equal expected got =
    expected.shape == got.shape
    && (same_dtype expected.dtype got.dtype && expected.elements == got.elements)

-- What is found of one variable.
pub data Finding : Type 0 where
  unwritten unchanged within outside : Finding

pub record Changes : Type 0 where
  pub changed : List String
  pub outside : List String

abbrev pub add_change : String → Finding → Changes → Changes
add_change variable Finding.within c = record {
  changed = c.changed ++ variable ∷ [];
  outside = c.outside;
}
add_change variable Finding.outside c = record {
  changed = c.changed ++ variable ∷ [];
  outside = c.outside ++ variable ∷ [];
}
add_change variable _ c = c

abbrev pub Verdict : Type 0
Verdict = Status × List String

-- The tests after the loop.
unfoldable pub conclude : Changes → Verdict
conclude c = elim c.changed [
  | [] ↦ (Status.equivalent, [])
  | _ ∷ _ ↦ elim c.outside [ [] ↦ (Status.gap, c.changed) | _ ∷ _ ↦ (Status.killed, c.outside) ]
]

abbrev pub is_unwritten : Finding → Bool
is_unwritten Finding.unwritten = true
is_unwritten _ = false

module _ (f : Floats) where
  -- `bands.get(variable)` for a floating-point variable, `None` for another
  unfoldable pub band_for : List (String × Value) → String → Array → Value
  band_for bands variable ref =
      if ref.dtype.kind == "f"
      then (elim (lookup variable bands) [ none ↦ Value.null | some band ↦ band ])
      else Value.null

  abbrev pub against : List (String × Value) → String → Array → Option Array → Result Finding
  against bands variable ref none = ok Finding.unwritten
  against bands variable ref (some array) =
      if bitwise_equal ref array
      then ok Finding.unchanged
      else compare_variable f ref array (band_for bands variable ref) >>= λ c.
          ok (if c.pass then Finding.within else Finding.outside)

  -- One round of the loop.
  unfoldable pub look : Arrays → List (String × Value) → (String × Array) → Result Finding
  unfolding band_for bitwise_equal compare_variable
  look got bands (variable, ref) = against bands variable ref (lookup variable got)

  unfoldable pub classify_from :
      Arrays → List (String × Value) → List (String × Array) → Changes → Result Verdict
  unfolding look conclude
  classify_from got bands [] c = ok (conclude c)
  classify_from got bands (entry ∷ entries) c = look got bands entry >>= λ finding.
      let rest = classify_from got bands entries (add_change entry.0 finding c) in
      if is_unwritten finding then ok (Status.killed, entry.0 ∷ []) else rest

  -- `classify`
  unfoldable pub classify : Arrays → Arrays → List (String × Value) → Result Verdict
  unfolding classify_from sort_by str_leb
  classify expected got bands =
      classify_from got bands (sort_by (λ a b. str_leb a.0 b.0) expected)
        (record { changed = []; outside = [] })
