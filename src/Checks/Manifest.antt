-- ===== src/Checks/Manifest.antt =====
-- The problems that equivalent/components/manifest_check.py finds in a manifest's tolerance policy.
-- The policy's two maps are JSON objects, as `bands` of names.py reads them.
pub mod Single
pub mod Bands
use skateboard.Prelude.{
  ℕ, String, Bool, true, false, ◌&&◌, ◌||◌, not, List, [], ◌∷◌, ◌++◌, map, Option, some, none,
  filter, is_some, elem, ◌==◌, string_eq, if◌then◌else◌,
}
use skateboard.Prelude.Text.{codes}
use skateboard.Ledger.FileSet.{text_eq}
use skateboard.Ledger.Value.{Value, Integer, Fields, get, find_key, as_mapping}
use skateboard.Capture.{Variable}
use skateboard.Capture.Tolerance.{Floats, is_real}

-- Each problem with the name that it is about, and the fields.
pub data BandProblem : Type 0 where
  no_entry : String → BandProblem
  fields_missing : String → List String → BandProblem
  invalid : String → String → BandProblem
  not_an_array_file : String → BandProblem

abbrev pub banded_dtypes : List String
banded_dtypes = "f32" ∷ "f64" ∷ []

abbrev pub band_fields : List String
band_fields = "abs" ∷ "rel" ∷ "ulp" ∷ []

-- `[field for field in BAND_FIELDS if field not in band]`
unfoldable pub absent_fields : Fields → List String
unfolding find_key
absent_fields band = filter (λ field. not (is_some (find_key field band))) band_fields

-- `if condition: problems.append(problem)`
abbrev pub when : Bool → BandProblem → List BandProblem
when true problem = problem ∷ []
when false problem = []

-- `not isinstance(ulp, Integral) or ulp < 0`, where a Boolean is no integer
abbrev pub invalid_ulp : Value → Bool
invalid_ulp (Value.int (Integer.pos n)) = false
invalid_ulp _ = true

-- `text.endswith(suffix)`
unfoldable pub ends_in : List ℕ → List ℕ → Bool
ends_in suffix [] = suffix == []
ends_in suffix (c ∷ cs) = let rest = ends_in suffix cs in (suffix == (c ∷ cs)) || rest

module _ (f : Floats) where
  -- `math.isfinite` of an integer that no double holds raises, which is not modelled.
  abbrev pub invalid_real : Value → Bool
  invalid_real value = not (is_real value) || (not (f.math_finite value) || f.real_negative value)

  -- The problems of a band that has all three fields.
  unfoldable pub field_problems : Fields → String → List BandProblem
  unfolding get
  field_problems band name =
      when (invalid_real (get "abs" band)) (invalid name "abs")
      ++ when (invalid_real (get "rel" band)) (invalid name "rel")
      ++ when (invalid_ulp (get "ulp" band)) (invalid name "ulp")

  abbrev pub complete_problems : Fields → String → List String → List BandProblem
  complete_problems band name [] = field_problems band name
  complete_problems band name (field ∷ more) = fields_missing name (field ∷ more) ∷ []

  unfoldable pub band_problems : Fields → String → List BandProblem
  unfolding absent_fields field_problems get
  band_problems bands name = elim (as_mapping (get name bands)) [
    | none ↦ no_entry name ∷ []
    | some band ↦ complete_problems band name (absent_fields band)
  ]

  unfoldable pub tolerance_problems : List Variable → Fields → List BandProblem
  unfolding band_problems
  tolerance_problems [] bands = []
  tolerance_problems (variable ∷ rest) bands =
      (if elem variable.dtype banded_dtypes then band_problems bands variable.name else [])
      ++ tolerance_problems rest bands

  unfoldable pub path_problems : Fields → String → List BandProblem
  unfolding band_problems ends_in
  path_problems bands path =
      if not (ends_in (codes ".npy") (codes path))
      then not_an_array_file path ∷ []
      else band_problems bands path

  unfoldable pub timing_problems : List String → Fields → List BandProblem
  unfolding path_problems
  timing_problems [] bands = []
  timing_problems (path ∷ rest) bands = path_problems bands path ++ timing_problems rest bands

  -- The problems that `check` reports of a policy that reads.
  unfoldable pub policy_problems : List Variable → List String → Fields → Fields → List BandProblem
  unfolding tolerance_problems timing_problems
  policy_problems outputs timing_outputs variables files =
      tolerance_problems outputs variables ++ timing_problems timing_outputs files
