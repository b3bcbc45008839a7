-- ===== src/Capture/Tolerance.antt =====
-- `tolerance_problem` of equivalent/capture/compare.py, and the arithmetic of double precision that
-- the comparison uses, which is numpy's and a parameter.
use skateboard.Prelude.{ℕ, Bool, true, false, ◌||◌, not, Option, some, none, if◌then◌else◌}
use skateboard.Ledger.Value.{Value, pos, Fields, get}

pub record Floats : Type 1 where
  pub Double : Type 0
  -- one element of an array of the given item size
  pub to_double : ℕ → ℕ → Double
  pub is_finite : ℕ → ℕ → Bool
  -- `np.finfo(dtype).tiny`
  pub tiny : ℕ → Double
  pub zero : Double
  -- `np.finfo(np.float64).max`
  pub largest : Double
  pub abs : Double → Double
  pub sub : Double → Double → Double
  pub div : Double → Double → Double
  pub max : Double → Double → Double
  pub min : Double → Double → Double
  pub le : Double → Double → Bool
  -- a real number of a policy: its value, `np.isfinite`, `math.isfinite`, and `value < 0`. An integer
  -- at which one of the two tests raises is outside the model.
  pub real : Value → Double
  pub real_finite : Value → Bool
  pub math_finite : Value → Bool
  pub real_negative : Value → Bool

pub data Problem : Type 0 where
  not_a_mapping not_a_real_number not_finite_nonnegative not_a_nonnegative_integer : Problem

-- `isinstance(value, Real)` and no bool
abbrev pub is_real : Value → Bool
is_real (Value.int n) = true
is_real (Value.float s) = true
is_real _ = false

module _ (f : Floats) where
  unfoldable pub real_problem : Value → Option Problem
  real_problem value =
      if not (is_real value)
      then some not_a_real_number
      else if not (f.real_finite value) || f.real_negative value
      then some not_finite_nonnegative
      else none

  abbrev pub ulp_problem : Value → Option Problem
  ulp_problem (Value.int (pos n)) = none
  ulp_problem _ = some not_a_nonnegative_integer

  abbrev pub first_problem : Option Problem → Option Problem → Option Problem
  first_problem none later = later
  first_problem (some p) later = some p

  unfoldable pub tolerance_problem : Value → Option Problem
  unfolding real_problem get
  tolerance_problem (Value.obj tol) =
      first_problem (real_problem (get "abs" tol))
        (first_problem (real_problem (get "rel" tol)) (ulp_problem (get "ulp" tol)))
  tolerance_problem _ = some not_a_mapping

-- The band that a policy gives, once it has no problem.
abbrev pub fields_of : Value → Fields
fields_of (Value.obj tol) = tol
fields_of _ = Fields.end

abbrev pub natural : Value → ℕ
natural (Value.int (pos n)) = n
natural _ = 0
