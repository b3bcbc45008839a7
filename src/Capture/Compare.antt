-- ===== src/Capture/Compare.antt =====
-- `compare_variable` of equivalent/capture/compare.py: one expected array against one submitted.
pub mod Accepts
use skateboard.Prelude.{
  ℕ, ◌+◌, String, Bool, true, false, ◌&&◌, ◌||◌, not, List, [], ◌∷◌, ◌++◌, map, length, Option,
  some, none, if◌then◌else◌, filter, all, leb, nat_beq, ◌==◌, string_eq,
}
use skateboard.Errors.{Result, ok, raise, ◌>>=◌, traverse}
use skateboard.Ledger.Value.{Value, get}
use skateboard.Capture.{Array, Dtype, same_dtype}
use skateboard.Capture.Ulp.{ulp_diff, sign_bit}
use skateboard.Capture.Tolerance.{Floats, Problem, tolerance_problem, fields_of, natural}

pub data Failure : Type 0 where
  shape_differs dtype_differs : Failure
  policy : Problem → Failure
  -- so many elements are NaN or infinite
  nonfinite : ℕ → Failure
  missing_variable : Failure

module _ (f : Floats) where
  -- What is reported of one variable; the metrics are there where they were measured.
  pub record Comparison : Type 0 where
    pub pass : Bool
    pub error : Option Failure
    pub n_bad : ℕ
    pub n : ℕ
    pub n_nonfinite : ℕ
    pub max_abs : f.Double
    pub max_rel : f.Double
    pub max_ulp : ℕ

  abbrev pub unmeasured : Bool → Option Failure → ℕ → ℕ → Comparison
  unmeasured pass error n_bad n = record {
    pass = pass;
    error = error;
    n_bad = n_bad;
    n = n;
    n_nonfinite = 0;
    max_abs = f.zero;
    max_rel = f.zero;
    max_ulp = 0;
  }

  -- One finite element of each array, measured.
  pub record Measured : Type 0 where
    pub abs_err : f.Double
    pub rel_err : f.Double
    pub ulp_err : ℕ

  abbrev pub pairs : List ℕ → List ℕ → List (ℕ × ℕ)
  pairs [] ys = []
  pairs (x ∷ xs) [] = []
  pairs (x ∷ xs) (y ∷ ys) = (x, y) ∷ pairs xs ys

  -- `np.isfinite(ref) & np.isfinite(got)`
  abbrev pub both_finite : ℕ → ℕ × ℕ → Bool
  both_finite itemsize (x, y) = f.is_finite itemsize x && f.is_finite itemsize y

  unfoldable pub absolute_error : ℕ → ℕ × ℕ → f.Double
  absolute_error itemsize (ref, got) =
      f.abs (f.sub (f.to_double itemsize got) (f.to_double itemsize ref))

  unfoldable pub relative_error : ℕ → ℕ × ℕ → f.Double
  unfolding absolute_error
  relative_error itemsize (ref, got) =
      f.div (absolute_error itemsize (ref, got))
        (f.max (f.abs (f.to_double itemsize ref)) (f.tiny itemsize))

  unfoldable pub measure : ℕ → ℕ × ℕ → Result Measured
  unfolding absolute_error relative_error ulp_diff
  measure itemsize (ref, got) = ulp_diff itemsize ref got >>= λ ulp. ok (record {
    abs_err = absolute_error itemsize (ref, got);
    rel_err = relative_error itemsize (ref, got);
    ulp_err = ulp;
  })

  -- An element is acceptable if any of its metrics is within the band.
  unfoldable pub acceptable : Value → Measured → Bool
  unfolding get
  acceptable tol m =
      f.le m.abs_err (f.real (get "abs" (fields_of tol)))
      || (f.le m.rel_err (f.real (get "rel" (fields_of tol)))
          || leb m.ulp_err (natural (get "ulp" (fields_of tol))))

  -- `array.max(initial=0.0)`, and 0 for the distances
  abbrev largest_of : (Measured → f.Double) → List Measured → f.Double
  largest_of metric [] = f.zero
  largest_of metric (m ∷ ms) = f.max (metric m) (largest_of metric ms)

  abbrev largest_ulp : List Measured → ℕ
  largest_ulp [] = 0
  largest_ulp (m ∷ ms) = let rest = largest_ulp ms in if leb m.ulp_err rest then rest else m.ulp_err

  abbrev pub nonfinite_error : ℕ → Option Failure
  nonfinite_error count = if nat_beq count 0 then none else some (nonfinite count)

  unfoldable pub judge : Value → ℕ → ℕ → List Measured → Comparison
  unfolding acceptable
  judge tol n count measured = record {
    pass = nat_beq count 0 && all (acceptable tol) measured;
    error = nonfinite_error count;
    n_bad = length (filter (λ m. not (acceptable tol m)) measured) + count;
    n = n;
    n_nonfinite = count;
    max_abs = f.min (largest_of (λ m. m.abs_err) measured) f.largest;
    max_rel = f.min (largest_of (λ m. m.rel_err) measured) f.largest;
    max_ulp = largest_ulp measured;
  }

  -- Integers and logicals: the elements that differ.
  unfoldable pub compare_exact : Array → Array → Comparison
  compare_exact ref got =
      let bad = filter (λ p. not (nat_beq p.0 p.1)) (pairs ref.elements got.elements) in
      unmeasured (nat_beq (length bad) 0) none (length bad) (length ref.elements)

  abbrev pub empty_elements : List ℕ → Bool
  empty_elements [] = true
  empty_elements (x ∷ xs) = false

  -- With an item size that is not 4 or 8 `_ulp_diff` raises even where no pair is finite; here it
  -- raises only where it has a pair to measure.
  unfoldable pub compare_floats : Array → Array → Value → Result Comparison
  unfolding measure judge
  compare_floats ref got tol =
      if empty_elements ref.elements
      then ok (unmeasured true none 0 0)
      else (let both = pairs ref.elements got.elements in
          traverse (measure ref.dtype.itemsize) (filter (both_finite ref.dtype.itemsize) both)
          >>= λ measured. ok (
              judge tol (length ref.elements)
                (length (filter (λ p. not (both_finite ref.dtype.itemsize p)) both)) measured))

  abbrev with_policy : Array → Array → Value → Option Problem → Result Comparison
  with_policy ref got tol (some problem) =
      ok (unmeasured false (some (policy problem)) (length ref.elements) (length ref.elements))
  with_policy ref got tol none = compare_floats ref got tol

  abbrev pub same_shape : List ℕ → List ℕ → Bool
  same_shape [] [] = true
  same_shape (m ∷ ms) (n ∷ ns) = let rest = same_shape ms ns in nat_beq m n && rest
  same_shape _ _ = false

  -- `compare_variable`
  unfoldable pub compare_variable : Array → Array → Value → Result Comparison
  unfolding compare_exact compare_floats tolerance_problem
  compare_variable ref got tol =
      if not (same_shape ref.shape got.shape)
      then ok (unmeasured false (some shape_differs) 0 0)
      else if not (same_dtype ref.dtype got.dtype)
      then ok (unmeasured false (some dtype_differs) 0 0)
      else if not (ref.dtype.kind == "f")
      then ok (compare_exact ref got)
      else with_policy ref got tol (tolerance_problem f tol)
