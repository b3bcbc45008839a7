-- ===== src/Tests/Comparisons.antt =====
-- Two arrays of one element each, three representable steps apart.
use skateboard.Prelude.{
  ℕ, ◌+◌, ◌-◌, ◌*◌, ◌/◌, ◌<◌, ◌≡◌, ◌↔◌, refl, String, true, false, [], ◌∷◌, none, In, string_eq,
  if◌then◌else◌, leb, arith,
}
use skateboard.Prelude.{List, elem, ◌==◌, Bool-cases, inl, inr}
use skateboard.Prelude.Text.{codes}
use skateboard.Checks.Manifest.{banded_dtypes, ends_in, policy_problems}
use skateboard.Checks.Manifest.Single.{IsWithinBand}
use skateboard.Checks.Manifest.Bands.{policy_problems-tolerance_problem}
use skateboard.Errors.{ok}
use skateboard.Ledger.Value.{get, Value, Integer, Fields}
use skateboard.Capture.{Variable, Array, same_dtype}
use skateboard.Capture.Ulp.{steps, place, apart, steps-apart}
use skateboard.Capture.Tolerance.{Floats, tolerance_problem, natural}
use skateboard.Capture.Compare.{Comparison, pairs, same_shape, compare_variable}
use skateboard.Capture.Compare.Accepts.{IsAcceptable, compare_variable-pass}
use skateboard.Capture.Cases.{Arrays, CaseComparison, Passes, compare_case, compare_case-pass}

-- The smallest positive single-precision number and the third below zero.
steps-apart_example :
    (steps 2147483648 1 2147483651 ≡ apart (place 2147483648 1) (place 2147483648 2147483651))
    × (steps 2147483648 1 2147483651 < 2 * 2147483648)
steps-apart_example = steps-apart 2147483648 1 2147483651 (omega arith) (omega arith)

-- Stands for the arithmetic of double precision, on whole numbers.
abbrev pub numbers : Floats
numbers = record {
  Double = ℕ;
  to_double = λ itemsize bits. bits;
  is_finite = λ itemsize bits. true;
  tiny = λ itemsize. 1;
  zero = 0;
  largest = 1000000;
  abs = λ a. a;
  sub = λ a b. (a - b) + (b - a);
  div = λ a b. a / b;
  max = λ a b. if leb a b then b else a;
  min = λ a b. if leb a b then a else b;
  le = leb;
  real = natural;
  real_finite = λ value. true;
  math_finite = λ value. true;
  real_negative = λ value. false;
}

abbrev pub array_of : ℕ → Array
array_of bits = record {
  shape = 1 ∷ [];
  dtype = record { kind = "f"; itemsize = 4; str = "<f4" };
  elements = bits ∷ [];
}

abbrev pub band : Value
band = Value.obj (
    Fields.field "abs" (Value.int (Integer.pos 0)) (
      Fields.field "rel" (Value.int (Integer.pos 0))
        (Fields.field "ulp" (Value.int (Integer.pos 3)) Fields.end)))

abbrev pub the_comparison : Comparison numbers
the_comparison = record {
  pass = true;
  error = none;
  n_bad = 0;
  n = 1;
  n_nonfinite = 0;
  max_abs = 3;
  max_rel = 0;
  max_ulp = 3;
}

compared : compare_variable numbers (array_of 8) (array_of 11) band ≡ ok the_comparison
unfolding compare_variable
compared = refl

compare_variable-pass_example : (the_comparison.pass ≡ true) ↔ (
    (same_shape numbers (1 ∷ []) (1 ∷ []) ≡ true)
    × (same_dtype (array_of 8).dtype (array_of 11).dtype ≡ true)
    × (tolerance_problem numbers band ≡ none)
    × ((p : ℕ × ℕ)
        → In p (pairs numbers (array_of 8).elements (array_of 11).elements)
        → IsAcceptable numbers band 4 p))
compare_variable-pass_example =
    compare_variable-pass numbers (array_of 8) (array_of 11) band the_comparison refl compared

abbrev expected : Arrays
expected = ("t", array_of 8) ∷ []

abbrev got : Arrays
got = ("q", array_of 1) ∷ ("t", array_of 11) ∷ []

abbrev the_case : CaseComparison numbers
the_case = record { pass = true; per_var = ("t", the_comparison) ∷ []; extra = "q" ∷ [] }

case_compared : compare_case numbers expected got (("t", band) ∷ []) ≡ ok the_case
unfolding compare_case
case_compared = refl

compare_case-pass_example : (the_case.pass ≡ true) ↔ (
    (var : String) (ref : Array)
    → In (var, ref) expected
    → Passes numbers got (("t", band) ∷ []) var ref)
compare_case-pass_example =
    compare_case-pass numbers expected got (("t", band) ∷ []) the_case case_compared

abbrev pub variables : Fields
variables = Fields.field "t" band Fields.end

abbrev files : Fields
files = Fields.field "t.npy" band Fields.end

abbrev pub outputs : List Variable
outputs = record { name = "t"; dtype = "f32"; rank = 1 } ∷ []

pub is_within : (key name : String) → IsWithinBand (get name (Fields.field key band Fields.end))
unfolding get
is_within key name = elim (Bool-cases (name == key)) [
  | inl t ↦ rw t (omega arith, omega arith)
  | inr t ↦ rw t tt
]

policy_problems-tolerance_problem_example :
    (policy_problems numbers outputs ("t.npy" ∷ []) variables files ≡ []) ↔ (
      ((v : Variable)
        → In v outputs
        → elem v.dtype banded_dtypes ≡ true
        → tolerance_problem numbers (get v.name variables) ≡ none)
      × ((path : String)
          → In path ("t.npy" ∷ [])
          → (ends_in (codes ".npy") (codes path) ≡ true)
            × (tolerance_problem numbers (get path files) ≡ none)))
policy_problems-tolerance_problem_example =
    policy_problems-tolerance_problem numbers (λ v t within. refl) outputs ("t.npy" ∷ []) variables
      files (is_within "t") (is_within "t.npy")
