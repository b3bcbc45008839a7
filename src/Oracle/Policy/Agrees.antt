-- ===== src/Oracle/Policy/Agrees.antt =====
-- The policy that the oracle starts with, against the check that a code is brought in with
-- (equivalent/components/manifest_check.py) and the comparison that reads it.
use skateboard.Prelude.{
  String, true, not, List, [], ◌∷◌, Option, some, none, In, inl, inr, is_some, elem, string_eq,
  if◌then◌else◌, ◌≡◌, ◌↔◌, refl, subst, arith, Bool-cases,
}
use skateboard.Errors.{Error, Result, ok, raise, ◌>>◌, ensure}
use skateboard.Ledger.Value.{Value, Fields, get}
use skateboard.Capture.{Variable}
use skateboard.Capture.Tolerance.{Floats, Problem, is_real, tolerance_problem}
use skateboard.Checks.Manifest.{tolerance_problems, absent_fields}
use skateboard.Checks.Manifest.Single.{IsWithin, IsWithinBand, absent_fields-nil, tolerance-mapping}
use skateboard.Checks.Manifest.Bands.{tolerance_problems-nil}
use skateboard.Oracle.Policy.{banded_dtypes, missing_fields, is_empty, check_band, check_policy}

module _ (f : Floats) where
  missing_fields-nil :
      (band : Fields) → tolerance_problem f (Value.obj band) ≡ none → missing_fields band ≡ []
  unfolding absent_fields missing_fields
  missing_fields-nil band h = absent_fields-nil f band h

  two_tests :
      (missing : List String) (problem : Option Problem) (e e' : Error)
      → (problem ≡ none → missing ≡ [])
      → ((ensure (is_empty missing) e >> ensure (not (is_some problem)) e') ≡ ok tt)
        ↔ (problem ≡ none)
  two_tests [] none e e' h = (λ _. refl, λ _. refl)
  two_tests [] (some p) e e' h = (λ t. absurd (ground arith), λ t. absurd (ground arith))
  two_tests (x ∷ xs) none e e' h = absurd (let bad : x ∷ xs ≡ [] = h refl in ground arith)
  two_tests (x ∷ xs) (some p) e e' h = (λ t. absurd (ground arith), λ t. absurd (ground arith))

  -- A band is taken exactly when the comparison finds no problem in it.
  check_band-ok : (v : Value) → (check_band f v ≡ ok tt) ↔ (tolerance_problem f v ≡ none)
  unfolding check_band
  check_band-ok Value.null =
      (λ h. absurd (ground arith), λ h. absurd (tolerance-mapping f Value.null refl h))
  check_band-ok (Value.bool b) =
      (λ h. absurd (ground arith), λ h. absurd (tolerance-mapping f (Value.bool b) refl h))
  check_band-ok (Value.int n) =
      (λ h. absurd (ground arith), λ h. absurd (tolerance-mapping f (Value.int n) refl h))
  check_band-ok (Value.float s) =
      (λ h. absurd (ground arith), λ h. absurd (tolerance-mapping f (Value.float s) refl h))
  check_band-ok (Value.str s) =
      (λ h. absurd (ground arith), λ h. absurd (tolerance-mapping f (Value.str s) refl h))
  check_band-ok (Value.arr vs) =
      (λ h. absurd (ground arith), λ h. absurd (tolerance-mapping f (Value.arr vs) refl h))
  check_band-ok (Value.obj band) =
      two_tests (missing_fields band) (tolerance_problem f (Value.obj band)) _ _
        (missing_fields-nil band)

  then_eq :
      (r : Result (Unit {0})) (next : Result (Unit {0}))
      → ((r >> next) ≡ ok tt) ↔ ((r ≡ ok tt) × (next ≡ ok tt))
  then_eq (ok tt) next = (λ h. (refl, h), λ h. h.1)
  then_eq (raise e) next = (λ h. absurd (ground arith), λ h. absurd (let bad = h.0 in ground arith))

  pub check_policy-bands :
      (bands : Fields) (outputs : List Variable)
      → (check_policy f bands outputs ≡ ok tt) ↔ (
          (v : Variable)
          → In v outputs
          → elem v.dtype banded_dtypes ≡ true
          → tolerance_problem f (get v.name bands) ≡ none)
  unfolding check_policy
  check_policy-bands bands [] = (λ h v i. absurd i, λ h. refl)
  check_policy-bands bands (w ∷ rest) =
      let later = check_policy-bands bands rest in
      let here = check_band-ok (get w.name bands) in
      let both =
        then_eq (if elem w.dtype banded_dtypes then check_band f (get w.name bands) else ok tt)
          (check_policy f bands rest) in
      (
        (λ h v i t. elim i [
          | inl same ↦
              let t' : elem w.dtype banded_dtypes ≡ true =
                subst (λ u. elem u.dtype banded_dtypes ≡ true) same t in
              rw same (here.0 (rw t' at ((both.0 h).0)))
          | inr there ↦ later.0 (both.0 h).1 v there t
        ]),
        (λ each. both.1 (
          elim (Bool-cases (elem w.dtype banded_dtypes)) [
            | inl t ↦ rw t (here.1 (each w (inl refl) t))
            | inr t ↦ rw t refl
          ],
          later.1 (λ v i. each v (inr i)),
        )),
      )

-- Given that `np.isfinite`, which the oracle asks, and `math.isfinite`, which the check of a manifest
-- asks, answer alike for real numbers other than integers beyond 64 bits, and that no `abs` and no
-- `rel` is such an integer, the oracle takes the bands of a policy for the declared outputs exactly
-- when the check that judges the manifest while a code is brought in has nothing against them.
pub check_policy-tolerance_problems :
    (f : Floats)
    → ((v : Value) → is_real v ≡ true → IsWithin v → f.real_finite v ≡ f.math_finite v)
    → (bands : Fields) (outputs : List Variable) → ((name : String) → IsWithinBand (get name bands))
    → (check_policy f bands outputs ≡ ok tt) ↔ (tolerance_problems f outputs bands ≡ [])
check_policy-tolerance_problems f alike bands outputs within =
    let oracle = check_policy-bands f bands outputs in
    let gateway = tolerance_problems-nil f alike outputs bands within in
    (λ h. gateway.1 (oracle.0 h), λ h. oracle.1 (gateway.0 h))
