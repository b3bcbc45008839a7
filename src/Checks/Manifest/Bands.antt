-- ===== src/Checks/Manifest/Bands.antt =====
-- The bands of equivalent/components/manifest_check.py against the comparison that reads them,
-- equivalent/capture/compare.py.
use skateboard.Prelude.{
  append-nil, String, true, List, [], ◌∷◌, ◌++◌, none, In, inl, inr, elem, string_eq, if◌then◌else◌,
  ◌≡◌, ◌↔◌, refl, subst, arith, Bool-cases,
}
use skateboard.Prelude.Text.{codes}
use skateboard.Ledger.FileSet.{text_eq}
use skateboard.Ledger.Value.{Value, Fields, get}
use skateboard.Capture.{Variable}
use skateboard.Capture.Tolerance.{Floats, is_real, tolerance_problem}
use skateboard.Checks.Manifest.{
  banded_dtypes, ends_in, band_problems, tolerance_problems, path_problems, timing_problems,
  policy_problems,
}
use skateboard.Checks.Manifest.Single.{IsWithin, IsWithinBand, band_problems-nil}

append_nil_of : {A : Type 0} → (xs ys : List A) → xs ≡ [] → ys ≡ [] → xs ++ ys ≡ []
append_nil_of xs ys h k = rw (h) k

module _ (f : Floats)
    (alike : (v : Value) → is_real v ≡ true → IsWithin v → f.real_finite v ≡ f.math_finite v) where
  -- An output that a check finds nothing against.
  abbrev IsBanded : Fields → String → Type 0
  IsBanded bands name = tolerance_problem f (get name bands) ≡ none

  pub tolerance_problems-nil :
      (outputs : List Variable)
      → (bands : Fields) → ((name : String) → IsWithinBand (get name bands))
      → (tolerance_problems f outputs bands ≡ []) ↔ (
          (v : Variable) → In v outputs → elem v.dtype banded_dtypes ≡ true → IsBanded bands v.name)
  unfolding tolerance_problems
  tolerance_problems-nil [] bands within = (λ h v member. absurd member, λ h. refl)
  tolerance_problems-nil (w ∷ rest) bands within =
      let later = tolerance_problems-nil rest bands within in
      let here = band_problems-nil f alike bands w.name (within w.name) in
      (
        λ h v member banded.
            let (first, more) =
              append-nil (if elem w.dtype banded_dtypes then band_problems f bands w.name else [])
                (tolerance_problems f rest bands) h in
            elim member [
              | inl same ↦ rw (same) (
                  here.0 (rw (subst (λ u. elem u.dtype banded_dtypes ≡ true) same banded) at first))
              | inr there ↦ later.0 more v there banded
            ],
        λ each.
            append_nil_of (if elem w.dtype banded_dtypes then band_problems f bands w.name else [])
              (tolerance_problems f rest bands)
              (elim (Bool-cases (elem w.dtype banded_dtypes)) [
                | inl banded ↦ rw (banded) (here.1 (each w (inl refl) banded))
                | inr other ↦ rw (other) refl
              ])
              (later.1 (λ v there. each v (inr there))),
      )

  path_problems-nil :
      (bands : Fields)
      → (path : String) → IsWithinBand (get path bands)
      → (path_problems f bands path ≡ [])
        ↔ ((ends_in (codes ".npy") (codes path) ≡ true) × IsBanded bands path)
  unfolding path_problems
  path_problems-nil bands path within =
      let here = band_problems-nil f alike bands path within in
      elim (Bool-cases (ends_in (codes ".npy") (codes path))) [
        | inl array ↦ (
          λ h. (array, here.0 (rw (array, path_problems) at h)),
          λ h. rw (array, path_problems) (here.1 h.1),
        )
        | inr other ↦ (
          λ h. absurd (ground (arith, rw (other, path_problems) at h)),
          λ h. absurd (ground (arith, h.0, other)),
        )
      ]

  timing_problems-nil :
      (paths : List String)
      → (bands : Fields) → ((name : String) → IsWithinBand (get name bands))
      → (timing_problems f paths bands ≡ []) ↔ (
          (path : String)
          → In path paths
          → (ends_in (codes ".npy") (codes path) ≡ true) × IsBanded bands path)
  unfolding timing_problems
  timing_problems-nil [] bands within = (λ h path member. absurd member, λ h. refl)
  timing_problems-nil (first ∷ rest) bands within =
      let later = timing_problems-nil rest bands within in
      let here = path_problems-nil bands first (within first) in
      (
        λ h path member.
            let (one, more) =
              append-nil (path_problems f bands first) (timing_problems f rest bands) h in
            elim member [ inl same ↦ rw (same) (here.0 one) | inr there ↦ later.0 more path there ],
        λ each.
            append_nil_of (path_problems f bands first) (timing_problems f rest bands)
              (here.1 (each first (inl refl))) (later.1 (λ path there. each path (inr there))),
      )

-- Given that `np.isfinite` and `math.isfinite` answer alike for real numbers other than integers
-- beyond 64 bits, a manifest's policy without such an integer as `abs` or `rel` has no problem exactly
-- when the comparison of captured arrays finds none in the band of any floating-point output of the
-- region, nor in the band of any output of the timing run, and each output of the timing run is an
-- NPY file.
pub policy_problems-tolerance_problem :
    (f : Floats)
    → ((v : Value) → is_real v ≡ true → IsWithin v → f.real_finite v ≡ f.math_finite v)
    → (outputs : List Variable) (timing_outputs : List String) (variables files : Fields)
    → ((name : String) → IsWithinBand (get name variables))
    → ((name : String) → IsWithinBand (get name files))
    → (policy_problems f outputs timing_outputs variables files ≡ []) ↔ (
        ((v : Variable)
          → In v outputs
          → elem v.dtype banded_dtypes ≡ true
          → tolerance_problem f (get v.name variables) ≡ none)
        × ((path : String)
            → In path timing_outputs
            → (ends_in (codes ".npy") (codes path) ≡ true)
              × (tolerance_problem f (get path files) ≡ none)))
unfolding policy_problems
policy_problems-tolerance_problem f alike outputs timing_outputs variables files of_variables
      of_files =
    let region = tolerance_problems-nil f alike outputs variables of_variables in
    let timing = timing_problems-nil f alike timing_outputs files of_files in
    (
      λ h.
          let (one, two) =
            append-nil (tolerance_problems f outputs variables)
              (timing_problems f timing_outputs files) h in
          (region.0 one, timing.0 two),
      λ h.
          append_nil_of (tolerance_problems f outputs variables)
            (timing_problems f timing_outputs files) (region.1 h.0) (timing.1 h.1),
    )
