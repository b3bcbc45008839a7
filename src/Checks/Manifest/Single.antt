-- ===== src/Checks/Manifest/Single.antt =====
-- One band of equivalent/components/manifest_check.py against `tolerance_problem` of
-- equivalent/capture/compare.py.
use skateboard.Prelude.{
  append-nil, ◌<◌, ◌^◌, String, Bool, true, false, List, [], ◌∷◌, ◌++◌, Option, some, none, inl,
  inr, is_some, string_eq, ◌≡◌, ◌↔◌, refl, ap, subst, arith, Bool-cases, Option-cases,
}
use skateboard.Ledger.FileSet.{text_eq}
use skateboard.Ledger.Value.{Value, Integer, Fields, get, find_key, as_mapping, find_key-missing}
use skateboard.Capture.Tolerance.{
  Floats, Problem, is_real, first_problem, ulp_problem, real_problem, tolerance_problem,
}
use skateboard.Checks.Manifest.{
  BandProblem, absent_fields, when, invalid_real, invalid_ulp, field_problems, complete_problems,
  band_problems,
}

when-nil : (b : Bool) → (p : BandProblem) → when b p ≡ [] → b ≡ false
when-nil true p h = absurd (ground arith)
when-nil false p h = refl

-- The integers that numpy holds in 64 bits.
abbrev pub IsWithin : Value → Type 0
IsWithin (Value.int (Integer.pos n)) = n < 2 ^ 64
IsWithin (Value.int (Integer.negsuc n)) = n < 2 ^ 63
IsWithin _ = Unit {0}

-- The integers of a band's `abs` and `rel` are.
abbrev pub IsWithinBand : Value → Type 0
IsWithinBand (Value.obj band) = IsWithin (get "abs" band) × IsWithin (get "rel" band)
IsWithinBand _ = Unit {0}

complete-nil :
    (f : Floats) (band : Fields) (name : String) (absent : List String)
    → complete_problems f band name absent ≡ []
    → absent ≡ []
complete-nil f band name [] h = refl
complete-nil f band name (x ∷ xs) h = absurd (ground arith)

module _ (f : Floats) where
  first_problem-none : (p q : Option Problem) → first_problem f p q ≡ none → (p ≡ none) × (q ≡ none)
  first_problem-none none q h = (refl, h)
  first_problem-none (some x) q h = absurd (ground arith)

  first_problem_none_of : (p q : Option Problem) → p ≡ none → q ≡ none → first_problem f p q ≡ none
  first_problem_none_of p q hp hq = rw (hp) hq

  -- Three tests that each agree, taken in order.
  three :
      (a b c : Bool)
      → (x y z : BandProblem) → (p q r : Option Problem) → ((p ≡ none) ↔ (a ≡ false))
      → ((q ≡ none) ↔ (b ≡ false))
      → ((r ≡ none) ↔ (c ≡ false))
      → ((when a x ++ when b y ++ when c z) ≡ []) ↔ (first_problem f p (first_problem f q r) ≡ none)
  three a b c x y z p q r ha hb hc = (
    λ h.
        let (first, third) = append-nil (when a x ++ when b y) (when c z) h in
        let (one, two) = append-nil (when a x) (when b y) first in
        first_problem_none_of p _ (ha.1 (when-nil a x one))
          (first_problem_none_of q r (hb.1 (when-nil b y two)) (hc.1 (when-nil c z third))),
    λ h.
        let (hp, later) = first_problem-none p (first_problem f q r) h in
        let (hq, hr) = first_problem-none q r later in rw (ha.0 hp, hb.0 hq, hc.0 hr) refl,
  )

  ulp_problem-none : (v : Value) → (ulp_problem f v ≡ none) ↔ (invalid_ulp v ≡ false)
  ulp_problem-none Value.null = (λ h. ground arith, λ h. ground arith)
  ulp_problem-none (Value.bool b) = (λ h. ground arith, λ h. ground arith)
  ulp_problem-none (Value.int (Integer.pos n)) = (λ h. refl, λ h. refl)
  ulp_problem-none (Value.int (Integer.negsuc n)) = (λ h. ground arith, λ h. ground arith)
  ulp_problem-none (Value.float t) = (λ h. ground arith, λ h. ground arith)
  ulp_problem-none (Value.str t) = (λ h. ground arith, λ h. ground arith)
  ulp_problem-none (Value.arr vs) = (λ h. ground arith, λ h. ground arith)
  ulp_problem-none (Value.obj d) = (λ h. ground arith, λ h. ground arith)

  missing-null :
      (key : String)
      → (band : Fields) → is_some (find_key key band) ≡ false
      → get key band ≡ Value.null
  missing-null key band h = elim (Option-cases (find_key key band)) [
    | inl absent ↦ find_key-missing key band absent
    | inr (v, found) ↦ absurd (ground arith)
  ]

  pub absent_fields-nil :
      (band : Fields) → tolerance_problem f (Value.obj band) ≡ none → absent_fields band ≡ []
  unfolding absent_fields tolerance_problem real_problem
  absent_fields-nil band h =
      let (at_abs, later) = first_problem-none (real_problem f (get "abs" band)) _ h in
      let (at_rel, at_ulp) = first_problem-none (real_problem f (get "rel" band)) _ later in
      rw
        (
          present "abs" band (λ e. absurd (let bad = rw e at at_abs in ground arith)),
          present "rel" band (λ e. absurd (let bad = rw e at at_rel in ground arith)),
          present "ulp" band (λ e. absurd (let bad = rw e at at_ulp in ground arith)),
        )
        refl
    where
      present :
          (key : String) (d : Fields)
          → (get key d ≡ Value.null → ⊥)
          → is_some (find_key key d) ≡ true
      present key d given = elim (Bool-cases (is_some (find_key key d))) [
        | inl t ↦ t
        | inr t ↦ absurd (given (missing-null key d t))
      ]

  mapping-obj : (v : Value) → (d : Fields) → as_mapping v ≡ some d → v ≡ Value.obj d
  mapping-obj Value.null d h = absurd (ground arith)
  mapping-obj (Value.bool b) d h = absurd (ground arith)
  mapping-obj (Value.int n) d h = absurd (ground arith)
  mapping-obj (Value.float t) d h = absurd (ground arith)
  mapping-obj (Value.str t) d h = absurd (ground arith)
  mapping-obj (Value.arr vs) d h = absurd (ground arith)
  mapping-obj (Value.obj e) d h = let same : e ≡ d = ground arith in ap Value.obj same

  pub tolerance-mapping : (v : Value) → as_mapping v ≡ none → tolerance_problem f v ≡ none → ⊥
  unfolding tolerance_problem
  tolerance-mapping Value.null g h = absurd (ground arith)
  tolerance-mapping (Value.bool b) g h = absurd (ground arith)
  tolerance-mapping (Value.int n) g h = absurd (ground arith)
  tolerance-mapping (Value.float t) g h = absurd (ground arith)
  tolerance-mapping (Value.str t) g h = absurd (ground arith)
  tolerance-mapping (Value.arr vs) g h = absurd (ground arith)
  tolerance-mapping (Value.obj d) g h = absurd (ground arith)

module _ (f : Floats)
    (alike : (v : Value) → is_real v ≡ true → IsWithin v → f.real_finite v ≡ f.math_finite v) where
  real_problem-none :
      (v : Value) → IsWithin v → (real_problem f v ≡ none) ↔ (invalid_real f v ≡ false)
  unfolding real_problem
  real_problem-none v within = elim (Bool-cases (is_real v)) [
    | inl t ↦
        let e : f.real_finite v ≡ f.math_finite v = alike v t within in
        rw (t, e) (λ h. ground arith, λ h. ground arith)
    | inr t ↦ rw t (λ h. absurd (ground arith), λ h. absurd (ground arith))
  ]

  field_problems-nil :
      (band : Fields) (name : String)
      → IsWithinBand (Value.obj band)
      → (field_problems f band name ≡ []) ↔ (tolerance_problem f (Value.obj band) ≡ none)
  unfolding field_problems tolerance_problem
  field_problems-nil band name within =
      three f _ _ _ _ _ _ _ _ _ (real_problem-none (get "abs" band) within.0)
        (real_problem-none (get "rel" band) within.1) (ulp_problem-none f (get "ulp" band))

  complete_problems-nil :
      (band : Fields) (name : String)
      → IsWithinBand (Value.obj band)
      → (complete_problems f band name (absent_fields band) ≡ [])
        ↔ (tolerance_problem f (Value.obj band) ≡ none)
  complete_problems-nil band name within =
      let whole = field_problems-nil band name within in
      (
        λ h.
            let none_absent = complete-nil f band name (absent_fields band) h in
            whole.0 (rw none_absent at h),
        λ h. rw (absent_fields-nil f band h) (whole.1 h),
      )

  pub band_problems-nil :
      (bands : Fields)
      → (name : String) → IsWithinBand (get name bands)
      → (band_problems f bands name ≡ []) ↔ (tolerance_problem f (get name bands) ≡ none)
  unfolding band_problems
  band_problems-nil bands name within = elim (Option-cases (as_mapping (get name bands))) [
    | inl bad ↦ (
      λ h. absurd (ground (arith, rw (bad, band_problems) at h)),
      λ h. absurd (tolerance-mapping f (get name bands) bad h),
    )
    | inr (band, good) ↦
        let e : get name bands ≡ Value.obj band = mapping-obj f (get name bands) band good in
        let whole = complete_problems-nil band name (subst IsWithinBand e within) in
        (
          λ h. rw (e) (whole.0 (rw (good, band_problems) at h)),
          λ h. rw (good, band_problems) (whole.1 (subst (λ v. tolerance_problem f v ≡ none) e h)),
        )
  ]
