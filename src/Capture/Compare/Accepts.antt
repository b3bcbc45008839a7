-- ===== src/Capture/Compare/Accepts.antt =====
-- What it takes for a floating-point variable to pass (equivalent/capture/compare.py).
use skateboard.Prelude.{
  ℕ, ◌≡◌, ◌↔◌, refl, ap, sym, ◌∙◌, Bool, true, false, not, List, [], ◌∷◌, length, some, none, In,
  inl, inr, Bool-cases, Option-cases, arith, filter, all, all-In, all_of_In, In-filter,
  In-filter_of, nat_beq, ◌==◌, string_eq, ◌≤◌,
}
use skateboard.Errors.{Result, ok, >>=-eq-ok, traverse, traverse-In, traverse-In_of}
use skateboard.Ledger.Value.{Value, get}
use skateboard.Capture.{Array, same_dtype}
use skateboard.Capture.Ulp.{ulp_diff}
use skateboard.Capture.Tolerance.{Floats, tolerance_problem, fields_of, natural}
use skateboard.Capture.Compare.{
  Comparison, Measured, pairs, both_finite, absolute_error, relative_error, measure, acceptable,
  judge, compare_floats, compare_variable, same_shape, unmeasured, shape_differs, dtype_differs,
  policy, empty_elements,
}

module _ (f : Floats) where
  -- Both elements are finite, and one of the three metrics is within the band.
  pub data IsAcceptable (tol : Value) (itemsize : ℕ) (p : ℕ × ℕ) : Type 0 where
    by_abs :
        both_finite f itemsize p ≡ true
        → f.le (absolute_error f itemsize p) (f.real (get "abs" (fields_of tol))) ≡ true
        → IsAcceptable tol itemsize p
    by_rel :
        both_finite f itemsize p ≡ true
        → f.le (relative_error f itemsize p) (f.real (get "rel" (fields_of tol))) ≡ true
        → IsAcceptable tol itemsize p
    by_ulp :
        (ulp : ℕ)
        → both_finite f itemsize p ≡ true
        → ulp_diff itemsize p.0 p.1 ≡ ok ulp
        → ulp ≤ natural (get "ulp" (fields_of tol))
        → IsAcceptable tol itemsize p

  measure-inv :
      (itemsize : ℕ) (p : ℕ × ℕ) (m : Measured f)
      → measure f itemsize p ≡ ok m
      → (ulp_diff itemsize p.0 p.1 ≡ ok m.ulp_err)
        × (m.abs_err ≡ absolute_error f itemsize p)
        × (m.rel_err ≡ relative_error f itemsize p)
  unfolding measure
  measure-inv itemsize (x, y) m h =
      let (u, e, e') = >>=-eq-ok (ulp_diff itemsize x y) _ h in
      let made : ◌≡◌ {A = Measured f}
          (record {
            abs_err = absolute_error f itemsize (x, y);
            rel_err = relative_error f itemsize (x, y);
            ulp_err = u;
          })
          m =
        ground arith in
      (
        e ∙ ap (λ (x : Measured f). ok x.ulp_err) made,
        ap (λ (x : Measured f). x.abs_err) (sym made),
        ap (λ (x : Measured f). x.rel_err) (sym made),
      )

  acceptable-IsAcceptable :
      (tol : Value) (itemsize : ℕ) (p : ℕ × ℕ) (m : Measured f)
      → measure f itemsize p ≡ ok m
      → both_finite f itemsize p ≡ true
      → acceptable f tol m ≡ true
      → IsAcceptable tol itemsize p
  unfolding acceptable
  acceptable-IsAcceptable tol itemsize p m h finite a =
      let (u, e, e') = measure-inv itemsize p m h in
      elim (Bool-cases (f.le m.abs_err (f.real (get "abs" (fields_of tol))))) [
        | inl t ↦ by_abs finite (rw e at t)
        | inr no_abs ↦ elim (Bool-cases (f.le m.rel_err (f.real (get "rel" (fields_of tol))))) [
          | inl t ↦ by_rel finite (rw e' at t)
          | inr no_rel ↦ by_ulp m.ulp_err finite u (ground arith)
        ]
      ]

  acceptable_of_IsAcceptable :
      (tol : Value) (itemsize : ℕ) (p : ℕ × ℕ) (m : Measured f)
      → measure f itemsize p ≡ ok m
      → IsAcceptable tol itemsize p
      → acceptable f tol m ≡ true
  unfolding acceptable
  acceptable_of_IsAcceptable tol itemsize p m h (by_abs finite t) =
      let (u, e, e') = measure-inv itemsize p m h in rw (e, t) refl
  acceptable_of_IsAcceptable tol itemsize p m h (by_rel finite t) =
      let (u, e, e') = measure-inv itemsize p m h in
      let t' : f.le m.rel_err (f.real (get "rel" (fields_of tol))) ≡ true = rw e' t in ground arith
  acceptable_of_IsAcceptable tol itemsize p m h (by_ulp ulp finite d t) =
      let (u, e, e') = measure-inv itemsize p m h in
      let same : ◌≡◌ {A = Result ℕ} (ok ulp) (ok m.ulp_err) = sym d ∙ u in ground arith

  IsAcceptable-finite :
      (tol : Value) (itemsize : ℕ) (p : ℕ × ℕ)
      → IsAcceptable tol itemsize p
      → both_finite f itemsize p ≡ true
  IsAcceptable-finite tol itemsize p (by_abs finite t) = finite
  IsAcceptable-finite tol itemsize p (by_rel finite t) = finite
  IsAcceptable-finite tol itemsize p (by_ulp ulp finite d t) = finite

  -- No element fails the test exactly where none is left by the filter of its negation.
  none_left :
      (test : ℕ × ℕ → Bool) (l : List (ℕ × ℕ))
      → nat_beq (length (filter (λ p. not (test p)) l)) 0 ≡ true
      → (p : ℕ × ℕ) → In p l
      → test p ≡ true
  none_left test [] h p i = absurd i
  none_left test (q ∷ l) h p i = elim (Bool-cases (test q)) [
    | inr bad ↦ absurd (ground arith)
    | inl good ↦ elim i [
      | inl same ↦ ap test same ∙ good
      | inr later ↦ none_left test l (rw good at h) p later
    ]
  ]

  none_left_of :
      (test : ℕ × ℕ → Bool) (l : List (ℕ × ℕ))
      → ((p : ℕ × ℕ) → In p l → test p ≡ true)
      → nat_beq (length (filter (λ p. not (test p)) l)) 0 ≡ true
  none_left_of test [] h = refl
  none_left_of test (q ∷ l) h = rw (h q (inl refl)) (none_left_of test l (λ p i. h p (inr i)))

  judge-pass :
      (tol : Value) (itemsize n : ℕ) (l : List (ℕ × ℕ)) (ms : List (Measured f))
      → traverse (measure f itemsize) (filter (both_finite f itemsize) l) ≡ ok ms
      → ((judge f tol n (length (filter (λ p. not (both_finite f itemsize p)) l)) ms).pass ≡ true)
        ↔ ((p : ℕ × ℕ) → In p l → IsAcceptable tol itemsize p)
  unfolding judge
  judge-pass tol itemsize n l ms h =
      let test = both_finite f itemsize in
      (
        (λ t p i.
            let finite = none_left test l (ground arith) p i in
            let (m, j, e) = traverse-In _ _ h p (In-filter_of test p l i finite) in
            acceptable-IsAcceptable tol itemsize p m e finite
              (all-In (acceptable f tol) ms (ground arith) m j)),
        (λ each.
            let counted =
              none_left_of test l (λ p i. IsAcceptable-finite tol itemsize p (each p i)) in
            let accepted : all (acceptable f tol) ms ≡ true =
              all_of_In (acceptable f tol) ms (λ m j.
                let (p, i, e) = traverse-In_of _ _ h m j in
                acceptable_of_IsAcceptable tol itemsize p m e (each p (In-filter test p l i).0)) in
            rw (counted, accepted) refl),
      )

  no_pairs : (l m : List ℕ) → empty_elements f l ≡ true → (p : ℕ × ℕ) → ¬ In p (pairs f l m)
  no_pairs [] m h p i = i
  no_pairs (x ∷ l) m h p i = absurd (ground arith)

  compare_floats-pass :
      (ref got : Array) (tol : Value) (c : Comparison f)
      → compare_floats f ref got tol ≡ ok c
      → (c.pass ≡ true) ↔ (
          (p : ℕ × ℕ)
          → In p (pairs f ref.elements got.elements)
          → IsAcceptable tol ref.dtype.itemsize p)
  unfolding compare_floats
  compare_floats-pass ref got tol c h =
      let both = pairs f ref.elements got.elements in
      let size = ref.dtype.itemsize in
      elim (Bool-cases (empty_elements f ref.elements)) [
        | inl empty ↦
            let e : ◌≡◌ {A = Result (Comparison f)} (ok (unmeasured f true none 0 0)) (ok c) =
              rw (empty, compare_floats) at h in
            (λ t p i. absurd (no_pairs ref.elements got.elements empty p i), λ each. ground arith)
        | inr some_there ↦
            let (ms, e, e') =
              >>=-eq-ok (traverse (measure f size) (filter (both_finite f size) both)) _
                (rw (some_there, compare_floats) at h) in
            let n = length ref.elements in
            let count = length (filter (λ p. not (both_finite f size p)) both) in
            let made : judge f tol n count ms ≡ c = ground arith in
            let (sound, complete) = judge-pass tol size n both ms e in
            (
              (λ t. sound (ap (λ (x : Comparison f). x.pass) made ∙ t)),
              (λ each. ap (λ (x : Comparison f). x.pass) (sym made) ∙ complete each),
            )
      ]

  -- A floating-point comparison that comes to a result passes exactly when the shapes and the types
  -- agree, the policy gives a proper band, and every element of the two arrays is finite in both and
  -- within the absolute, the relative or the ULP band.
  pub compare_variable-pass :
      (ref got : Array) (tol : Value) (c : Comparison f)
      → (ref.dtype.kind == "f") ≡ true
      → compare_variable f ref got tol ≡ ok c
      → (c.pass ≡ true) ↔ (
          (same_shape f ref.shape got.shape ≡ true)
          × (same_dtype ref.dtype got.dtype ≡ true)
          × (tolerance_problem f tol ≡ none)
          × ((p : ℕ × ℕ)
              → In p (pairs f ref.elements got.elements)
              → IsAcceptable tol ref.dtype.itemsize p))
  unfolding compare_variable
  compare_variable-pass ref got tol c floating h =
      elim (Bool-cases (same_shape f ref.shape got.shape)) [
        | inr bad ↦
            let e : ◌≡◌ {A = Result (Comparison f)}
                (ok (unmeasured f false (some shape_differs) 0 0)) (ok c) =
              rw (bad, compare_variable) at h in
            (λ t. absurd (ground arith), λ q. absurd (ground arith))
        | inl shapes ↦ elim (Bool-cases (same_dtype ref.dtype got.dtype)) [
          | inr bad ↦
              let e : ◌≡◌ {A = Result (Comparison f)}
                  (ok (unmeasured f false (some dtype_differs) 0 0)) (ok c) =
                rw (shapes, bad, compare_variable) at h in
              (λ t. absurd (ground arith), λ q. absurd (ground arith))
          | inl types ↦ elim (Option-cases (tolerance_problem f tol)) [
            | inr (problem, bad) ↦
                let n = length ref.elements in
                let e : ◌≡◌ {A = Result (Comparison f)}
                    (ok (unmeasured f false (some (policy problem)) n n)) (ok c) =
                  rw (shapes, types, floating, bad, compare_variable) at h in
                (λ t. absurd (ground arith), λ q. absurd (ground arith))
            | inl proper ↦
                let (sound, complete) =
                  compare_floats-pass ref got tol c
                    (rw (shapes, types, floating, proper, compare_variable) at h) in
                (λ t. (shapes, types, proper, sound t), λ q. complete q.3)
          ]
        ]
      ]
