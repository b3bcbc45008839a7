-- ===== src/Capture/Cases.antt =====
-- A case: `compare_case` of equivalent/capture/compare.py, over dictionaries of arrays.
use skateboard.Prelude.{
  String, ◌≡◌, ◌↔◌, refl, ap, sym, ◌∙◌, Bool, true, false, not, List, map, Option, some, none, In,
  inl, inr, Option-cases, arith, ◌==◌, string_eq, if◌then◌else◌, filter, all, all-In, all_of_In,
  elem, lookup, unique,
}
use skateboard.Prelude.Text.{str_leb}
use skateboard.Prelude.Sorting.{sort_by}
use skateboard.Errors.{
  Result, ok, raise, key_error, >>=-eq-ok, ◌>>=◌, traverse, traverse-In, traverse-In_of,
}
use skateboard.Ledger.Value.{Value}
use skateboard.Capture.{Array}
use skateboard.Capture.Tolerance.{Floats}
use skateboard.Capture.Compare.{Comparison, missing_variable, unmeasured, compare_variable}

abbrev pub Arrays : Type 0
Arrays = List (String × Array)

module _ (f : Floats) where
  pub record CaseComparison : Type 0 where
    pub pass : Bool
    pub per_var : List (String × Comparison f)
    pub extra : List String

  -- `tols[var]` for a floating-point variable, `None` for another
  unfoldable pub band_of : List (String × Value) → String → Array → Result Value
  band_of tols var ref =
      if ref.dtype.kind == "f"
      then (elim (lookup var tols) [ none ↦ raise (key_error "tolerance") | some tol ↦ ok tol ])
      else ok Value.null

  abbrev pub against :
      List (String × Value) → String → Array → Option Array → Result (String × Comparison f)
  against tols var ref none = ok (var, unmeasured f false (some missing_variable) 0 0)
  against tols var ref (some array) =
      band_of tols var ref >>= λ tol. compare_variable f ref array tol >>= λ c. ok (var, c)

  -- One round of the loop over the expected variables.
  unfoldable pub compare_entry :
      Arrays → List (String × Value) → (String × Array) → Result (String × Comparison f)
  unfolding band_of compare_variable
  compare_entry got tols (var, ref) = against tols var ref (lookup var got)

  -- `compare_case`
  unfoldable pub compare_case : Arrays → Arrays → List (String × Value) → Result CaseComparison
  unfolding compare_entry sort_by str_leb
  compare_case expected got tols = traverse (compare_entry got tols) expected >>= λ per_var.
      ok (record {
        pass = all (λ e. e.1.pass) per_var;
        per_var = per_var;
        extra =
            sort_by str_leb
              (unique (filter (λ v. not (elem v (map (λ e. e.0) expected))) (map (λ e. e.0) got)));
      })

  -- The variable was submitted, and the two arrays pass under its band.
  pub record Passes (got : Arrays) (tols : List (String × Value)) (var : String) (ref : Array)
      : Type 0 where
    pub array : Array
    pub submitted : lookup var got ≡ some array
    pub tol : Value
    pub band : band_of tols var ref ≡ ok tol
    pub comparison : Comparison f
    pub compared : compare_variable f ref array tol ≡ ok comparison
    pub passed : comparison.pass ≡ true

  entry-Passes :
      (got : Arrays) (tols : List (String × Value)) (var : String) (ref : Array)
      (x : String × Comparison f)
      → compare_entry got tols (var, ref) ≡ ok x
      → x.1.pass ≡ true
      → Passes got tols var ref
  unfolding compare_entry
  entry-Passes got tols var ref x q t = elim (Option-cases (lookup var got)) [
    | inl n ↦
        let e : ◌≡◌ {A = Result (String × Comparison f)}
            (ok (var, unmeasured f false (some missing_variable) 0 0)) (ok x) =
          rw (n, compare_entry) at q in
        let e' : false ≡ x.1.pass = ap (λ y. pass_of y) e in absurd (ground arith)
    | inr (array, n) ↦
        let (tol, b, q') = >>=-eq-ok (band_of tols var ref) _ (rw (n, compare_entry) at q) in
        let (c, m, q'') = >>=-eq-ok (compare_variable f ref array tol) _ q' in
        record {
          array = array;
          submitted = n;
          tol = tol;
          band = b;
          comparison = c;
          compared = m;
          passed = ap (λ y. pass_of y) q'' ∙ t;
        }
  ]
    where
      pass_of : Result (String × Comparison f) → Bool
      pass_of (ok y) = y.1.pass
      pass_of (raise why) = false

  entry-Passes_of :
      (got : Arrays) (tols : List (String × Value)) (var : String) (ref : Array)
      (x : String × Comparison f)
      → compare_entry got tols (var, ref) ≡ ok x
      → Passes got tols var ref
      → x.1.pass ≡ true
  unfolding compare_entry
  entry-Passes_of got tols var ref x q p =
      let e : ◌≡◌ {A = Result (String × Comparison f)} (ok (var, p.comparison)) (ok x) =
        sym (rw (p.submitted, p.band, p.compared) refl) ∙ q in
      sym (ap (λ y. pass_of y) e) ∙ p.passed
    where
      pass_of : Result (String × Comparison f) → Bool
      pass_of (ok y) = y.1.pass
      pass_of (raise why) = false

  -- A case that comes to a result passes exactly when each expected variable is among those that
  -- were submitted and the two arrays pass under that variable's band. What else was submitted
  -- decides nothing.
  pub compare_case-pass :
      (expected got : Arrays) (tols : List (String × Value)) (r : CaseComparison)
      → compare_case expected got tols ≡ ok r
      → (r.pass ≡ true)
        ↔ ((var : String) (ref : Array) → In (var, ref) expected → Passes got tols var ref)
  unfolding compare_case
  compare_case-pass expected got tols r h =
      let (per_var, e, e') = >>=-eq-ok (traverse (compare_entry got tols) expected) _ h in
      let made : all (λ (x : String × Comparison f). x.1.pass) per_var ≡ r.pass =
        ap (λ (x : Result CaseComparison). pass_of x) e' in
      (
        (λ t var ref i.
            let (x, j, q) = traverse-In _ expected e (var, ref) i in
            entry-Passes got tols var ref x q
              (all-In (λ (x : String × Comparison f). x.1.pass) per_var (made ∙ t) x j)),
        (λ each.
            sym made
            ∙ all_of_In (λ (x : String × Comparison f). x.1.pass) per_var
                (λ x j.
                  let ((var, ref), i, q) = traverse-In_of _ expected e x j in
                  entry-Passes_of got tols var ref x q (each var ref i))),
      )
    where
      pass_of : Result CaseComparison → Bool
      pass_of (ok x) = x.pass
      pass_of (raise why) = false
