-- ===== src/Oracle/Serve/Verdict.antt =====
-- What the oracle's verdict means, and what it refuses to answer (services/oracle/app.py).
use skateboard.Prelude.{
  String, Bool, true, false, List, Option, some, all, all-In, all_of_In, lookup, In, string_eq, ◌≡◌,
  ◌≢◌, ◌↔◌, refl, sym, ap, subst, ◌∙◌, arith, inl, inr, Bool-cases, Option-cases,
}
use skateboard.Errors.{Result, ok, raise, >>=-eq-ok, traverse-In, traverse-In_of}
use skateboard.Region.Glob.{Text}
use skateboard.Ledger.Value.{fields}
use skateboard.Capture.{Array}
use skateboard.Capture.Tolerance.{Floats}
use skateboard.Capture.Cases.{Arrays, Passes, compare_case, compare_case-pass}
use skateboard.Oracle.Serve.{
  App, Case, CompareRequest, CompareResponse, CaseAnswer, no_output, passes, cases_of, decode_all,
  judge_case, respond, compare_outputs,
}
use skateboard.Oracle.Serve.Holdout.{compare_outputs-inv}

module _ (f : Floats) (decode : String → Result Array) where
  -- The submitted files of a case decode, and every expected variable is among them and passes.
  pub record IsAnswered (app : App) (request : CompareRequest) (c : Case) : Type 0 where
    pub submitted : List (String × String)
    pub found : lookup c.name request.outputs ≡ some submitted
    pub got : Arrays
    pub decoded : decode_all f decode submitted ≡ ok got
    pub each :
        (var : String) (ref : Array)
        → In (var, ref) c.outputs
        → Passes f got (fields app.bands) var ref

  judge_case-IsAnswered :
      (app : App) (request : CompareRequest) (c : Case) (x : String × CaseAnswer f decode)
      → judge_case f decode app request.outputs c ≡ ok x
      → passes f decode x.1 ≡ true
      → IsAnswered app request c
  unfolding judge_case
  judge_case-IsAnswered app request c x h t = elim (Option-cases (lookup c.name request.outputs)) [
    | inl n ↦
        let e : ◌≡◌ {A = Result (String × CaseAnswer f decode)} (ok (c.name, no_output)) (ok x) =
          rw (n, judge_case) at h in
        let e' : false ≡ passes f decode x.1 = ap (λ y. passed y) e in absurd (ground arith)
    | inr (submitted, n) ↦
        let (got, d, h₁) = >>=-eq-ok (decode_all f decode submitted) _ (rw (n, judge_case) at h) in
        let (result, m, h₂) = >>=-eq-ok (compare_case f c.outputs got (fields app.bands)) _ h₁ in
        let good : result.pass ≡ true = ap (λ y. passed y) h₂ ∙ t in
        record {
          submitted = submitted;
          found = n;
          got = got;
          decoded = d;
          each = (compare_case-pass f c.outputs got (fields app.bands) result m).0 good;
        }
  ]
    where
      passed : Result (String × CaseAnswer f decode) → Bool
      passed (ok y) = passes f decode y.1
      passed (raise why) = false

  judge_case_of_IsAnswered :
      (app : App) (request : CompareRequest) (c : Case) (x : String × CaseAnswer f decode)
      → judge_case f decode app request.outputs c ≡ ok x
      → IsAnswered app request c
      → passes f decode x.1 ≡ true
  unfolding judge_case
  judge_case_of_IsAnswered app request c x h a =
      let (got, d, h₁) =
        >>=-eq-ok (decode_all f decode a.submitted) _ (rw (a.found, judge_case) at h) in
      let (result, m, h₂) = >>=-eq-ok (compare_case f c.outputs got (fields app.bands)) _ h₁ in
      let same : ◌≡◌ {A = Result Arrays} (ok a.got) (ok got) = sym a.decoded ∙ d in
      let same_got : a.got ≡ got = ground arith in
      let each =
        subst
          (λ g.
            (var : String) (ref : Array)
            → In (var, ref) c.outputs
            → Passes f g (fields app.bands) var ref)
          same_got a.each in
      sym (ap (λ y. passed y) h₂)
      ∙ (compare_case-pass f c.outputs got (fields app.bands) result m).1 each
    where
      passed : Result (String × CaseAnswer f decode) → Bool
      passed (ok y) = passes f decode y.1
      passed (raise why) = false

  respond-pass :
      (app : App) (dataset : String) (per_case : List (String × CaseAnswer f decode))
      → ((respond f decode app dataset per_case).verdict ≡ "pass")
        ↔ (all (λ (e : String × CaseAnswer f decode). passes f decode e.1) per_case ≡ true)
  unfolding respond
  respond-pass app dataset per_case = (
    λ h.
        elim (Bool-cases
          (all (λ (e : String × CaseAnswer f decode). passes f decode e.1) per_case)) [
            | inl t ↦ t
            | inr t ↦ absurd (ne_words (rw t at h))
          ],
    λ t. rw t refl,
  )
    where
      ne_words : ◌≢◌ {A = String} "fail" "pass"
      ne_words h = absurd (ground (arith, (string_eq.beq_iff "fail" "pass").1 h))

  -- An answer's verdict is "pass" exactly when, for each case of the dataset that was asked about,
  -- files were submitted, all of them decode, and every expected variable of the case is among them
  -- and passes under the policy's band.
  pub compare_outputs-pass :
      (app : App) (request : CompareRequest) (authorization : Option Text)
      (answer : CompareResponse f decode)
      → compare_outputs f decode app request authorization ≡ ok answer
      → (answer.verdict ≡ "pass")
        ↔ ((c : Case) → In c (cases_of app.image request.dataset) → IsAnswered app request c)
  compare_outputs-pass app request authorization answer h =
      let (per_case, e, made) = compare_outputs-inv f decode app request authorization answer h in
      let word = respond-pass app request.dataset per_case in
      let verdict = ap (λ (r : CompareResponse f decode). r.verdict) made in
      let test = λ (x : String × CaseAnswer f decode). passes f decode x.1 in
      (
        (λ t c i.
            let (x, j, q) = traverse-In (judge_case f decode app request.outputs) _ e c i in
            judge_case-IsAnswered app request c x q
              (all-In test per_case (word.0 (verdict ∙ t)) x j)),
        (λ each.
            sym verdict
            ∙ word.1 (
                all_of_In test per_case (λ x j.
                  let (c, i, q) =
                    traverse-In_of (judge_case f decode app request.outputs) _ e x j in
                  judge_case_of_IsAnswered app request c x q (each c i)))),
      )
