-- ===== src/Oracle/Serve/Holdout.antt =====
-- What an answer about the held-out cases can say, in services/oracle/app.py.
use skateboard.Prelude.{
  String, List, Option, none, elem, string_eq, ◌≡◌, sym, ap, subst, ◌∙◌, arith,
}
use skateboard.Errors.{Result, ok, gateway_error, >>=-eq-ok, ensure, traverse}
use skateboard.Region.Glob.{Text}
use skateboard.Capture.{Array}
use skateboard.Capture.Tolerance.{Floats}
use skateboard.Oracle.Serve.{
  App, datasets, CompareRequest, CompareResponse, CaseAnswer, auth, check_ready, cases_of,
  judge_case, respond, compare_outputs,
}

module _ (f : Floats) (decode : String → Result Array) where
  -- What an answer is made of.
  pub compare_outputs-inv :
      (app : App) (request : CompareRequest) (authorization : Option Text)
      (answer : CompareResponse f decode)
      → compare_outputs f decode app request authorization ≡ ok answer
      → (per_case : List (String × CaseAnswer f decode)) × (traverse
            (judge_case f decode app request.outputs)
            (cases_of app.image request.dataset)
          ≡ ok per_case)
        × (respond f decode app request.dataset per_case ≡ answer)
  unfolding compare_outputs
  compare_outputs-inv app request authorization answer h =
      let (_, _, h₁) = >>=-eq-ok (auth app authorization) _ h in
      let (_, _, h₂) = >>=-eq-ok (check_ready app) _ h₁ in
      let (_, _, h₃) =
        >>=-eq-ok (ensure (elem request.dataset datasets) (gateway_error 400 "unknown dataset")) _
          h₂ in
      let (per_case, e, h₄) =
        >>=-eq-ok
          (traverse (judge_case f decode app request.outputs) (cases_of app.image request.dataset))
          _ h₃ in
      (per_case, e, ground arith)

  respond-holdout :
      (app other : App) (one two : List (String × CaseAnswer f decode))
      → app.image.policy_sha256 ≡ other.image.policy_sha256
      → app.image.oracle_identity ≡ other.image.oracle_identity
      → (respond f decode app "holdout" one).verdict
        ≡ (respond f decode other "holdout" two).verdict
      → respond f decode app "holdout" one ≡ respond f decode other "holdout" two
  unfolding respond
  respond-holdout app other one two sha identity verdict = λ i. record {
    verdict = verdict i;
    dataset = "holdout";
    policy_sha256 = sha i;
    oracle_identity = identity i;
    per_case = none;
  }

  -- Two answers about the held-out cases that have one verdict are the same answer, whatever was
  -- submitted and whatever the expected outputs and the bands are: with the policy's digest and the
  -- oracle's identity fixed, the verdict is all that such an answer tells.
  pub compare_outputs-holdout :
      (app other : App) (request request' : CompareRequest)
      (authorization authorization' : Option Text) (answer answer' : CompareResponse f decode)
      → app.image.policy_sha256 ≡ other.image.policy_sha256
      → app.image.oracle_identity ≡ other.image.oracle_identity
      → request.dataset ≡ "holdout"
      → request'.dataset ≡ "holdout"
      → compare_outputs f decode app request authorization ≡ ok answer
      → compare_outputs f decode other request' authorization' ≡ ok answer'
      → answer.verdict ≡ answer'.verdict
      → answer ≡ answer'
  compare_outputs-holdout app other request request' authorization authorization' answer answer' sha
        identity d d' h h' same =
      let (one, _, made) = compare_outputs-inv app request authorization answer h in
      let (two, _, made') = compare_outputs-inv other request' authorization' answer' h' in
      let first : respond f decode app "holdout" one ≡ answer =
        subst (λ x. respond f decode app x one ≡ answer) d made in
      let second : respond f decode other "holdout" two ≡ answer' =
        subst (λ x. respond f decode other x two ≡ answer') d' made' in
      let verdict_of = λ (r : CompareResponse f decode). r.verdict in
      sym first
      ∙ respond-holdout app other one two sha identity
          (ap verdict_of first ∙ same ∙ sym (ap verdict_of second))
      ∙ second
