-- ===== src/Oracle/Serve/Refusal.antt =====
-- Who is answered, and when: the token and the readiness of services/oracle/app.py.
use skateboard.Prelude.{
  String, Bool, true, false, List, [], ◌∷◌, ◌++◌, Option, some, none, elem, In, is_some, string_eq,
  ◌==◌, ==-refl, if◌then◌else◌, ◌≡◌, ◌≢◌, refl, sym, ap, subst, ◌∙◌, arith, inl, inr, Bool-cases,
}
use skateboard.Prelude.Text.{codes}
use skateboard.Errors.{Result, ok, raise, gateway_error, >>=-eq-ok, ensure}
use skateboard.Region.Glob.{Text}
use skateboard.Ledger.FileSet.{text_eq}
use skateboard.Ledger.Value.{Fields, get, find_key}
use skateboard.Capture.{Variable, Array}
use skateboard.Capture.Tolerance.{Floats, tolerance_problem}
use skateboard.Oracle.Policy.{banded_dtypes, is_empty, check_policy}
use skateboard.Oracle.Policy.Agrees.{check_policy-bands}
use skateboard.Oracle.Serve.{
  App, Image, ready, CompareRequest, auth, check_ready, compare_outputs, get_policy, holdout_inputs,
  what_is_missing, variables_of, with_policy, create_app,
}

-- The header that a request has to carry, where the service has a token.
abbrev bearer : Text → Option Text
bearer token = some (codes "Bearer " ++ token)

beq-no : (a b : Text) → a ≢ b → (a == b) ≡ false
beq-no a b h = elim (Bool-cases (a == b)) [
  | inl t ↦ absurd (h ((text_eq.beq_iff a b).0 t))
  | inr t ↦ t
]

auth-refused :
    (app : App) (authorization : Option Text)
    → app.token ≢ []
    → authorization ≢ bearer app.token
    → auth app authorization ≡ raise (gateway_error 401 "token")
unfolding auth
auth-refused app none closed wrong = rw (beq-no app.token [] closed) refl
auth-refused app (some given) closed wrong =
    rw
      (
        beq-no app.token [] closed,
        beq-no given (codes "Bearer " ++ app.token) (λ e. wrong (ap some e)),
      )
      refl

auth-taken :
    (app : App) (authorization : Option Text)
    → authorization ≡ bearer app.token
    → auth app authorization ≡ ok tt
unfolding auth
auth-taken app authorization h = rw h (either (app.token == []))
  where
    either :
        (b : Bool)
        → (if b
            then ok tt
            else ensure
                ((codes "Bearer " ++ app.token) == (codes "Bearer " ++ app.token))
                (gateway_error 401 "token"))
          ≡ ok tt
    either true = refl
    either false = rw (==-refl (codes "Bearer " ++ app.token)) refl

module _ (f : Floats) (decode : String → Result Array) where
  -- Where the service has a token, a request that does not carry it gets 401 from all three
  -- endpoints that need it, whether or not there is anything to answer with.
  pub compare_outputs-auth :
      (app : App) (request : CompareRequest) (authorization : Option Text)
      → app.token ≢ []
      → authorization ≢ bearer app.token
      → (get_policy app authorization ≡ raise (gateway_error 401 "token"))
        × (holdout_inputs app authorization ≡ raise (gateway_error 401 "token"))
        × (compare_outputs f decode app request authorization ≡ raise (gateway_error 401 "token"))
  unfolding get_policy holdout_inputs compare_outputs
  compare_outputs-auth app request authorization closed wrong =
      let e = auth-refused app authorization closed wrong in (rw e refl, rw e refl, rw e refl)

  -- A request that carries the token gets 409 from all three while something is missing.
  compare_outputs-check_ready :
      (app : App) (request : CompareRequest) (authorization : Option Text)
      → authorization ≡ bearer app.token
      → ready app ≡ false
      → (get_policy app authorization ≡ raise (gateway_error 409 "not ready"))
        × (holdout_inputs app authorization ≡ raise (gateway_error 409 "not ready"))
        × (compare_outputs f decode app request authorization
            ≡ raise (gateway_error 409 "not ready"))
  unfolding get_policy holdout_inputs compare_outputs check_ready
  compare_outputs-check_ready app request authorization right waiting =
      let e = auth-taken app authorization right in
      (rw (e, waiting) refl, rw (e, waiting) refl, rw (e, waiting) refl)

is_empty-eq : (xs : List String) → is_empty xs ≡ true → xs ≡ []
is_empty-eq [] h = refl
is_empty-eq (x ∷ xs) h = absurd (ground arith)

with_parts :
    (f : Floats) (image : Image) (token : Text) (missing : List String) (tolerances : Option Fields)
    (outputs : Option (List Variable)) (app : App)
    → with_policy f image token missing tolerances outputs ≡ ok app
    → (outs : List Variable) × (outputs ≡ some outs) × (check_policy f app.bands outs ≡ ok tt)
with_parts f image token missing none none app h = absurd (ground arith)
with_parts f image token missing none (some outs) app h = absurd (ground arith)
with_parts f image token missing (some policy) none app h = absurd (ground arith)
with_parts f image token missing (some policy) (some outs) app h =
    let (bands, _, h₁) = >>=-eq-ok (variables_of policy outs) _ h in
    let (_, c, h₂) = >>=-eq-ok (check_policy f bands outs) _ h₁ in
    let (_, _, h₃) = >>=-eq-ok (ensure (is_some (find_key "variables" policy)) _) _ h₂ in
    let same : bands ≡ app.bands = ap (λ r. bands_in r) h₃ in
    (outs, refl, subst (λ b. check_policy f b outs ≡ ok tt) same c)
  where
    bands_in : Result App → Fields
    bands_in (ok app) = app.bands
    bands_in (raise e) = Fields.end

-- A service that came up ready knows the manifest's outputs, and has a band with no problem for
-- each of them that is compared within one; one that came up without is not ready.
create_app-ready :
    (f : Floats) (image : Image) (token : Text) (app : App)
    → create_app f image token ≡ ok app
    → ready app ≡ true
    → (outs : List Variable) × (image.outputs ≡ some outs)
      × ((v : Variable)
          → In v outs
          → elem v.dtype banded_dtypes ≡ true
          → tolerance_problem f (get v.name app.bands) ≡ none)
unfolding create_app
create_app-ready f image token app h r =
    let (missing, _, h₁) = >>=-eq-ok (what_is_missing image) _ h in
    elim (Bool-cases (is_empty missing)) [
      | inl t ↦
          let (outs, e, c) =
            with_parts f image token missing image.tolerances image.outputs app (rw t at h₁) in
          (outs, e, (check_policy-bands f app.bands outs).0 c)
      | inr t ↦
          let e : false ≡ ready app = sym t ∙ ap (λ x. empty_in x) (rw t at h₁) in
          absurd (ground arith)
    ]
  where
    empty_in : Result App → Bool
    empty_in (ok app) = ready app
    empty_in (raise e) = true
