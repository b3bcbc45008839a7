-- ===== src/Gateway/Run/Failure.antt =====
-- A request whose check reaches no verdict: the `except ComponentError` of `_dispatch_and_record`
-- in equivalent/gateway/run.py, and what the `try` had written by then.
use skateboard.Prelude.{
  String, ◌≡◌, refl, List, [], ◌∷◌, map, Option, Option-cases, inl, inr, arith,
}
use skateboard.Errors.{Error, Result, ok, raise, component_error, key_error, Result-cases}
use skateboard.Ledger.Acceptance
use skateboard.Ledger.Acceptance.{registered}
use skateboard.Ledger.Workflow.Catalog.{actions}
use skateboard.Ledger.Subject.{Subject}
use skateboard.Ledger.Record.{Claim, Predicate}
use skateboard.Ledger.Store.{LedgerStore, Packed, append_request, record_claim}
use skateboard.Ledger.Status.{Row}
use skateboard.Gateway.Context.{RunContext, CheckResult, Handler, subject_named}
use skateboard.Gateway.Exec.{Exec, pure, lift, reads, write, attempt, settle, continue, ◌>>=◌}
use skateboard.Gateway.Reading.{
  dispatch, missing_requirements, claims_already_filed, restored_build,
}
use skateboard.Gateway.Run.{
  ClaimReceipt, Response, failed, refusal, one, many, log, recorded, keep_all, keep_results,
  record_result, record_results, file_results, answer_filed, answer_existing, answer_error,
  dispatch_and_record, claim_response, claims_response, answer, execute,
}

-- The action does not end in a component error.
record IsSure {A : Type 0} (m : Exec A) : Type 0 where
  at : (s : LedgerStore) (why : String) → ¬ ((m s).0 ≡ raise (component_error why))

-- Nothing but the log differs.
pub record SameFiles (s s' : LedgerStore) : Type 0 where
  pub claims : s'.claims ≡ s.claims
  pub artifacts : s'.artifacts ≡ s.artifacts
  pub capture_sets : s'.capture_sets ≡ s.capture_sets

module _ {A B : Type 0} where
  IsSure-continue :
      (r : Result A) (f : A → Exec B) (s : LedgerStore) (why : String)
      → ¬ (r ≡ raise (component_error why))
      → ((a : A) → IsSure (f a))
      → (continue r f s).0 ≡ raise (component_error why)
      → ⊥
  IsSure-continue (ok a) f s why h k bad = (k a).at s why bad
  IsSure-continue (raise e) f s why h k bad =
      h (let e' : ◌≡◌ {A = Result B} (raise e) (raise (component_error why)) = bad in ground arith)

  IsSure-bind :
      (m : Exec A) (f : A → Exec B) → IsSure m → ((a : A) → IsSure (f a)) → IsSure (m >>= f)
  unfolding ◌>>=◌
  IsSure-bind m f h k = record {
    at = λ s why. IsSure-continue (m s).0 f (m s).1 why (h.at s why) k;
  }

IsSure-pure : {A : Type 0} (a : A) → IsSure (pure a)
unfolding pure
IsSure-pure a = record { at = λ s why bad. absurd (ground arith) }

keep_all-IsSure : (ps : List Packed) → IsSure (keep_all ps)
unfolding keep_all write
keep_all-IsSure [] = IsSure-pure tt
keep_all-IsSure (p ∷ ps) =
    IsSure-bind _ _ (record { at = λ s why bad. absurd (ground arith) }) (λ _. keep_all-IsSure ps)

keep_results-IsSure : (results : List (String × CheckResult)) → IsSure (keep_results results)
unfolding keep_results
keep_results-IsSure [] = IsSure-pure tt
keep_results-IsSure ((p, result) ∷ rest) =
    IsSure-bind _ _ (keep_all-IsSure result.stores) (λ _. keep_results-IsSure rest)

answers-ne :
    {A : Type 0} (answer : A → Response) (r : Result A) (s : LedgerStore) (e : Error)
    → ((a : A) → ¬ (answer a ≡ failed e))
    → ¬ (((lift r >>= λ a. pure (answer a)) s).0 ≡ ok (failed e))
unfolding lift pure ◌>>=◌
answers-ne answer (ok a) s e k h =
    k a (let h' : ◌≡◌ {A = Result Response} (ok (answer a)) (ok (failed e)) = h in ground arith)
answers-ne answer (raise why) s e k h =
    let h' : ◌≡◌ {A = Result Response} (raise why) (ok (failed e)) = h in absurd (ground arith)

one-ne :
    (r : Result ClaimReceipt) (s : LedgerStore) (e : Error)
    → ¬ (((lift r >>= λ a. pure (one a)) s).0 ≡ ok (failed e))
one-ne r s e = answers-ne one r s e (λ a h. ground arith)

many-ne :
    (r : Result (List (String × ClaimReceipt))) (s : LedgerStore) (e : Error)
    → ¬ (((lift r >>= λ a. pure (many a)) s).0 ≡ ok (failed e))
many-ne r s e = answers-ne many r s e (λ a h. ground arith)

lift-ne : (why : Error) (s : LedgerStore) (e : Error) → ¬ ((lift (raise why) s).0 ≡ ok (failed e))
unfolding lift
lift-ne why s e h =
    let h' : ◌≡◌ {A = Result Response} (raise why) (ok (failed e)) = h in absurd (ground arith)

refusal-ne :
    (action tree : String) (rows : List Row) (e : Error)
    → ¬ (◌≡◌ {A = Result Response} (ok (refusal action tree rows)) (ok (failed e)))
refusal-ne action tree rows e h = ground arith

raise-ne :
    {A : Type 0} {p : String} (why : String)
    → ¬ (◌≡◌ {A = Result A} (raise (key_error p)) (raise (component_error why)))
raise-ne why h = ground arith

ok-ne :
    {A : Type 0} (a : A) (why : String)
    → ¬ (◌≡◌ {A = Result A} (ok a) (raise (component_error why)))
ok-ne a why h = ground arith

subject_named-ne :
    (run : RunContext) (kind why : String)
    → ¬ (subject_named run kind ≡ raise (component_error why))
unfolding subject_named
subject_named-ne run kind why h = ground arith

get-ne : (p why : String) → ¬ (Acceptance.get p ≡ raise (component_error why))
unfolding Acceptance.get
get-ne p why h = elim (Option-cases (registered p actions)) [
  | inl e ↦ absurd (raise-ne why (rw (e, Acceptance.get) at h))
  | inr (entry, e) ↦ absurd (ok-ne entry why (rw (e, Acceptance.get) at h))
]

record_claim-ne :
    (now : String) (subject : List Subject) (p : String) (predicate : Predicate)
    (materials : List Subject) (session : String) (s : LedgerStore) (why : String)
    → ¬ (record_claim now subject p predicate materials session s ≡ raise (component_error why))
unfolding record_claim
record_claim-ne now subject p predicate materials session s why h =
    elim (Result-cases (Acceptance.get p)) [
      | inl (entry, e) ↦ absurd (ok-ne _ why (rw (e, record_claim) at h))
      | inr (e, e') ↦
          let bad : ◌≡◌ {A = Result (Claim × LedgerStore)} (raise e) (raise (component_error why)) =
            rw (e', record_claim) at h in
          get-ne p why (ground arith)
    ]

settle-raise :
    {A : Type 0} (s : LedgerStore) (r : Result (A × LedgerStore)) (e : Error)
    → (settle s r).0 ≡ raise e
    → r ≡ raise e
settle-raise s (ok (a, s')) e h =
    let h' : ◌≡◌ {A = Result _} (ok a) (raise e) = h in absurd (ground arith)
settle-raise {A} s (raise e') e h =
    let h' : ◌≡◌ {A = Result A} (raise e') (raise e) = h in ground arith

module _ (hash_text : String → String) (handlers : String → Option Handler)
    (clock : LedgerStore → String) where
  recorded-IsSure :
      (run : RunContext) (p : String) (result : CheckResult) (tool : String) (r : Result Subject)
      → ((why : String) → ¬ (r ≡ raise (component_error why)))
      → IsSure (recorded hash_text handlers clock run p result tool r)
  unfolding lift attempt
  recorded-IsSure run p result tool (raise e) h = record {
    at = λ s why bad. h why (
        let e' : ◌≡◌ {A = Result Claim} (raise e) (raise (component_error why)) = bad in
        ground arith);
  }
  recorded-IsSure run p result tool (ok subject) h = record {
    at = λ s why bad. record_claim-ne _ _ _ _ _ _ s why (settle-raise s _ _ bad);
  }

  record_results-IsSure :
      (run : RunContext) (tool : String) (results : List (String × CheckResult))
      → IsSure (record_results hash_text handlers clock run tool results)
  unfolding record_results record_result
  record_results-IsSure run tool [] = IsSure-pure []
  record_results-IsSure run tool ((p, result) ∷ rest) =
      IsSure-bind _ _
        (recorded-IsSure run p result tool _ (subject_named-ne run result.subject_kind))
        (λ c. IsSure-bind _ _ (record_results-IsSure run tool rest) (λ cs. IsSure-pure _))

  -- If filing the results of a check ends in a component error, nothing was written.
  pub file_results-clean :
      (run : RunContext) (s : LedgerStore) (why : String)
      → (file_results hash_text handlers clock run s).0 ≡ raise (component_error why)
      → (file_results hash_text handlers clock run s).1 ≡ s
  unfolding file_results reads ◌>>=◌
  file_results-clean run s why h = elim (Result-cases (dispatch hash_text handlers run s)) [
    | inr (e, d) ↦ rw d refl
    | inl ((handler, results), d) ↦ absurd (
        (IsSure-bind _ _ (keep_results-IsSure results)
            (λ _. record_results-IsSure run handler.tool results)).at
          s why (rw (d, file_results, ◌>>=◌) at h))
  ]

  answer_filed-ne :
      (run : RunContext) (filed : List (Claim × List String)) (s : LedgerStore) (e : Error)
      → ¬ ((answer_filed hash_text handlers clock run filed s).0 ≡ ok (failed e))
  unfolding answer_filed log write ◌>>=◌
  answer_filed-ne run [] s e h = many-ne (claims_response []) s e h
  answer_filed-ne run ((c, reasons) ∷ []) s e h = one-ne (claim_response c reasons) _ e h
  answer_filed-ne run (a ∷ b ∷ rest) s e h = many-ne (claims_response (a ∷ b ∷ rest)) _ e h

  answer_existing-ne :
      (run : RunContext) (c : Claim) (cs : List Claim) (s : LedgerStore) (e : Error)
      → ¬ ((answer_existing hash_text handlers clock run (c ∷ cs) s).0 ≡ ok (failed e))
  unfolding log write ◌>>=◌
  answer_existing-ne run c [] s e h = one-ne (claim_response c []) _ e h
  answer_existing-ne run c (d ∷ cs) s e h =
      many-ne (claims_response (map (λ x. (x, [])) (c ∷ d ∷ cs))) _ e h

  answer_error-SameFiles :
      (run : RunContext) (e : Error) (s : LedgerStore)
      → SameFiles s (answer_error hash_text handlers clock run e s).1
  unfolding answer_error log write append_request pure ◌>>=◌
  answer_error-SameFiles run e s = record { claims = refl; artifacts = refl; capture_sets = refl }

  dispatch_and_record-clean :
      (run : RunContext) (s : LedgerStore) (e : Error)
      → (dispatch_and_record hash_text handlers clock run s).0 ≡ ok (failed e)
      → SameFiles s (dispatch_and_record hash_text handlers clock run s).1
  unfolding dispatch_and_record
  dispatch_and_record-clean run s e h =
      elim (Result-cases (file_results hash_text handlers clock run s).0) [
        | inl (filed, f) ↦ absurd (
            answer_filed-ne run filed (file_results hash_text handlers clock run s).1 e
              (rw (f, dispatch_and_record) at h))
        | inr (Error.component_error why, f) ↦
            rw (f, file_results-clean run s why f) (answer_error-SameFiles run _ s)
        | inr (Error.value_error why, f) ↦ absurd (lift-ne _ _ e (rw (f, dispatch_and_record) at h))
        | inr (Error.key_error why, f) ↦ absurd (lift-ne _ _ e (rw (f, dispatch_and_record) at h))
        | inr (Error.type_error why, f) ↦ absurd (lift-ne _ _ e (rw (f, dispatch_and_record) at h))
        | inr (Error.attribute_error why, f) ↦
            absurd (lift-ne _ _ e (rw (f, dispatch_and_record) at h))
        | inr (Error.runtime_error why, f) ↦
            absurd (lift-ne _ _ e (rw (f, dispatch_and_record) at h))
        | inr (Error.gateway_error code why, f) ↦
            absurd (lift-ne _ _ e (rw (f, dispatch_and_record) at h))
      ]

  answer-clean :
      (run : RunContext) (s : LedgerStore) (e : Error)
      → (answer hash_text handlers clock run s).0 ≡ ok (failed e)
      → SameFiles s (answer hash_text handlers clock run s).1
  unfolding answer reads ◌>>=◌
  answer-clean run s e h = elim (Result-cases (missing_requirements hash_text handlers run s)) [
    | inr (why, m) ↦ absurd (lift-ne why s e (rw (m, answer) at h))
    | inl (row ∷ rows, m) ↦ absurd (refusal-ne _ _ _ e (rw (m, answer) at h))
    | inl ([], m) ↦ elim (Result-cases (claims_already_filed hash_text handlers run s)) [
      | inr (why, f) ↦ absurd (lift-ne why s e (rw (m, f, answer) at h))
      | inl ([], f) ↦ rw (m, f) (dispatch_and_record-clean run s e (rw (m, f, answer) at h))
      | inl (c ∷ cs, f) ↦ absurd (answer_existing-ne run c cs s e (rw (m, f, answer) at h))
    ]
  ]

  -- A request that is answered with an error has changed no claim, no blob and no capture set,
  -- wherever its check stopped.
  pub execute-failed :
      (run : RunContext) (s : LedgerStore) (e : Error)
      → (execute hash_text handlers clock run s).0 ≡ ok (failed e)
      → SameFiles s (execute hash_text handlers clock run s).1
  unfolding execute
  execute-failed run s e h = elim (Result-cases (restored_build hash_text handlers run s)) [
    | inl (restored, r) ↦ rw r (answer-clean restored s e (rw (r, execute) at h))
    | inr (Error.component_error why, r) ↦ rw r (answer_error-SameFiles run _ s)
    | inr (Error.value_error why, r) ↦ absurd (lift-ne _ _ e (rw (r, execute) at h))
    | inr (Error.key_error why, r) ↦ absurd (lift-ne _ _ e (rw (r, execute) at h))
    | inr (Error.type_error why, r) ↦ absurd (lift-ne _ _ e (rw (r, execute) at h))
    | inr (Error.attribute_error why, r) ↦ absurd (lift-ne _ _ e (rw (r, execute) at h))
    | inr (Error.runtime_error why, r) ↦ absurd (lift-ne _ _ e (rw (r, execute) at h))
    | inr (Error.gateway_error code why, r) ↦ absurd (lift-ne _ _ e (rw (r, execute) at h))
  ]
