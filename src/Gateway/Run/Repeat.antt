-- ===== src/Gateway/Run/Repeat.antt =====
-- A claim that was just filed, and the query of `_claims_already_filed` for the same request.
use skateboard.Prelude.{
  String, ◌≡◌, ◌≢◌, refl, ap, sym, ◌∙◌, true, false, List, [], ◌∷◌, ◌++◌, Option, some, In,
  In-append_left, In-append_right, In-append_cases, all, all_of_In, elem, elem_of_In, In-unique_of,
  Bool-cases, inl, inr, arith, ◌==◌, string_eq, ==-refl,
}
use skateboard.Errors.{Result, ok, raise, Result-cases}
use skateboard.Ledger.Subject.{Subject, subject_eq}
use skateboard.Ledger.Record.{Claim, schema_version}
use skateboard.Ledger.Evidence.{claim_matches_context}
use skateboard.Ledger.Cohort.{is_foundation, dependent_materials}
use skateboard.Ledger.Store.{LedgerStore, new_claim, append_claim, find_duplicate, is_duplicate}
use skateboard.Ledger.Store.Growth.{record_claim-inv}
use skateboard.Ledger.Store.Queries.{find_duplicate-append_claim}
use skateboard.Ledger.Table.{subject_kind_of}
use skateboard.Gateway.Context.{RunContext, CheckResult, Handler, subject_named, materials_for}
use skateboard.Gateway.Exec.{attempt, settle, lift}
use skateboard.Gateway.Reading.{filed_before}
use skateboard.Gateway.Run.{record_result, claim_materials}

is_duplicate_of :
    (p : String) (subject : Subject) (config_hash : String) (required : List Subject) (c : Claim)
    → c.predicate_type ≡ p
    → c.subject ≡ subject ∷ []
    → c.predicate.config_hash ≡ config_hash
    → c.version ≡ schema_version
    → all (λ m. elem m c.materials) required ≡ true
    → is_duplicate p subject config_hash required c ≡ true
unfolding claim_matches_context
is_duplicate_of p subject config_hash required c e1 e2 e3 e4 covers =
    rw (e1, e2, e3, e4, ==-refl p, ==-refl subject, ==-refl config_hash, covers) refl

settle-inv :
    {A : Type 0} (s : LedgerStore) (r : Result (A × LedgerStore)) {a : A} {s' : LedgerStore}
    → settle s r ≡ (ok a, s')
    → r ≡ ok (a, s')
settle-inv s (ok (b, t)) h =
    let e : ◌≡◌ {A = Result _} (ok b) (ok _) = ap (λ x. x.0) h in let e' = ap (λ x. x.1) h in cc
settle-inv s (raise e) h =
    let e' : ◌≡◌ {A = Result _} (raise e) (ok _) = ap (λ x. x.0) h in absurd (ground arith)

module _ (hash_text : String → String) (handlers : String → Option Handler)
    (clock : LedgerStore → String) where
  dependent_materials-In :
      (core build rest : List Subject) (m : Subject)
      → build ≢ []
      → In m (dependent_materials hash_text core build)
      → In m (core ++ (build ++ rest))
  unfolding dependent_materials
  dependent_materials-In core [] rest m some_build i = absurd (some_build refl)
  dependent_materials-In core (b ∷ bs) rest m some_build i =
      elim (In-append_cases m core (b ∷ bs) i) [
        | inl i ↦ In-append_left m core _ i
        | inr i ↦ In-append_right m core _ (In-append_left m (b ∷ bs) rest i)
      ]

  -- Every material that a request requires is among those of the claim it files.
  materials_for-In :
      (run : RunContext) (store : LedgerStore) (p : String) (result : CheckResult) (m : Subject)
      → (p == "performance/speedup") ≡ false
      → ((is_foundation p ≡ false) → run.build_materials ≢ [])
      → In m (materials_for hash_text run store p)
      → In m (claim_materials hash_text handlers clock run p result)
  unfolding materials_for claim_materials
  materials_for-In run store p result m other built i =
      In-unique_of m _ (elim (Bool-cases (is_foundation p)) [
        | inl f ↦ rw f (In-append_left m run.evidence_materials _ (rw f at i))
        | inr f ↦ rw f (
            dependent_materials-In run.evidence_materials run.build_materials _ m (built f)
              (rw (f, other) at i))
      ])

  -- What `_record` did where it did not raise.
  record_result-inv :
      (run : RunContext) (tool p : String) (result : CheckResult) (s s' : LedgerStore) (c : Claim)
      → record_result hash_text handlers clock run tool (p, result) s ≡ (ok c, s')
      → (subject : Subject) × (subject_named run result.subject_kind ≡ ok subject)
        × (c
            ≡ new_claim
                (clock s)
                (subject ∷ [])
                p
                (record {
                  tool = tool;
                  version = "0.1";
                  config_hash = run.config_hash;
                  verdict = result.verdict;
                  detail = result.detail;
                })
                (claim_materials hash_text handlers clock run p result)
                run.session
                s)
        × (s' ≡ append_claim c s)
  unfolding record_result attempt lift
  record_result-inv run tool p result s s' c h =
      elim (Result-cases (subject_named run result.subject_kind)) [
        | inr (why, e) ↦
            let raised : ◌≡◌ {A = Result Claim × LedgerStore} (raise why, s) (ok c, s') =
              rw e at h in
            let e' : ◌≡◌ {A = Result Claim} (raise why) (ok c) = ap (λ x. x.0) raised in
            absurd (ground arith)
        | inl (subject, e) ↦
            let (made, after) = record_claim-inv _ _ _ _ _ _ _ (settle-inv s _ (rw e at h)) in
            (subject, e, made, after)
      ]

  -- Once a claim of a check is filed, the query for the same emitted predicate of the same request
  -- finds that claim, whatever its verdict, in the ledger it was appended to. The check names the
  -- subject that the catalog gives the predicate, the predicate is not "performance/speedup", and
  -- unless it is a foundation predicate the request rests on a build with an executable.
  pub record_result-filed_before :
      (run : RunContext) (tool p : String) (result : CheckResult) (s s' : LedgerStore) (c : Claim)
      → record_result hash_text handlers clock run tool (p, result) s ≡ (ok c, s')
      → result.subject_kind ≡ subject_kind_of p
      → (p == "performance/speedup") ≡ false
      → ((is_foundation p ≡ false) → run.build_materials ≢ [])
      → filed_before hash_text handlers run s' p ≡ ok (some c)
  unfolding filed_before claim_matches_context
  record_result-filed_before run tool p result s s' c h kind other built =
      let (subject, e, made, after) = record_result-inv run tool p result s s' c h in
      let required = materials_for hash_text run s' p in
      let covers : all (λ m. elem m c.materials) required ≡ true = all_of_In _ required (λ m i.
        elem_of_In m c.materials (rw made (materials_for-In run s' p result m other built i))) in
      let dup : is_duplicate p subject run.config_hash required c ≡ true =
        is_duplicate_of p subject run.config_hash required c (ap (λ x. x.predicate_type) made)
          (ap (λ x. x.subject) made) (ap (λ x. x.predicate.config_hash) made)
          (ap (λ x. x.version) made) covers in
      rw (sym kind, e)
        (ap (λ found. ok found)
          (ap (find_duplicate p subject run.config_hash required) after
            ∙ find_duplicate-append_claim p subject run.config_hash required c s
            ∙ (rw dup refl)))
