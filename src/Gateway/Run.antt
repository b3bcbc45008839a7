-- ===== src/Gateway/Run.antt =====
-- POST /run: `RunService.execute` of equivalent/gateway/run.py, from a resolved request on. The
-- clock is a parameter that may answer anew after each write.
pub mod Failure
pub mod Gate
pub mod Repeat
pub mod Growth
use skateboard.Prelude.{
  String, Bool, true, false, ◌&&◌, List, [], ◌∷◌, ◌++◌, map, Option, some, none, if◌then◌else◌,
  unique, all,
}
use skateboard.Errors.{Error, Result, ok, raise}
use skateboard.Ledger.Subject.{Subject, subject_eq}
use skateboard.Ledger.Record.{
  Claim, Predicate, RequestLogLine, Outcome, claim, refused, duplicate, error, schema_version,
}
use skateboard.Ledger.Acceptance.{Receipt, agent_receipt}
use skateboard.Ledger.Store.{LedgerStore, Packed, record_claim, append_request, keep}
use skateboard.Ledger.Cohort.{is_foundation}
use skateboard.Ledger.Status.{Row, row_type}
use skateboard.Gateway.Context.{RunContext, CheckResult, Handler, subject_named, binary_materials}
use skateboard.Gateway.Exec.{Exec, pure, lift, reads, write, attempt, continue, ◌>>=◌, ◌>>◌}
use skateboard.Gateway.Reading.{
  missing_requirements, claims_already_filed, restored_build, dispatch, is_nil,
}

-- `claim_response`, with the reasons of a fresh result.
pub record ClaimReceipt : Type 0 where
  pub claim_id : String
  pub receipt : Receipt
  pub reasons : List String

pub data Response : Type 0 where
  failed : Error → Response
  -- the action, the tree and the rows that are missing
  refusal : String → String → List Row → Response
  one : ClaimReceipt → Response
  many : List (String × ClaimReceipt) → Response

unfoldable pub claim_response : Claim → List String → Result ClaimReceipt
unfolding agent_receipt
claim_response c reasons = elim (agent_receipt c.predicate_type c.predicate) [
  | raise e ↦ raise e
  | ok shown ↦ ok (record { claim_id = c.id; receipt = shown; reasons = reasons })
]

abbrev pub claims_response : List (Claim × List String) → Result (List (String × ClaimReceipt))
claims_response [] = ok []
claims_response ((c, reasons) ∷ rest) = elim (claim_response c reasons) [
  | raise e ↦ raise e
  | ok shown ↦ elim (claims_response rest) [
    | raise e ↦ raise e
    | ok others ↦ ok ((c.predicate_type, shown) ∷ others)
  ]
]

-- `run.store.keep(packed)` for every set and blob of a result.
unfoldable pub keep_all : List Packed → Exec (Unit {0})
unfolding keep write
keep_all [] = pure tt
keep_all (p ∷ ps) = let rest = keep_all ps in write (keep p) >> rest

unfoldable pub keep_results : List (String × CheckResult) → Exec (Unit {0})
unfolding keep_all
keep_results [] = pure tt
keep_results ((p, result) ∷ rest) = let later = keep_results rest in keep_all result.stores >> later

module _ (hash_text : String → String) (handlers : String → Option Handler)
    (clock : LedgerStore → String) where
  -- `RunContext.log`
  unfoldable pub log : RunContext → Outcome → Option String → Option (List String) → Exec (Unit {0})
  unfolding write append_request
  log run outcome claim_id missing = write (λ s.
      append_request
        (record {
          ts = clock s;
          session = run.session;
          model = run.model;
          endpoint = "run";
          action = run.row.name;
          region = run.region_id;
          tree = some run.tree.sha256;
          config_hash = some run.config_hash;
          outcome = outcome;
          claim_id = claim_id;
          missing = missing;
          tool_call_id = run.tool_call_id;
          version = schema_version;
        })
        s)

  -- The materials of a claim that `_record` files.
  unfoldable pub claim_materials : RunContext → String → CheckResult → List Subject
  unfolding binary_materials
  claim_materials run predicate_type result = unique (
      run.evidence_materials
      ++ ((if is_foundation predicate_type then [] else run.build_materials)
          ++ (binary_materials result ++ result.materials)))

  abbrev pub recorded : RunContext → String → CheckResult → String → Result Subject → Exec Claim
  recorded run predicate_type result tool (raise e) = lift (raise e)
  recorded run predicate_type result tool (ok subject) = attempt (λ s.
      record_claim (clock s) (subject ∷ []) predicate_type
        (record {
          tool = tool;
          version = "0.1";
          config_hash = run.config_hash;
          verdict = result.verdict;
          detail = result.detail;
        })
        (claim_materials run predicate_type result) run.session s)

  -- `_record`
  unfoldable pub record_result : RunContext → String → (String × CheckResult) → Exec Claim
  unfolding record_claim claim_materials subject_named
  record_result run tool (predicate_type, result) =
      recorded run predicate_type result tool (subject_named run result.subject_kind)

  unfoldable pub record_results :
      RunContext → String → List (String × CheckResult) → Exec (List (Claim × List String))
  unfolding record_result
  record_results run tool [] = pure []
  record_results run tool ((p, result) ∷ rest) =
      let later = record_results run tool rest in
      record_result run tool (p, result) >>= λ c. later >>= λ cs. pure ((c, result.reasons) ∷ cs)

  -- The `try` of `_dispatch_and_record`.
  unfoldable pub file_results : RunContext → Exec (List (Claim × List String))
  unfolding dispatch keep_results record_results
  file_results run = do
    (handler, results) ← reads (dispatch hash_text handlers run)
    keep_results results
    record_results run handler.tool results

  unfoldable pub answer_filed : RunContext → List (Claim × List String) → Exec Response
  unfolding log claim_response
  answer_filed run ((c, reasons) ∷ []) = do
    log run claim (some c.id) none
    shown ← lift (claim_response c reasons)
    pure (one shown)
  answer_filed run filed = do
    log run claim none none
    shown ← lift (claims_response filed)
    pure (many shown)

  -- `run.log("error"); return {"error": ...}`
  unfoldable pub answer_error : RunContext → Error → Exec Response
  unfolding log
  answer_error run e = do log run error none none; pure (failed e)

  -- What the `try` left: claims, or the error that is answered.
  abbrev pub after_filing : RunContext → Result (List (Claim × List String)) → Exec Response
  after_filing run (ok filed) = answer_filed run filed
  after_filing run (raise (Error.component_error why)) =
      answer_error run (Error.component_error why)
  after_filing run (raise e) = lift (raise e)

  -- `_dispatch_and_record`
  unfoldable pub dispatch_and_record : RunContext → Exec Response
  unfolding file_results answer_filed answer_error
  dispatch_and_record run s = let (r, s') = file_results run s in after_filing run r s'

  abbrev pub answer_existing : RunContext → List Claim → Exec Response
  answer_existing run [] = dispatch_and_record run
  answer_existing run (c ∷ []) = do
    log run duplicate (some c.id) none
    shown ← lift (claim_response c [])
    pure (one shown)
  answer_existing run (c ∷ d ∷ cs) = do
    log run duplicate none none
    shown ← lift (claims_response (map (λ c. (c, [])) (c ∷ d ∷ cs)))
    pure (many shown)

  abbrev pub answer_missing : RunContext → List Row → Exec Response
  answer_missing run [] = do
    existing ← reads (claims_already_filed hash_text handlers run)
    answer_existing run existing
  answer_missing run (row ∷ rows) = do
    log run refused none (some (map row_type (row ∷ rows)))
    pure (refusal run.row.name run.tree.sha256 (row ∷ rows))

  -- `_refusal_or_receipt`, and the dispatch where it answers nothing.
  unfoldable pub answer : RunContext → Exec Response
  unfolding missing_requirements claims_already_filed dispatch_and_record
  answer run = do
    missing ← reads (missing_requirements hash_text handlers run)
    answer_missing run missing

  abbrev pub after_restore : RunContext → Result RunContext → Exec Response
  after_restore run (ok restored) = answer restored
  after_restore run (raise (Error.component_error why)) =
      answer_error run (Error.component_error why)
  after_restore run (raise e) = lift (raise e)

  -- `execute`
  unfoldable pub execute : RunContext → Exec Response
  unfolding restored_build answer answer_error
  execute run s = after_restore run (restored_build hash_text handlers run s) s
