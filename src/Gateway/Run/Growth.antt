-- ===== src/Gateway/Run/Growth.antt =====
-- What `RunService.execute` of equivalent/gateway/run.py does to the ledger, write by write.
use skateboard.Prelude.{String, List, [], ◌∷◌, Option}
use skateboard.Errors.{Error, Result, ok, raise}
use skateboard.Ledger.Subject.{Subject}
use skateboard.Ledger.Record.{Claim, Outcome}
use skateboard.Ledger.Store.{LedgerStore, Packed}
use skateboard.Ledger.Store.Growth.{
  Extends, Extends-trans, append_claim-Extends, append_request-Extends, keep-Extends,
  record_claim-inv,
}
use skateboard.Ledger.Status.{Row}
use skateboard.Gateway.Context.{RunContext, CheckResult, Handler, subject_named}
use skateboard.Gateway.Exec.Grows.{
  Grows, Grows-pure, Grows-lift, Grows-reads, Grows-write, Grows-attempt, Grows-bind,
}
use skateboard.Gateway.Reading.{restored_build}
use skateboard.Gateway.Run.{
  log, recorded, record_result, keep_all, keep_results, record_results, file_results, answer_filed,
  answer_error, after_filing, dispatch_and_record, answer_existing, answer_missing, answer,
  after_restore, execute,
}

module _ (hash_text : String → String) (handlers : String → Option Handler)
    (clock : LedgerStore → String) where
  log-Grows :
      (run : RunContext) (outcome : Outcome) (id : Option String) (missing : Option (List String))
      → Grows (log hash_text handlers clock run outcome id missing)
  unfolding log
  log-Grows run outcome id missing = Grows-write _ (λ s. append_request-Extends _ s)

  recorded-Grows :
      (run : RunContext) (p : String) (result : CheckResult) (tool : String) (r : Result Subject)
      → Grows (recorded hash_text handlers clock run p result tool r)
  recorded-Grows run p result tool (raise e) = Grows-lift _
  recorded-Grows run p result tool (ok subject) = Grows-attempt _ (λ s c s' h.
      let (_, after) = record_claim-inv _ _ _ _ _ _ _ h in rw after (append_claim-Extends c s))

  record_result-Grows :
      (run : RunContext) (tool : String) (entry : String × CheckResult)
      → Grows (record_result hash_text handlers clock run tool entry)
  unfolding record_result
  record_result-Grows run tool (p, result) =
      recorded-Grows run p result tool (subject_named run result.subject_kind)

  keep_all-Grows : (ps : List Packed) → Grows (keep_all ps)
  unfolding keep_all
  keep_all-Grows [] = Grows-pure tt
  keep_all-Grows (p ∷ ps) = Grows-bind _ _ (Grows-write _ (keep-Extends p)) (λ _. keep_all-Grows ps)

  keep_results-Grows : (results : List (String × CheckResult)) → Grows (keep_results results)
  unfolding keep_results
  keep_results-Grows [] = Grows-pure tt
  keep_results-Grows ((p, result) ∷ rest) =
      Grows-bind _ _ (keep_all-Grows result.stores) (λ _. keep_results-Grows rest)

  record_results-Grows :
      (run : RunContext) (tool : String) (results : List (String × CheckResult))
      → Grows (record_results hash_text handlers clock run tool results)
  unfolding record_results
  record_results-Grows run tool [] = Grows-pure []
  record_results-Grows run tool ((p, result) ∷ rest) =
      Grows-bind _ _ (record_result-Grows run tool (p, result))
        (λ c. Grows-bind _ _ (record_results-Grows run tool rest) (λ cs. Grows-pure _))

  file_results-Grows : (run : RunContext) → Grows (file_results hash_text handlers clock run)
  unfolding file_results
  file_results-Grows run = Grows-bind _ _ (Grows-reads _) (λ (handler, results).
      Grows-bind _ _ (keep_results-Grows results)
        (λ _. record_results-Grows run handler.tool results))

  answer_filed-Grows :
      (run : RunContext) (filed : List (Claim × List String))
      → Grows (answer_filed hash_text handlers clock run filed)
  unfolding answer_filed
  answer_filed-Grows run ((c, reasons) ∷ []) =
      Grows-bind _ _ (log-Grows run _ _ _) (λ _. Grows-bind _ _ (Grows-lift _) (λ r. Grows-pure _))
  answer_filed-Grows run _ =
      Grows-bind _ _ (log-Grows run _ _ _) (λ _. Grows-bind _ _ (Grows-lift _) (λ r. Grows-pure _))

  answer_error-Grows :
      (run : RunContext) (e : Error) → Grows (answer_error hash_text handlers clock run e)
  unfolding answer_error
  answer_error-Grows run e = Grows-bind _ _ (log-Grows run _ _ _) (λ _. Grows-pure _)

  after_filing-Grows :
      (run : RunContext) (r : Result (List (Claim × List String)))
      → Grows (after_filing hash_text handlers clock run r)
  after_filing-Grows run (ok filed) = answer_filed-Grows run filed
  after_filing-Grows run (raise (Error.component_error why)) = answer_error-Grows run _
  after_filing-Grows run (raise _) = Grows-lift _

  dispatch_and_record-Grows :
      (run : RunContext) → Grows (dispatch_and_record hash_text handlers clock run)
  unfolding dispatch_and_record
  dispatch_and_record-Grows run = record {
    at = λ s.
        let m = file_results hash_text handlers clock run s in
        Extends-trans ((file_results-Grows run).at s) ((after_filing-Grows run m.0).at m.1);
  }

  answer_existing-Grows :
      (run : RunContext) (cs : List Claim) → Grows (answer_existing hash_text handlers clock run cs)
  answer_existing-Grows run [] = dispatch_and_record-Grows run
  answer_existing-Grows run (c ∷ []) =
      Grows-bind _ _ (log-Grows run _ _ _) (λ _. Grows-bind _ _ (Grows-lift _) (λ r. Grows-pure _))
  answer_existing-Grows run (c ∷ d ∷ cs) =
      Grows-bind _ _ (log-Grows run _ _ _) (λ _. Grows-bind _ _ (Grows-lift _) (λ r. Grows-pure _))

  answer_missing-Grows :
      (run : RunContext) (rows : List Row)
      → Grows (answer_missing hash_text handlers clock run rows)
  answer_missing-Grows run [] = Grows-bind _ _ (Grows-reads _) (answer_existing-Grows run)
  answer_missing-Grows run (row ∷ rows) = Grows-bind _ _ (log-Grows run _ _ _) (λ _. Grows-pure _)

  answer-Grows : (run : RunContext) → Grows (answer hash_text handlers clock run)
  unfolding answer
  answer-Grows run = Grows-bind _ _ (Grows-reads _) (answer_missing-Grows run)

  after_restore-Grows :
      (run : RunContext) (r : Result RunContext)
      → Grows (after_restore hash_text handlers clock run r)
  after_restore-Grows run (ok restored) = answer-Grows restored
  after_restore-Grows run (raise (Error.component_error why)) = answer_error-Grows run _
  after_restore-Grows run (raise _) = Grows-lift _

  -- Whatever the request, its check and the way it ends, an uncaught exception included, `execute`
  -- leaves every claim and every request of the log in place and in order, only appends after
  -- them, and changes nothing that was kept under a content hash.
  pub execute-Extends :
      (run : RunContext) (s : LedgerStore) → Extends s (execute hash_text handlers clock run s).1
  unfolding execute
  execute-Extends run s = (after_restore-Grows run (restored_build hash_text handlers run s)).at s
