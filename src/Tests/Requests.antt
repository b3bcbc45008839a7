-- ===== src/Tests/Requests.antt =====
-- Requests: one that files a claim, one whose check fails.
use Prim.Native.Nat.{ℕ}
use skateboard.Prelude.{String, ◌≡◌, refl, ap, [], ◌∷◌, ◌++◌, some, In, inl, length, arith}
use skateboard.Errors.{Error, ok, raise}
use skateboard.Ledger.Subject.{Subject}
use skateboard.Ledger.Record.{Claim}
use skateboard.Ledger.Acceptance
use skateboard.Ledger.Store.Ids.{next_claim_id}
use skateboard.Ledger.Table.{subject_kind_of}
use skateboard.Ledger.Store.{LedgerStore}
use skateboard.Ledger.Store.Growth.{Extends}
use skateboard.Ledger.Status.Requirement.{IsMet}
use skateboard.Gateway.Context.{RunContext, subject_named, materials_for}
use skateboard.Gateway.Exec.{attempt, ◌>>=◌}
use skateboard.Gateway.Reading.{
  missing_requirements, claims_already_filed, restored_build, filed_before,
}
use skateboard.Gateway.Run.{failed, record_result, execute}
use skateboard.Gateway.Run.Growth.{execute-Extends}
use skateboard.Gateway.Run.Gate.{execute-gated, missing_requirements-IsMet}
use skateboard.Gateway.Run.Failure.{SameFiles, execute-failed}
use skateboard.Gateway.Run.Repeat.{record_result-filed_before}
use skateboard.Tests.Fixtures.{
  the_tree, a_store, a_run, a_result, handlers_of, handlers, hash_text, clock, the_policy,
}

execute-Extends_example : Extends a_store (execute hash_text handlers clock a_run a_store).1
execute-Extends_example = execute-Extends hash_text handlers clock a_run a_store

nothing_missing : missing_requirements hash_text handlers a_run a_store ≡ ok []
unfolding missing_requirements
nothing_missing = refl

missing_requirements-IsMet_example :
    (subject : Subject) × (subject_named a_run "tree" ≡ ok subject)
    × IsMet a_store "sese/verified" subject (materials_for hash_text a_run a_store "sese/verified")
missing_requirements-IsMet_example =
    missing_requirements-IsMet hash_text handlers a_run a_store nothing_missing "sese/verified"
      "tree" (inl refl)

two_is_not_one : ¬ (◌≡◌ {A = ℕ} 2 1)
two_is_not_one e = omega arith

claims_change : ¬ ((execute hash_text handlers clock a_run a_store).1.claims ≡ a_store.claims)
unfolding execute ◌>>=◌
claims_change e = two_is_not_one (ap length e)

execute-gated_example :
    (restored : RunContext) × (restored_build hash_text handlers a_run a_store ≡ ok restored)
    × (claims_already_filed hash_text handlers restored a_store ≡ ok [])
    × ((predicate_type kind : String)
        → In (predicate_type, kind) restored.row.requires
        → (subject : Subject) × (subject_named restored kind ≡ ok subject)
          × IsMet a_store predicate_type subject
              (materials_for hash_text restored a_store predicate_type))
execute-gated_example = execute-gated hash_text handlers clock a_run a_store claims_change

abbrev an_error : Error
an_error = Error.component_error "no verdict"

check_fails :
    (execute hash_text (handlers_of (raise an_error)) clock a_run a_store).0 ≡ ok (failed an_error)
unfolding execute ◌>>=◌
check_fails = refl

execute-failed_example :
    SameFiles a_store (execute hash_text (handlers_of (raise an_error)) clock a_run a_store).1
execute-failed_example =
    execute-failed hash_text (handlers_of (raise an_error)) clock a_run a_store an_error check_fails

abbrev the_new_claim : Claim
the_new_claim = record {
  id = "c-0008";
  ts = "2026-02-01T00:00:00";
  subject = the_tree ∷ [];
  predicate_type = "manifest/valid";
  predicate = record {
    tool = "tool";
    version = "0.1";
    config_hash = "h";
    verdict = "pass";
    detail = a_result.detail;
  };
  materials = the_policy ∷ [];
  session = "session";
  version = 2;
}

abbrev the_next_store : LedgerStore
the_next_store = record a_store { claims = a_store.claims ++ the_new_claim ∷ [] }

is_recorded :
    record_result hash_text handlers clock a_run "tool" ("manifest/valid", a_result) a_store
    ≡ (ok the_new_claim, the_next_store)
unfolding record_result attempt Acceptance.get next_claim_id
is_recorded = refl

its_kind : a_result.subject_kind ≡ subject_kind_of "manifest/valid"
unfolding subject_kind_of
its_kind = refl

record_result-filed_before_example :
    filed_before hash_text handlers a_run the_next_store "manifest/valid" ≡ ok (some the_new_claim)
record_result-filed_before_example =
    record_result-filed_before hash_text handlers clock a_run "tool" "manifest/valid" a_result
      a_store the_next_store the_new_claim is_recorded its_kind refl (λ h. absurd (ground arith))
