-- ===== src/Tests/Submissions.antt =====
-- A working copy of two files, of which the allow-list covers one.
use skateboard.Prelude.{
  String, ◌≡◌, ◌⊎◌, refl, Bool, true, false, List, [], ◌∷◌, In, ◌==◌, string_eq,
}
use skateboard.Prelude.Text.{codes}
use skateboard.Ledger.Record.{Claim}
use skateboard.Ledger.Workflow.{porting}
use skateboard.Ledger.Value.{Value, Items, Fields}
use skateboard.Ledger.Store.{LedgerStore}
use skateboard.Ledger.FileSet.{text_eq, hash_files}
use skateboard.Region.Glob.{Text}
use skateboard.Region.Submit.{Files, frozen_files, file_list, submit}
use skateboard.Region.Submit.Frozen.{submit-frozen}
use skateboard.Region.AllowList.{grants, within, resolve_allow_globs}
use skateboard.Region.AllowList.Ceiling.{IsGranted, resolve_allow_globs-within}
use skateboard.Tests.Fixtures.{the_policy, a_pass, store_of}

-- Stands for `fnmatch.fnmatchcase` on patterns without wildcards.
abbrev fnmatchcase : Text → Text → Bool
fnmatchcase path pattern = path == pattern

abbrev lower : Text → Text
lower text = text

abbrev globs : List Text
globs = codes "a.f90" ∷ []

abbrev baseline : Files
baseline = (codes "a.f90", 1 ∷ []) ∷ (codes "main.f90", 2 ∷ []) ∷ []

abbrev working : Files
working = (codes "main.f90", 3 ∷ []) ∷ (codes "a.f90", 4 ∷ []) ∷ []

submit-frozen_example :
    (frozen_files fnmatchcase lower globs
        (submit fnmatchcase lower baseline working globs).constructed
      ≡ frozen_files fnmatchcase lower globs baseline)
    × ((submit fnmatchcase lower baseline working globs).frozen
        ≡ hash_files (
            file_list (
              frozen_files fnmatchcase lower globs
                (submit fnmatchcase lower baseline working globs).constructed)))
submit-frozen_example = submit-frozen fnmatchcase lower globs baseline working

abbrev ceiling : List String
ceiling = "a.f90" ∷ "region.yaml" ∷ []

abbrev analyzed : Claim
analyzed = record a_pass {
  predicate = record a_pass.predicate {
    detail = Value.obj (
        Fields.field "allow_globs"
          (Value.arr
            (Items.cons (Value.str "region.yaml") (Items.cons (Value.str "a.f90") Items.nil)))
          Fields.end);
  };
}

abbrev ledger : LedgerStore
ledger = store_of (analyzed ∷ [])

abbrev answer : List String
answer =
    resolve_allow_globs fnmatchcase lower ledger "region.yaml" porting ceiling (the_policy ∷ [])

resolve_allow_globs-within_example :
    ((answer ≡ "region.yaml" ∷ [])
      × ((c : Claim)
          → In c ledger.claims
          → grants fnmatchcase lower ceiling "region.yaml" (the_policy ∷ []) c ≡ false))
    ⊎ (IsGranted fnmatchcase lower ledger (the_policy ∷ []) answer
        × (within fnmatchcase lower ceiling "region.yaml" answer ≡ true))
resolve_allow_globs-within_example =
    resolve_allow_globs-within fnmatchcase lower ledger "region.yaml" porting ceiling
      (the_policy ∷ []) refl
