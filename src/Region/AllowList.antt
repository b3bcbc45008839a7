-- ===== src/Region/AllowList.antt =====
-- The region's allow-list: `resolve_allow_globs` of equivalent/region/current.py. The patterns of
-- a claim's detail are JSON values; a detail that is no list of strings decides nothing.
pub mod Ceiling
use skateboard.Prelude.{
  String, Bool, true, false, ◌&&◌, List, [], ◌∷◌, map, Option, some, none, ◌==◌, string_eq,
  if◌then◌else◌, filter, all, elem, last?,
}
use skateboard.Prelude.Text.{codes}
use skateboard.Prelude.Sorting.{sort_by}
use skateboard.Ledger.Subject.{Subject}
use skateboard.Ledger.Value.{Value, get, items}
use skateboard.Ledger.Record.{Claim}
use skateboard.Ledger.Workflow.{onboarding}
use skateboard.Ledger.Evidence.{claim_matches_context}
use skateboard.Ledger.Store.{LedgerStore, ts_le}
use skateboard.Region.Glob.{Text, allows}

abbrev strings : List Value → Option (List String)
strings [] = some []
strings (Value.str s ∷ vs) = elim (strings vs) [ none ↦ none | some ss ↦ some (s ∷ ss) ]
strings (_ ∷ vs) = none

-- `c.predicate.detail.get("allow_globs")`, where it is a list of strings. A detail that is no mapping
-- has none here.
unfoldable pub claimed_globs : Value → Option (List String)
unfolding get
claimed_globs (Value.obj detail) = elim (get "allow_globs" detail) [
  | Value.arr vs ↦ strings (items vs)
  | _ ↦ none
]
claimed_globs _ = none

module _ (fnmatchcase : Text → Text → Bool) (lower : Text → Text) where
  -- Every pattern of the list lies inside the strategy's, and the spec file is among them.
  unfoldable pub within : List String → String → List String → Bool
  unfolding allows
  within ceiling spec_path globs =
      elem spec_path globs
      && all (λ p. allows fnmatchcase lower (map codes ceiling) (codes p)) globs

  -- What the comprehension asks of a claim.
  unfoldable pub grants : List String → String → List Subject → Claim → Bool
  unfolding within claimed_globs claim_matches_context
  grants ceiling spec_path required_materials c =
      c.predicate_type == "sese/verified"
      && (c.predicate.verdict == "pass"
          && (claim_matches_context c required_materials
              && (elim (claimed_globs c.predicate.detail) [
                | none ↦ false
                | some globs ↦ within ceiling spec_path globs
              ])))

  abbrev granted_by : String → Option Claim → List String
  granted_by spec_path none = spec_path ∷ []
  granted_by spec_path (some c) = elim (claimed_globs c.predicate.detail) [
    | none ↦ []
    | some globs ↦ globs
  ]

  -- The strategy is given by its `allow_globs`.
  unfoldable pub resolve_allow_globs :
      LedgerStore → String → String → List String → List Subject → List String
  unfolding grants sort_by
  resolve_allow_globs store spec_path phase ceiling required_materials =
      if phase == onboarding
      then ceiling
      else granted_by spec_path (
          last? (sort_by ts_le (filter (grants ceiling spec_path required_materials) store.claims)))
