-- ===== src/Region/AllowList/Ceiling.antt =====
-- How far the allow-list of equivalent/region/current.py can reach.
use skateboard.Prelude.{
  String, ◌≡◌, refl, ◌⊎◌, Bool, true, false, List, [], ◌∷◌, some, none, In, inl, inr, Bool-cases,
  Option-cases, ◌==◌, string_eq, arith, filter, In-filter, In-filter_of, last?, last?-In,
}
use skateboard.Prelude.Sorting.{sort_by, In-sort_by, In-sort_by_of}
use skateboard.Ledger.Subject.{Subject, subject_eq}
use skateboard.Ledger.Record.{Claim}
use skateboard.Ledger.Workflow.{onboarding}
use skateboard.Ledger.Evidence.{claim_matches_context}
use skateboard.Ledger.Store.{LedgerStore, ts_le}
use skateboard.Region.Glob.{Text}
use skateboard.Region.AllowList.{claimed_globs, within, grants, granted_by, resolve_allow_globs}

module _ (fnmatchcase : Text → Text → Bool) (lower : Text → Text) where
  -- A stored passing claim of the analysis, in the required context, recorded this list.
  pub record IsGranted (store : LedgerStore) (required_materials : List Subject)
      (globs : List String) : Type 0 where
    pub claim : Claim
    pub stored : In claim store.claims
    pub predicate_type : claim.predicate_type ≡ "sese/verified"
    pub verdict : claim.predicate.verdict ≡ "pass"
    pub context : claim_matches_context claim required_materials ≡ true
    pub recorded : claimed_globs claim.predicate.detail ≡ some globs

  grants-inv :
      (ceiling : List String) (spec_path : String) (required : List Subject) (c : Claim)
      → grants fnmatchcase lower ceiling spec_path required c ≡ true
      → (globs : List String) × (claimed_globs c.predicate.detail ≡ some globs)
        × (within fnmatchcase lower ceiling spec_path globs ≡ true)
        × (c.predicate_type ≡ "sese/verified")
        × (c.predicate.verdict ≡ "pass")
        × (claim_matches_context c required ≡ true)
  unfolding grants
  grants-inv ceiling spec_path required c h =
      let type_ok : (c.predicate_type == "sese/verified") ≡ true = ground arith in
      let verdict_ok : (c.predicate.verdict == "pass") ≡ true = ground arith in
      elim (Option-cases (claimed_globs c.predicate.detail)) [
        | inl e ↦ absurd (ground arith)
        | inr (globs, e) ↦ (
          globs,
          e,
          ground arith,
          (string_eq.beq_iff _ _).0 type_ok,
          (string_eq.beq_iff _ _).0 verdict_ok,
          ground arith,
        )
      ]

  last?-none : (l : List Claim) → last? l ≡ none → (c : Claim) → ¬ In c l
  last?-none [] h c i = i
  last?-none (x ∷ []) h c i = absurd (ground arith)
  last?-none (x ∷ y ∷ ys) h c i = absurd (last?-none (y ∷ ys) h y (inl refl))

  -- While a region is ported, its allow-list is the spec file alone, and then no stored claim grants
  -- more; or it is the list that a stored passing "sese/verified" claim in the required context
  -- recorded, which holds the spec file and only patterns that the strategy's own list allows.
  pub resolve_allow_globs-within :
      (store : LedgerStore) (spec_path phase : String) (ceiling : List String)
      (required : List Subject)
      → (phase == onboarding) ≡ false
      → ((resolve_allow_globs fnmatchcase lower store spec_path phase ceiling required
            ≡ spec_path ∷ [])
          × ((c : Claim)
              → In c store.claims
              → grants fnmatchcase lower ceiling spec_path required c ≡ false))
        ⊎ (IsGranted store required
              (resolve_allow_globs fnmatchcase lower store spec_path phase ceiling required)
            × (within fnmatchcase lower ceiling spec_path
                  (resolve_allow_globs fnmatchcase lower store spec_path phase ceiling required)
                ≡ true))
  unfolding resolve_allow_globs
  resolve_allow_globs-within store spec_path phase ceiling required porting =
      let test = grants fnmatchcase lower ceiling spec_path required in
      let passing = filter test store.claims in
      elim (Option-cases (last? (sort_by ts_le passing))) [
        | inl e ↦ inl (
          rw (porting, e) refl,
          λ c i. elim (Bool-cases (test c)) [
            | inr f ↦ f
            | inl t ↦ absurd (
                last?-none _ e c
                  (In-sort_by_of ts_le c passing (In-filter_of test c store.claims i t)))
          ],
        )
        | inr (c, e) ↦
            let (i, t) =
              In-filter test c store.claims (In-sort_by ts_le c passing (last?-In _ e)) in
            let (globs, found, inside, type_ok, verdict_ok, context) =
              grants-inv ceiling spec_path required c t in
            let answer : resolve_allow_globs fnmatchcase lower store spec_path phase ceiling
                  required
                ≡ globs =
              rw (porting, e, granted_by, found) refl in
            inr (
              rw answer (record {
                claim = c;
                stored = i;
                predicate_type = type_ok;
                verdict = verdict_ok;
                context = context;
                recorded = found;
              }),
              rw answer inside,
            )
      ]
