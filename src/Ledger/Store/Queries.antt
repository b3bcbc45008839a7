-- ===== src/Ledger/Store/Queries.antt =====
-- The queries `latest` and `find_duplicate` of equivalent/ledger/store.py.
use mathlib.Core.List.{append-nil}
use skateboard.Prelude.{
  String, ◌≡◌, ap, sym, ◌∙◌, Bool, true, false, List, [], ◌∷◌, ◌++◌, some, none, if◌then◌else◌, In,
  In-filter, In-filter_of, filter, filter-append, last?, last?-In, last?-append_one, Bool-cases,
  inl, inr, string_eq,
}
use skateboard.Prelude.Text.{str_leb, str_leb-total, str_leb_trans, str_leb_refl}
use skateboard.Prelude.Sorting.{
  newest, last?-sort_by, newest-In, newest-le, newest-ne-none, newest-append_one,
}
use skateboard.Ledger.Subject.{Subject, subject_eq}
use skateboard.Ledger.Record.{Claim}
use skateboard.Ledger.Store.{
  LedgerStore, ts_le, newest_of, is_current, latest, is_duplicate, find_duplicate, append_claim,
}

newest_of_lem : (l : List Claim) → newest_of l ≡ newest ts_le l
unfolding newest_of
newest_of_lem =
    last?-sort_by ts_le (λ a b. str_leb-total a.ts b.ts) (λ a b c. str_leb_trans a.ts b.ts c.ts)

-- `c` is among the claims that pass the test, and none that passes is later.
pub record IsNewest (test : Claim → Bool) (claims : List Claim) (c : Claim) : Type 0 where
  pub stored : In c claims
  pub passes : test c ≡ true
  pub no_later : (d : Claim) → In d claims → test d ≡ true → str_leb d.ts c.ts ≡ true

newest_of-IsNewest :
    (test : Claim → Bool) (claims : List Claim) {c : Claim}
    → newest_of (filter test claims) ≡ some c
    → IsNewest test claims c
newest_of-IsNewest test claims {c} h =
    let e = sym (newest_of_lem (filter test claims)) ∙ h in
    let (i, p) = In-filter test c claims (newest-In ts_le _ e) in
    record {
      stored = i;
      passes = p;
      no_later = λ d j q.
          newest-le ts_le (λ a b. str_leb-total a.ts b.ts) (λ a b c. str_leb_trans a.ts b.ts c.ts) _
            d (λ a. str_leb_refl a.ts) e (In-filter_of test d claims j q);
    }

-- `latest` answers with a stored claim of the type, on the subject and under the context, and no
-- other such claim has a later timestamp.
pub latest-IsNewest :
    (predicate_type : String) (subject : Subject) (materials : List Subject) (s : LedgerStore)
    {c : Claim}
    → latest predicate_type subject materials s ≡ some c
    → IsNewest (is_current predicate_type subject materials) s.claims c
unfolding latest
latest-IsNewest predicate_type subject materials s h =
    newest_of-IsNewest (is_current predicate_type subject materials) s.claims h

-- `latest` answers nothing only where no stored claim is of the type, on the subject and under the
-- context.
pub latest-none :
    (predicate_type : String) (subject : Subject) (materials : List Subject) (s : LedgerStore)
    (c : Claim)
    → latest predicate_type subject materials s ≡ none
    → In c s.claims
    → is_current predicate_type subject materials c ≡ false
unfolding latest
latest-none predicate_type subject materials s c h i =
    let test = is_current predicate_type subject materials in
    elim (Bool-cases (test c)) [
      | inr f ↦ f
      | inl t ↦ absurd (
          newest-ne-none ts_le _ c (In-filter_of test c s.claims i t)
            (sym (newest_of_lem (filter test s.claims)) ∙ h))
    ]

newest_of-append_one :
    (l : List Claim) (c : Claim)
    → newest_of (l ++ c ∷ [])
      ≡ (elim (newest_of l) [ none ↦ some c | some d ↦ if ts_le d c then some c else some d ])
newest_of-append_one l c =
    rw (newest_of_lem, newest_of_lem)
      (newest-append_one ts_le (λ a b. str_leb-total a.ts b.ts)
        (λ a b c. str_leb_trans a.ts b.ts c.ts) l c)

-- After a claim is appended `latest` answers with it if it is current for the query and no earlier
-- than the answer before, and otherwise as before.
pub latest-append_claim :
    (predicate_type : String) (subject : Subject) (materials : List Subject) (c : Claim)
    (s : LedgerStore)
    → latest predicate_type subject materials (append_claim c s) ≡ (
        if is_current predicate_type subject materials c
        then (elim (latest predicate_type subject materials s) [
          | none ↦ some c
          | some d ↦ if str_leb d.ts c.ts then some c else some d
        ])
        else latest predicate_type subject materials s)
unfolding latest append_claim
latest-append_claim predicate_type subject materials c s =
    let test = is_current predicate_type subject materials in
    elim (Bool-cases (test c)) [
      | inl t ↦
          rw (filter-append test s.claims (c ∷ []), t)
            (newest_of-append_one (filter test s.claims) c)
      | inr f ↦
          rw (filter-append test s.claims (c ∷ []), f)
            (ap newest_of (append-nil (filter test s.claims)))
    ]

-- `find_duplicate` after a claim is appended: that claim if it is a duplicate for the query, and
-- otherwise what was found before, whatever the timestamps are.
pub find_duplicate-append_claim :
    (predicate_type : String) (subject : Subject) (config_hash : String) (materials : List Subject)
    (c : Claim) (s : LedgerStore)
    → find_duplicate predicate_type subject config_hash materials (append_claim c s) ≡ (
        if is_duplicate predicate_type subject config_hash materials c
        then some c
        else find_duplicate predicate_type subject config_hash materials s)
unfolding find_duplicate append_claim
find_duplicate-append_claim predicate_type subject config_hash materials c s =
    let test = is_duplicate predicate_type subject config_hash materials in
    elim (Bool-cases (test c)) [
      | inl t ↦
          rw (filter-append test s.claims (c ∷ []), t) (last?-append_one (filter test s.claims) c)
      | inr f ↦
          rw (filter-append test s.claims (c ∷ []), f)
            (ap last? (append-nil (filter test s.claims)))
    ]

-- What `find_duplicate` finds is a stored claim with the type, subject, configuration and context
-- that were asked for.
pub find_duplicate-In :
    (predicate_type : String) (subject : Subject) (config_hash : String) (materials : List Subject)
    (s : LedgerStore) {c : Claim}
    → find_duplicate predicate_type subject config_hash materials s ≡ some c
    → In c s.claims × (is_duplicate predicate_type subject config_hash materials c ≡ true)
unfolding find_duplicate
find_duplicate-In predicate_type subject config_hash materials s {c} h =
    In-filter (is_duplicate predicate_type subject config_hash materials) c s.claims (last?-In _ h)
