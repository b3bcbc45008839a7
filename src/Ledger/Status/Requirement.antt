-- ===== src/Ledger/Status/Requirement.antt =====
-- When a requirement counts as met.
use skateboard.Prelude.{
  String, ◌≡◌, refl, true, false, List, Option, some, Option-cases, arith, inl, inr, ◌==◌,
  string_eq,
}
use skateboard.Prelude.Text.{str_leb}
use skateboard.Ledger.Subject.{Subject, subject_eq}
use skateboard.Ledger.Record.{Claim}
use skateboard.Ledger.Store.{LedgerStore, latest, latest_unchecked, is_current, append_claim}
use skateboard.Ledger.Store.Queries.{IsNewest, latest-IsNewest, latest-append_claim}
use skateboard.Ledger.Status.{is_present, requirement_status}

-- The newest claim that is current for the requirement, and its verdict is a pass.
pub record IsMet (store : LedgerStore) (predicate_type : String) (subject : Subject)
    (materials : List Subject) : Type 0 where
  pub claim : Claim
  pub newest : IsNewest (is_current predicate_type subject materials) store.claims claim
  pub verdict : claim.predicate.verdict ≡ "pass"

module _ (store : LedgerStore) (predicate_type : String) (subject : Subject)
    (action : Option String) (materials : List Subject) where
  -- A row says "present" exactly where `latest` answers with a claim that passed.
  requirement_status-present :
      is_present (requirement_status store predicate_type (some subject) action materials) ≡ true
      → (c : Claim) × (latest predicate_type subject materials store ≡ some c)
        × ((c.predicate.verdict == "pass") ≡ true)
  unfolding requirement_status
  requirement_status-present h =
      elim (Option-cases (latest predicate_type subject materials store)) [
        | inl e ↦ elim (Option-cases (latest_unchecked predicate_type subject store)) [
          | inl e' ↦ absurd (ground arith)
          | inr (old, e') ↦ absurd (ground arith)
        ]
        | inr (c, e) ↦ (c, e, ground arith)
      ]

  -- A requirement is reported present only if the newest of the stored claims of its type, on its
  -- subject, of the current schema and with every required material, has the verdict "pass".
  pub requirement_status-IsMet :
      is_present (requirement_status store predicate_type (some subject) action materials) ≡ true
      → IsMet store predicate_type subject materials
  requirement_status-IsMet h =
      let (c, e, p) = requirement_status-present h in
      record {
        claim = c;
        newest = latest-IsNewest predicate_type subject materials store e;
        verdict = (string_eq.beq_iff c.predicate.verdict "pass").0 p;
      }

-- A claim that is current for the requirement, no older than the newest one before and whose
-- verdict is not "pass", leaves the requirement unmet once it is appended.
pub requirement_status-append_fail :
    (store : LedgerStore) (predicate_type : String) (subject : Subject) (action : Option String)
    (materials : List Subject) (c : Claim)
    → is_current predicate_type subject materials c ≡ true
    → ((d : Claim)
        → latest predicate_type subject materials store ≡ some d
        → str_leb d.ts c.ts ≡ true)
    → (c.predicate.verdict == "pass") ≡ false
    → is_present
        (requirement_status (append_claim c store) predicate_type (some subject) action materials)
      ≡ false
unfolding requirement_status
requirement_status-append_fail store predicate_type subject action materials c current after
      failed =
    elim (Option-cases (latest predicate_type subject materials store)) [
      | inl e ↦
          rw (latest-append_claim predicate_type subject materials c store, current, e, failed) refl
      | inr (d, e) ↦
          rw
            (
              latest-append_claim predicate_type subject materials c store,
              current,
              e,
              after d e,
              failed,
            )
            refl
    ]

-- A passing claim of the same kind makes the requirement met.
pub requirement_status-append_pass :
    (store : LedgerStore) (predicate_type : String) (subject : Subject) (action : Option String)
    (materials : List Subject) (c : Claim)
    → is_current predicate_type subject materials c ≡ true
    → ((d : Claim)
        → latest predicate_type subject materials store ≡ some d
        → str_leb d.ts c.ts ≡ true)
    → (c.predicate.verdict == "pass") ≡ true
    → is_present
        (requirement_status (append_claim c store) predicate_type (some subject) action materials)
      ≡ true
unfolding requirement_status
requirement_status-append_pass store predicate_type subject action materials c current after
      passed =
    elim (Option-cases (latest predicate_type subject materials store)) [
      | inl e ↦
          rw (latest-append_claim predicate_type subject materials c store, current, e, passed) refl
      | inr (d, e) ↦
          rw
            (
              latest-append_claim predicate_type subject materials c store,
              current,
              e,
              after d e,
              passed,
            )
            refl
    ]
