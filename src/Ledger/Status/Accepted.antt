-- ===== src/Ledger/Status/Accepted.antt =====
-- What it takes for a region to be accepted.
use skateboard.Prelude.{
  String, ◌≡◌, refl, ap, sym, ◌∙◌, Bool, true, false, ◌&&◌, List, [], ◌∷◌, ◌++◌, Option, some, none,
  In, Bool-cases, arith, inl, inr, ◌==◌, string_eq, elem, all, ==-refl, lookup,
}
use skateboard.Errors.{ok, >>=-eq-ok}
use skateboard.Ledger.Subject.{Subject, subject_eq}
use skateboard.Ledger.Record.{Claim}
use skateboard.Ledger.Acceptance.{Requirement}
use skateboard.Ledger.Evidence.{claim_matches_context}
use skateboard.Ledger.Store.{LedgerStore, is_current}
use skateboard.Ledger.Cohort.{
  dependent_materials, cohort, current_build_claim, is_foundation, material_entries,
  materials_for_predicate, required_materials_by_predicate,
}
use skateboard.Ledger.Status.{
  Row, Status, is_present, row_passes, requirement_rows, requirement_status, subject_of_kind,
  compute_status, get_or, word_of,
}
use skateboard.Ledger.Status.Requirement.{IsMet, requirement_status-IsMet}

row_passes-present : (r : Row) → row_passes r ≡ true → is_present r ≡ true
row_passes-present (Row.present p v i) h = refl
row_passes-present (Row.failing p v i a) h = h
row_passes-present (Row.stale p v i a) h = h
row_passes-present (Row.missing p a) h = h

requirement_status-unknown :
    (store : LedgerStore) (predicate_type : String) (action : Option String)
    (materials : List Subject)
    → row_passes (requirement_status store predicate_type none action materials) ≡ false
unfolding requirement_status
requirement_status-unknown store predicate_type action materials = refl

-- A requirement whose row passes is met on the subject of its kind.
record Met (store : LedgerStore) (core : List Subject) (by_predicate : List (String × List Subject))
    (tree frozen : Option Subject) (req : Requirement) : Type 0 where
  subject : Subject
  chosen : subject_of_kind req.subject_kind tree frozen ≡ ok (some subject)
  met :
      IsMet store req.predicate_type subject (get_or core (lookup req.predicate_type by_predicate))

module _ (store : LedgerStore) (core : List Subject) (by_predicate : List (String × List Subject))
    (tree frozen : Option Subject) where
  row-Met :
      (req : Requirement) (chosen : Option Subject)
      → subject_of_kind req.subject_kind tree frozen ≡ ok chosen
      → row_passes (
          requirement_status store req.predicate_type chosen
            (some req.producing_action)
            (get_or core (lookup req.predicate_type by_predicate)))
        ≡ true
      → Met store core by_predicate tree frozen req
  row-Met req none e h = absurd (
      let f =
        requirement_status-unknown store req.predicate_type (some req.producing_action)
          (get_or core (lookup req.predicate_type by_predicate)) in
      ground arith)
  row-Met req (some s) e h = record {
    subject = s;
    chosen = e;
    met =
        requirement_status-IsMet store req.predicate_type s (some req.producing_action) _
          (row_passes-present _ h);
  }

  rows-Met :
      (reqs : List Requirement) {rows : List Row}
      → requirement_rows store core by_predicate tree frozen reqs ≡ ok rows
      → all row_passes rows ≡ true
      → (req : Requirement) → In req reqs
      → Met store core by_predicate tree frozen req
  unfolding requirement_rows
  rows-Met [] h p req i = absurd i
  rows-Met (r ∷ rest) {rows} h p req i =
      let (chosen, e, h') = >>=-eq-ok (subject_of_kind r.subject_kind tree frozen) _ h in
      let (others, e', h'') =
        >>=-eq-ok (requirement_rows store core by_predicate tree frozen rest) _ h' in
      let row =
        requirement_status store r.predicate_type chosen (some r.producing_action)
          (get_or core (lookup r.predicate_type by_predicate)) in
      let same : (row ∷ others) ≡ rows = ground arith in
      let p' : all row_passes (row ∷ others) ≡ true = ap (all row_passes) same ∙ p in
      elim i [
        | inl q ↦ rw q (row-Met r chosen e (ground arith))
        | inr j ↦ rows-Met rest e' (ground arith) req j
      ]

all-append :
    (p : Subject → Bool) (xs ys : List Subject)
    → all p (xs ++ ys) ≡ true
    → (all p xs ≡ true) × (all p ys ≡ true)
all-append p [] ys h = (refl, h)
all-append p (x ∷ xs) ys h = ground (arith, all-append p xs ys)

module _ (hash_text : String → String) where
  lookup-material_entries :
      (store : LedgerStore) (tree : Subject) (baseline : Option Subject) (core build : List Subject)
      (reqs : List Requirement) (req : Requirement)
      → In req reqs
      → is_foundation req.predicate_type ≡ false
      → lookup req.predicate_type (material_entries hash_text store tree baseline core build reqs)
        ≡ some (materials_for_predicate hash_text store tree baseline core build req.predicate_type)
  lookup-material_entries store tree baseline core build [] req i f = absurd i
  lookup-material_entries store tree baseline core build (r ∷ rest) req (inl e) f =
      rw (← e, f, ==-refl req.predicate_type) refl
  lookup-material_entries store tree baseline core build (r ∷ rest) req (inr i) f =
      let ih = lookup-material_entries store tree baseline core build rest req i f in
      elim (Bool-cases (is_foundation r.predicate_type)) [
        | inl g ↦ rw g ih
        | inr g ↦ elim (Bool-cases (req.predicate_type == r.predicate_type)) [
          | inr differs ↦ rw (g, differs) ih
          | inl same ↦
              rw (g, same)
                (ap
                  (λ (t : String).
                    some (materials_for_predicate hash_text store tree baseline core build t))
                  (sym ((string_eq.beq_iff req.predicate_type r.predicate_type).0 same)))
        ]
      ]

  -- The map that status derives gives each dependent requirement the context of its predicate.
  pub lookup-required_materials :
      (store : LedgerStore) (tree : Subject) (baseline : Option Subject) (core : List Subject)
      (phase : String) (reqs : List Requirement) (req : Requirement)
      → In req reqs
      → is_foundation req.predicate_type ≡ false
      → lookup req.predicate_type
          (required_materials_by_predicate hash_text store reqs phase tree core baseline)
        ≡ some (
            materials_for_predicate hash_text store tree baseline core
              (cohort phase (current_build_claim store phase tree core))
              req.predicate_type)
  unfolding required_materials_by_predicate
  lookup-required_materials store tree baseline core phase reqs req i f =
      lookup-material_entries store tree baseline core
        (cohort phase (current_build_claim store phase tree core)) reqs req i f

  materials_for_predicate-dependent :
      (store : LedgerStore) (tree : Subject) (baseline : Option Subject) (core build : List Subject)
      (predicate_type : String) (p : Subject → Bool)
      → is_foundation predicate_type ≡ false
      → all p (materials_for_predicate hash_text store tree baseline core build predicate_type)
        ≡ true
      → all p (dependent_materials hash_text core build) ≡ true
  unfolding materials_for_predicate
  materials_for_predicate-dependent store tree baseline core build predicate_type p f h =
      elim (Bool-cases (predicate_type == "performance/speedup")) [
        | inl e ↦ (all-append p (dependent_materials hash_text core build) _ (rw (f, e) at h)).0
        | inr e ↦ rw (f, e) at h
      ]

  is_current-materials :
      (predicate_type : String) (subject : Subject) (materials : List Subject) (c : Claim)
      → is_current predicate_type subject materials c ≡ true
      → all (λ m. elem m c.materials) materials ≡ true
  unfolding claim_matches_context
  is_current-materials predicate_type subject materials c h = ground arith

  -- If `compute_status` accepts a region whose tree and frozen subject are given, then the
  -- executable context was verified and every requirement of the list is met: the newest claim of its type on its subject,
  -- of the current schema and with every material that the requirement needs, has verdict "pass".
  pub compute_status_sound :
      (store : LedgerStore) (reqs : List Requirement) (phase : String) (tree : Subject)
      (frozen : Subject) (baseline : Option Subject) (core : List Subject) (verified : Bool)
      {status : Status}
      → compute_status hash_text store reqs phase (some tree) (some frozen) baseline core verified
        ≡ ok status
      → status.accepted ≡ true
      → (verified ≡ true)
        × ((req : Requirement)
            → In req reqs
            → (s : Subject) × (subject_of_kind req.subject_kind (some tree) (some frozen)
                ≡ ok (some s))
              × IsMet store req.predicate_type s (
                  get_or core (
                    lookup req.predicate_type (
                      required_materials_by_predicate hash_text store reqs phase tree core
                        baseline))))
  unfolding compute_status
  compute_status_sound store reqs phase tree frozen baseline core verified {status} h a =
      let by_predicate =
        required_materials_by_predicate hash_text store reqs phase tree core baseline in
      let (rows, e, h') =
        >>=-eq-ok (requirement_rows store core by_predicate (some tree) (some frozen) reqs) _ h in
      let (word, _, h'') = >>=-eq-ok (word_of phase) _ h' in
      let both : (verified && all row_passes rows) ≡ true = ground arith in
      (
        ground arith,
        λ req i.
            let m =
              rows-Met store core by_predicate (some tree) (some frozen) reqs e (ground arith) req
                i in
            (m.subject, m.chosen, m.met),
      )

  -- If `compute_status` accepts a region whose tree and frozen subject are given, then for every
  -- requirement that is not one of the foundation predicates there is a stored passing claim of its
  -- type whose materials hold the whole current context and every executable that the current passing
  -- build claim of that tree names; where there is no such build, the claim's materials hold the
  -- sentinel for that.
  pub compute_status-cohort :
      (store : LedgerStore) (reqs : List Requirement) (phase : String) (tree : Subject)
      (frozen : Subject) (baseline : Option Subject) (core : List Subject) (verified : Bool)
      {status : Status} (req : Requirement)
      → compute_status hash_text store reqs phase (some tree) (some frozen) baseline core verified
        ≡ ok status
      → status.accepted ≡ true
      → In req reqs
      → is_foundation req.predicate_type ≡ false
      → (c : Claim) × In c store.claims
        × (c.predicate.verdict ≡ "pass")
        × (c.predicate_type ≡ req.predicate_type)
        × (all
              (λ m. elem m c.materials)
              (dependent_materials hash_text core
                (cohort phase (current_build_claim store phase tree core)))
            ≡ true)
  compute_status-cohort store reqs phase tree frozen baseline core verified req h a i f =
      let (_, each) =
        compute_status_sound store reqs phase tree frozen baseline core verified h a in
      let (s, chosen, met) = each req i in
      let build = cohort phase (current_build_claim store phase tree core) in
      let materials =
        materials_for_predicate hash_text store tree baseline core build req.predicate_type in
      let found : get_or core (
            lookup req.predicate_type
              (required_materials_by_predicate hash_text store reqs phase tree core baseline))
          ≡ materials =
        ap (get_or core) (lookup-required_materials store tree baseline core phase reqs req i f) in
      let current : is_current req.predicate_type s materials met.claim ≡ true =
        ap (λ (ms : List Subject). is_current req.predicate_type s ms met.claim) (sym found)
        ∙ met.newest.passes in
      (
        met.claim,
        met.newest.stored,
        met.verdict,
        (string_eq.beq_iff met.claim.predicate_type req.predicate_type).0 (ground arith),
        materials_for_predicate-dependent store tree baseline core build req.predicate_type _ f
            (is_current-materials req.predicate_type s materials met.claim current),
      )
