-- ===== src/Gateway/Run/Gate.antt =====
-- The order in which a request is answered: `execute` and `_refusal_or_receipt` of
-- equivalent/gateway/run.py, and what has to be in the ledger before a check is called.
use skateboard.Prelude.{
  String, ◌≡◌, refl, ap, ◌⊎◌, true, List, [], ◌∷◌, ◌++◌, map, Option, some, In, Bool-cases, inl,
  inr, arith, string_eq,
}
use skateboard.Errors.{Error, ok, >>=-eq-ok, Result-cases}
use skateboard.Ledger.Subject.{Subject}
use skateboard.Ledger.Record.{Claim}
use skateboard.Ledger.Store.{LedgerStore, append_request}
use skateboard.Ledger.Status.{Row, is_present, requirement_status}
use skateboard.Ledger.Status.Requirement.{IsMet, requirement_status-IsMet}
use skateboard.Gateway.Context.{RunContext, Handler, subject_named, materials_for}
use skateboard.Gateway.Exec.{pure, lift, write, ◌>>=◌ as bind}
use skateboard.Gateway.Reading.{
  required_rows, build_rows, missing_requirements, claims_already_filed, restored_build,
  producing_action, unless_present,
}
use skateboard.Gateway.Run.{log, answer_existing, claim_response, claims_response, answer, execute}

unless_present-nil :
    (row : Row) (rows : List Row)
    → unless_present row rows ≡ []
    → (is_present row ≡ true) × (rows ≡ [])
unless_present-nil row rows h = elim (Bool-cases (is_present row)) [
  | inl p ↦ (p, ground arith)
  | inr p ↦ absurd (ground arith)
]

append-nil-inv : {A : Type 0} (l m : List A) → l ++ m ≡ [] → (l ≡ []) × (m ≡ [])
append-nil-inv [] m h = (refl, h)
append-nil-inv (x ∷ l) m h = absurd (ground arith)

module _ (hash_text : String → String) (handlers : String → Option Handler) where
  required_rows-nil :
      (run : RunContext) (store : LedgerStore) (requires : List (String × String))
      → required_rows hash_text handlers run store requires ≡ ok []
      → (predicate_type kind : String) → In (predicate_type, kind) requires
      → (subject : Subject) × (subject_named run kind ≡ ok subject)
        × IsMet store predicate_type subject (materials_for hash_text run store predicate_type)
  unfolding required_rows
  required_rows-nil run store [] h p k i = absurd i
  required_rows-nil run store ((p', k') ∷ rest) h p k i =
      let (subject, e, h') = >>=-eq-ok (subject_named run k') _ h in
      let (rows, e', h'') = >>=-eq-ok (required_rows hash_text handlers run store rest) _ h' in
      let status =
        requirement_status store p' (some subject) (producing_action p')
          (materials_for hash_text run store p') in
      let (present, nil) = unless_present-nil status rows (ground arith) in
      elim i [
        | inl same ↦ (
          subject,
          rw (ap (λ x. x.1) same) e,
          rw (ap (λ x. x.0) same) (requirement_status-IsMet store p' subject _ _ present),
        )
        | inr later ↦ required_rows-nil run store rest (rw nil at e') p k later
      ]

  -- No requirement is reported missing only if, for each that the action's row lists, the newest
  -- current claim on the subject it names, with the materials the request needs, is a pass.
  pub missing_requirements-IsMet :
      (run : RunContext) (store : LedgerStore)
      → missing_requirements hash_text handlers run store ≡ ok []
      → (predicate_type kind : String) → In (predicate_type, kind) run.row.requires
      → (subject : Subject) × (subject_named run kind ≡ ok subject)
        × IsMet store predicate_type subject (materials_for hash_text run store predicate_type)
  unfolding missing_requirements
  missing_requirements-IsMet run store h =
      let (rows, e, h') =
        >>=-eq-ok (required_rows hash_text handlers run store run.row.requires) _ h in
      let (_, nil) = append-nil-inv (build_rows hash_text handlers run store) rows (ground arith) in
      required_rows-nil run store run.row.requires (rw nil at e)

module _ (hash_text : String → String) (handlers : String → Option Handler)
    (clock : LedgerStore → String) where
  answer_existing-keeps-claims :
      (run : RunContext) (c : Claim) (cs : List Claim) (s : LedgerStore)
      → (answer_existing hash_text handlers clock run (c ∷ cs) s).1.claims ≡ s.claims
  unfolding bind log write append_request lift pure
  answer_existing-keeps-claims run c [] s = elim (Result-cases (claim_response c [])) [
    | inl (shown, e) ↦ rw e refl
    | inr (why, e) ↦ rw e refl
  ]
  answer_existing-keeps-claims run c (d ∷ cs) s =
      elim (Result-cases (claims_response (map (λ c. (c, [])) (c ∷ d ∷ cs)))) [
        | inl (shown, e) ↦ rw e refl
        | inr (why, e) ↦ rw e refl
      ]

  -- The claims after an answer that found a missing row, or an earlier claim.
  answer-keeps-claims :
      (run : RunContext) (s : LedgerStore)
      → ((missing_requirements hash_text handlers run s ≡ ok [])
          × (claims_already_filed hash_text handlers run s ≡ ok []))
        ⊎ ((answer hash_text handlers clock run s).1.claims ≡ s.claims)
  unfolding answer bind
  answer-keeps-claims run s = elim (Result-cases (missing_requirements hash_text handlers run s)) [
    | inr (e, m) ↦ inr (rw m refl)
    | inl (row ∷ rows, m) ↦ inr (rw m refl)
    | inl ([], m) ↦ elim (Result-cases (claims_already_filed hash_text handlers run s)) [
      | inr (e, f) ↦ inr (rw (m, f) refl)
      | inl ([], f) ↦ inl (m, f)
      | inl (c ∷ cs, f) ↦ inr (rw (m, f) (answer_existing-keeps-claims run c cs s))
    ]
  ]

  -- A request changes the claims of the ledger only if its build was restored, every requirement
  -- of its action is met by a claim that was stored before, and no earlier claims answer it.
  pub execute-gated :
      (run : RunContext) (s : LedgerStore)
      → ¬ ((execute hash_text handlers clock run s).1.claims ≡ s.claims)
      → (restored : RunContext) × (restored_build hash_text handlers run s ≡ ok restored)
        × (claims_already_filed hash_text handlers restored s ≡ ok [])
        × ((predicate_type kind : String)
            → In (predicate_type, kind) restored.row.requires
            → (subject : Subject) × (subject_named restored kind ≡ ok subject)
              × IsMet s predicate_type subject (materials_for hash_text restored s predicate_type))
  unfolding execute bind
  execute-gated run s changed = elim (Result-cases (restored_build hash_text handlers run s)) [
    | inr (Error.component_error why, r) ↦ absurd (changed (rw r refl))
    | inr (Error.value_error why, r) ↦ absurd (changed (rw r refl))
    | inr (Error.key_error why, r) ↦ absurd (changed (rw r refl))
    | inr (Error.type_error why, r) ↦ absurd (changed (rw r refl))
    | inr (Error.attribute_error why, r) ↦ absurd (changed (rw r refl))
    | inr (Error.runtime_error why, r) ↦ absurd (changed (rw r refl))
    | inr (Error.gateway_error code why, r) ↦ absurd (changed (rw r refl))
    | inl (restored, r) ↦ elim (answer-keeps-claims restored s) [
      | inl (m, f) ↦ (restored, r, f, missing_requirements-IsMet hash_text handlers restored s m)
      | inr same ↦ absurd (changed (rw r same))
    ]
  ]
