-- ===== src/Mutation/Standalone/Killed.antt =====
-- Which mutants `_score_one` of tools/fmutate/fmutate.py calls killed.
use skateboard.Prelude.{
  String, Bool, true, false, ◌&&◌, ◌||◌, not, List, [], ◌∷◌, Option, some, none, In, inl, inr, ◌⊎◌,
  Option-cases, Bool-cases, and-true_iff, any, is_some, if◌then◌else◌, lookup, string_eq, ◌≡◌, ◌↔◌,
  refl, sym, ap, subst, ◌∙◌, arith,
}
use skateboard.Errors.{ok_injective, Result, ok, raise, >>=-eq-ok}
use skateboard.Ledger.Value.{Value}
use skateboard.Capture.{Array}
use skateboard.Capture.Tolerance.{Floats}
use skateboard.Capture.Compare.{Comparison, compare_variable}
use skateboard.Capture.Cases.{Arrays}
use skateboard.Mutation.Standalone.{
  Score, Flags, Run, judge_variable, judge_case, judge_cases, status_of, recheck, score_one,
}

some_in : {A : Type 0} {x y : A} → some x ≡ some y → x ≡ y
some_in {A} {x} {y} e = ap (λ o. value o) e
  where
    value : Option A → A
    value none = x
    value (some z) = z

survived-recheck :
    (run : Run) (cases : List String) → recheck run cases Score.survived ≡ Score.killed → ⊥
unfolding recheck
survived-recheck run cases h = elim (Option-cases run.checked) [
  | inl n ↦ let bad : Score.survived ≡ Score.killed = rw (n, recheck) at h in absurd (ground arith)
  | inr (replay, n) ↦ elim (Bool-cases (any (λ name. not (is_some (replay name))) cases)) [
    | inl t ↦
        let bad : Score.killed_checked ≡ Score.killed = rw (n, t, recheck) at h in
        absurd (ground arith)
    | inr t ↦
        let bad : Score.survived ≡ Score.killed = rw (n, t, recheck) at h in absurd (ground arith)
  ]
]

recheck-killed :
    (run : Run) (cases : List String) (tol bit : Bool)
    → (recheck run cases (status_of (record { tol_killed = tol; bit_killed = bit })) ≡ Score.killed)
      ↔ (tol ≡ true)
unfolding recheck status_of
recheck-killed run cases true bit = (λ _. refl, λ _. refl)
recheck-killed run cases false true = (λ h. absurd (ground arith), λ h. absurd (ground arith))
recheck-killed run cases false false =
    (λ h. absurd (survived-recheck run cases h), λ h. absurd (ground arith))

module _ (f : Floats) (tols : List (String × Value)) where
  -- The comparator says of the variable that it fails.
  pub record Fails (got : Arrays) (var : String) (ref : Array) : Type 0 where
    pub array : Array
    pub written : lookup var got ≡ some array
    pub tol : Value
    pub band : lookup var tols ≡ some tol
    pub comparison : Comparison f
    pub compared : compare_variable f ref array tol ≡ ok comparison
    pub failed : comparison.pass ≡ false

  or_not : (a b : Bool) → ((a || not b) ≡ true) ↔ ((a ≡ true) ⊎ (b ≡ false))
  or_not true b = (λ h. inl refl, λ h. refl)
  or_not false true =
      (λ h. absurd (ground arith), λ h. elim h [ inl t ↦ t | inr t ↦ absurd (ground arith) ])
  or_not false false = (λ h. inr refl, λ h. refl)

  judge_variable-Fails :
      (got : Arrays) (var : String) (ref : Array) (flags next : Flags)
      → judge_variable f tols got (var, ref) flags ≡ ok next
      → (next.tol_killed ≡ true) ↔ ((flags.tol_killed ≡ true) ⊎ Fails got var ref)
  unfolding judge_variable
  judge_variable-Fails got var ref flags next h = elim (Option-cases (lookup var got)) [
    | inl n ↦ absurd (
        let bad : ◌≡◌ {A = Result Flags} (raise _) (ok next) = rw (n, judge_variable) at h in
        ground arith)
    | inr (array, n) ↦ elim (Option-cases (lookup var tols)) [
      | inl m ↦ absurd (
          let bad : ◌≡◌ {A = Result Flags} (raise _) (ok next) = rw (n, m, judge_variable) at h in
          ground arith)
      | inr (tol, m) ↦
          let (c, q, e) =
            >>=-eq-ok (compare_variable f ref array tol) _ (rw (n, m, judge_variable) at h) in
          let made : (flags.tol_killed || not c.pass) ≡ next.tol_killed =
            ap (λ (x : Flags). x.tol_killed) (ok_injective e) in
          let test = or_not flags.tol_killed c.pass in
          (
            (λ t. elim (test.0 (made ∙ t)) [
              | inl old ↦ inl old
              | inr failed ↦ inr (record {
                array = array;
                written = n;
                tol = tol;
                band = m;
                comparison = c;
                compared = q;
                failed = failed;
              })
            ]),
            (λ t.
                sym made
                ∙ test.1 (elim t [
                  | inl old ↦ inl old
                  | inr fails ↦ inr (same_pass array tol c n m q fails)
                ])),
          )
    ]
  ]
    where
      same_pass :
          (array : Array) (tol : Value) (c : Comparison f)
          → lookup var got ≡ some array
          → lookup var tols ≡ some tol
          → compare_variable f ref array tol ≡ ok c
          → Fails got var ref
          → c.pass ≡ false
      same_pass array tol c n m q x =
          let a : x.array ≡ array = some_in (sym x.written ∙ n) in
          let t : x.tol ≡ tol = some_in (sym x.band ∙ m) in
          let e : ◌≡◌ {A = Result (Comparison f)} (ok x.comparison) (ok c) =
            sym x.compared
            ∙ ap (λ z. compare_variable f ref z x.tol) a
            ∙ ap (λ z. compare_variable f ref array z) t
            ∙ q in
          ap (λ (z : Comparison f). z.pass) (sym (ok_injective e)) ∙ x.failed

  -- Among the variables of a case one fails.
  abbrev SomeFails : Arrays → List (String × Array) → Type 0
  SomeFails got entries = (var : String) × (ref : Array) × In (var, ref) entries × Fails got var ref

  judge_case-SomeFails :
      (got : Arrays) (entries : List (String × Array)) (flags last : Flags)
      → judge_case f tols got entries flags ≡ ok last
      → (last.tol_killed ≡ true) ↔ ((flags.tol_killed ≡ true) ⊎ SomeFails got entries)
  unfolding judge_case
  judge_case-SomeFails got [] flags last h =
      let same = ap (λ (x : Flags). x.tol_killed) (ok_injective h) in
      (
        (λ t. inl (same ∙ t)),
        (λ t. elim t [ inl old ↦ sym same ∙ old | inr (_, _, i, _) ↦ absurd i ]),
      )
  judge_case-SomeFails got ((var, ref) ∷ entries) flags last h =
      let (next, e, h') = >>=-eq-ok (judge_variable f tols got (var, ref) flags) _ h in
      let here = judge_variable-Fails got var ref flags next e in
      let there = judge_case-SomeFails got entries next last h' in
      (
        (λ t. elim (there.0 t) [
          | inl now ↦ elim (here.0 now) [
            | inl old ↦ inl old
            | inr fails ↦ inr (var, ref, inl refl, fails)
          ]
          | inr (v, r, i, fails) ↦ inr (v, r, inr i, fails)
        ]),
        (λ t. there.1 (elim t [
          | inl old ↦ inl (here.1 (inl old))
          | inr (v, r, inl same, fails) ↦
              inl (here.1 (inr (subst (λ (x : String × Array). Fails got x.0 x.1) same fails)))
          | inr (v, r, inr i, fails) ↦ inr (v, r, i, fails)
        ])),
      )

  -- The case does not run, or one of its variables fails.
  pub data CaseFails (run : Run) (name : String) : Type 0 where
    does_not_run : run.replay name ≡ none → CaseFails run name
    is_outside :
        (got : Arrays)
        → run.replay name ≡ some got
        → (var : String) (ref : Array) → In (var, ref) (run.references name)
        → Fails got var ref
        → CaseFails run name

  CaseFails-SomeFails :
      (run : Run) (name : String) (got : Arrays)
      → run.replay name ≡ some got
      → CaseFails run name
      → SomeFails got (run.references name)
  CaseFails-SomeFails run name got n (does_not_run q) = absurd (let bad = sym q ∙ n in ground arith)
  CaseFails-SomeFails run name got n (is_outside other q v r i fails) =
      (v, r, i, subst (λ g. Fails g v r) (some_in (sym q ∙ n)) fails)

  -- A case fails among those that are left.
  abbrev LaterFails : Run → List String → Type 0
  LaterFails run cases = (m : String) × In m cases × CaseFails run m

  -- That the loop ends when both flags are set changes nothing.
  ends_early :
      (run : Run) (cases : List String) (next last : Flags)
      → (judge_cases f tols run cases next ≡ ok last
          → (last.tol_killed ≡ true) ↔ ((next.tol_killed ≡ true) ⊎ LaterFails run cases))
      → (if next.tol_killed && next.bit_killed then ok next else judge_cases f tols run cases next)
        ≡ ok last
      → (last.tol_killed ≡ true) ↔ ((next.tol_killed ≡ true) ⊎ LaterFails run cases)
  ends_early run cases next last goes_on h =
      elim (Bool-cases (next.tol_killed && next.bit_killed)) [
        | inl t ↦
            let made : ◌≡◌ {A = Result Flags} (ok next) (ok last) = rw t at h in
            let now : next.tol_killed ≡ true = ((and-true_iff _ _).0 t).0 in
            (
              (λ _. inl now),
              (λ _. sym (ap (λ (x : Flags). x.tol_killed) (ok_injective made)) ∙ now),
            )
        | inr t ↦ goes_on (rw t at h)
      ]

  judge_cases-CaseFails :
      (run : Run) (cases : List String) (flags last : Flags)
      → judge_cases f tols run cases flags ≡ ok last
      → (last.tol_killed ≡ true)
        ↔ ((flags.tol_killed ≡ true) ⊎ ((name : String) × In name cases × CaseFails run name))
  unfolding judge_cases
  judge_cases-CaseFails run [] flags last h =
      let same = ap (λ (x : Flags). x.tol_killed) (ok_injective h) in
      ((λ t. inl (same ∙ t)), (λ t. elim t [ inl old ↦ sym same ∙ old | inr (_, i, _) ↦ absurd i ]))
  judge_cases-CaseFails run (name ∷ cases) flags last h = elim (Option-cases (run.replay name)) [
    | inl n ↦
        let made : ◌≡◌ {A = Result Flags} (ok (record { tol_killed = true; bit_killed = true }))
            (ok last) =
          rw (n, judge_cases) at h in
        (
          (λ t. inr (name, inl refl, does_not_run n)),
          (λ t. sym (ap (λ (x : Flags). x.tol_killed) (ok_injective made))),
        )
    | inr (got, n) ↦
        let (next, e, h') =
          >>=-eq-ok (judge_case f tols got (run.references name) flags) _
            (rw (n, judge_cases) at h) in
        let here = judge_case-SomeFails got (run.references name) flags next e in
        let later = ends_early run cases next last (judge_cases-CaseFails run cases next last) h' in
        (
          (λ t. elim (later.0 t) [
            | inl now ↦ elim (here.0 now) [
              | inl old ↦ inl old
              | inr (v, r, i, fails) ↦ inr (name, inl refl, is_outside got n v r i fails)
            ]
            | inr (m, i, c) ↦ inr (m, inr i, c)
          ]),
          (λ t. later.1 (elim t [
            | inl old ↦ inl (here.1 (inl old))
            | inr (m, inl same, c) ↦
                inl
                  (here.1 (inr (CaseFails-SomeFails run name got n (subst (CaseFails run) same c))))
            | inr (m, inr i, c) ↦ inr (m, i, c)
          ])),
        )
  ]

  -- A mutant that compiles is killed exactly when some case does not run or has a variable that the
  -- comparator fails, whichever case that is: that the loop ends early hides none.
  pub score_one-killed :
      (run : Run) (cases : List String) (score : Score)
      → run.compiled ≡ true
      → score_one f tols run cases ≡ ok score
      → (score ≡ Score.killed) ↔ ((name : String) × In name cases × CaseFails run name)
  unfolding score_one
  score_one-killed run cases score compiled h =
      let (flags, e, h') = >>=-eq-ok (judge_cases f tols run cases start) _ (rw compiled at h) in
      let facts = judge_cases-CaseFails run cases start flags e in
      let made = ok_injective h' in
      let word = recheck-killed run cases flags.tol_killed flags.bit_killed in
      (
        (λ k. elim (facts.0 (word.0 (made ∙ k))) [ inl old ↦ absurd (ground arith) | inr c ↦ c ]),
        (λ c. sym made ∙ word.1 (facts.1 (inr c))),
      )
    where
      start : Flags
      start = record { tol_killed = false; bit_killed = false }
