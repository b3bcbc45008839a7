-- ===== src/Mutation/Score/First.antt =====
-- Which case decides the status of a mutant (`score_mutant`, services/builder/stage_mutation.py).
use skateboard.Prelude.{
  String, Bool, true, false, ◌||◌, not, List, [], ◌∷◌, ◌++◌, Option, some, none, In, inl, inr, ◌⊎◌,
  Option-cases, Bool-cases, nat_beq, ◌≡◌, refl, sym, ap, subst, ◌∙◌, arith,
}
use skateboard.Errors.{ok_injective, Result, ok, >>=-eq-ok}
use skateboard.Ledger.Value.{Value}
use skateboard.Capture.Tolerance.{Floats}
use skateboard.Mutation.{Status}
use skateboard.Mutation.Score.Observed.{Shows, score_case-Shows}
use skateboard.Mutation.Score.{
  Trial, Made, is_equivalent, is_kept, score_case, score_cases, score_made, score_mutant,
}

equivalent_eq : (s : Status) → is_equivalent s ≡ true → s ≡ Status.equivalent
equivalent_eq Status.equivalent h = refl
equivalent_eq Status.killed h = absurd (ground arith)
equivalent_eq Status.gap h = absurd (ground arith)
equivalent_eq Status.build_fail h = absurd (ground arith)
equivalent_eq Status.runtime_fail h = absurd (ground arith)
equivalent_eq Status.skipped h = absurd (ground arith)
equivalent_eq Status.pending h = absurd (ground arith)

-- `make` left the executable, with the strategy's flags, and no problem was found.
pub record IsBuilt (trial : Trial) : Type 0 where
  pub made : Made
  pub make_eq : trial.make ≡ some made
  pub no_problem : made.has_problem ≡ false
  pub no_failure : nat_beq made.returncode 0 ≡ true
  pub executable : made.left_executable ≡ true
  pub flags : made.flags_reached ≡ true

module _ (f : Floats) (bands : List (String × Value)) (trial : Trial) where
  abbrev Equivalent : String → Type 0
  Equivalent name = Shows f bands trial name Status.equivalent

  -- A case decides, and all the cases before it left every output as it was.
  pub record IsDecidedBy (cases : List String) (status : Status) : Type 0 where
    pub earlier : List String
    pub name : String
    pub later : List String
    pub parted : cases ≡ earlier ++ name ∷ later
    pub unchanged : (n : String) → In n earlier → Equivalent n
    pub decides : Shows f bands trial name status
    pub different : is_equivalent status ≡ false

  score_cases-IsDecidedBy :
      (cases : List String) (status : Status)
      → score_cases f bands trial cases ≡ ok status
      → ((status ≡ Status.equivalent) × ((n : String) → In n cases → Equivalent n))
        ⊎ IsDecidedBy cases status
  unfolding score_cases
  score_cases-IsDecidedBy [] status h = inl (sym (ok_injective h), λ n i. absurd i)
  score_cases-IsDecidedBy (name ∷ cases) status h =
      let (one, e, h') = >>=-eq-ok (score_case f bands trial name) _ h in
      elim (Bool-cases (is_equivalent one)) [
        | inl t ↦
            let same : Equivalent name =
              score_case-Shows f bands trial name Status.equivalent
                (e ∙ ap (λ s. ok s) (equivalent_eq one t)) in
            elim (score_cases-IsDecidedBy cases status (rw t at h')) [
              | inl (s, all) ↦ inl (
                s,
                λ n i. elim i [
                  | inl here ↦ subst Equivalent (sym here) same
                  | inr there ↦ all n there
                ],
              )
              | inr d ↦ inr (record {
                earlier = name ∷ d.earlier;
                name = d.name;
                later = d.later;
                parted = ap (λ xs. name ∷ xs) d.parted;
                unchanged = λ n i. elim i [
                  | inl here ↦ subst Equivalent (sym here) same
                  | inr there ↦ d.unchanged n there
                ];
                decides = d.decides;
                different = d.different;
              })
            ]
        | inr t ↦
            let this : ◌≡◌ {A = Result Status} (ok one) (ok status) = rw t at h' in
            inr (record {
              earlier = [];
              name = name;
              later = cases;
              parted = refl;
              unchanged = λ n i. absurd i;
              decides = score_case-Shows f bands trial name status (e ∙ this);
              different = subst (λ s. is_equivalent s ≡ false) (ok_injective this) t;
            })
      ]

  abbrev is_failed : Made → Bool
  is_failed made =
      made.has_problem
      || ((not (nat_beq made.returncode 0) || not made.left_executable) || not made.flags_reached)

  built : (made : Made) → trial.make ≡ some made → is_failed made ≡ false → IsBuilt trial
  built made e h = record {
    made = made;
    make_eq = e;
    no_problem = ground arith;
    no_failure = ground arith;
    executable = ground arith;
    flags = ground arith;
  }

  not_built : IsBuilt trial → (made : Made) → trial.make ≡ some made → is_failed made ≡ false
  not_built b made e =
      let same : b.made ≡ made = some_eq (sym b.make_eq ∙ e) in
      subst (λ m. is_failed m ≡ false) same
        (rw (b.no_problem, b.no_failure, b.executable, b.flags) refl)
    where
      some_eq : {x y : Made} → some x ≡ some y → x ≡ y
      some_eq {x} {y} h = ap (λ o. value o) h
        where
          value : Option Made → Made
          value none = x
          value (some z) = z

  -- A mutant whose build does not leave the executable, with no problem and with the strategy's
  -- flags, is "build_fail". One that is built is "equivalent" when every case was replayed well and
  -- wrote each expected variable with the expected bits. Or there is a first case that is not so, and
  -- the status is what this case shows: "runtime_fail", that it did not finish, left with another
  -- code than 0 or with another executable; "killed", that a file was no array or an expected
  -- variable was not written or fails under its band; "gap", that each expected variable of this case
  -- has the expected bits or passes under its band and that some do the second. Of the cases after
  -- it nothing is said, so that at "gap" one of them may fail under a band. The directory stays for
  -- "gap" and "equivalent" alone.
  pub score_mutant-IsDecidedBy :
      (cases : List String) (status : Status) (kept : Bool)
      → score_mutant f bands trial cases ≡ ok (status, kept)
      → (kept ≡ is_kept status)
        × (((IsBuilt trial → ⊥) × (status ≡ Status.build_fail))
            ⊎ (IsBuilt trial
                × (((status ≡ Status.equivalent) × ((n : String) → In n cases → Equivalent n))
                    ⊎ IsDecidedBy cases status)))
  unfolding score_mutant
  score_mutant-IsDecidedBy cases status kept h =
      let (s, e, h') = >>=-eq-ok (score_made f bands trial cases trial.make) _ h in
      let same : s ≡ status = ap (λ x. x.0) (ok_injective h') in
      let kept_eq = sym (ap (λ x. x.1) (ok_injective h')) ∙ ap is_kept same in
      (kept_eq, subst Outcome same (made_cases s e))
    where
      Outcome : Status → Type 0
      Outcome s =
          ((IsBuilt trial → ⊥) × (s ≡ Status.build_fail))
          ⊎ (IsBuilt trial
              × (((s ≡ Status.equivalent) × ((n : String) → In n cases → Equivalent n))
                  ⊎ IsDecidedBy cases s))

      made_cases : (s : Status) → score_made f bands trial cases trial.make ≡ ok s → Outcome s
      made_cases s e = elim (Option-cases trial.make) [
        | inl n ↦
            let failed : ◌≡◌ {A = Result Status} (ok Status.build_fail) (ok s) =
              rw (n, score_made) at e in
            inl (
              (λ b. absurd (let bad = sym n ∙ b.make_eq in ground arith)),
              sym (ok_injective failed),
            )
        | inr (made, n) ↦ elim (Bool-cases (is_failed made)) [
          | inl t ↦
              let failed : ◌≡◌ {A = Result Status} (ok Status.build_fail) (ok s) =
                rw (n, t, score_made) at e in
              inl (
                (λ b. absurd (let bad = sym t ∙ not_built b made n in ground arith)),
                sym (ok_injective failed),
              )
          | inr t ↦
              inr (built made n t, score_cases-IsDecidedBy cases s (rw (n, t, score_made) at e))
        ]
      ]
