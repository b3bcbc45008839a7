-- ===== src/Mutation/Score/Observed.antt =====
-- What the status of one case says of its replay (`score_mutant`, services/builder/stage_mutation.py).
use skateboard.Prelude.{
  String, Bool, true, false, ◌||◌, not, List, some, none, inl, inr, ◌⊎◌, Option-cases, Bool-cases,
  nat_beq, ◌≡◌, subst,
}
use skateboard.Errors.{ok_injective, Result, ok, >>=-eq-ok}
use skateboard.Ledger.Value.{Value}
use skateboard.Capture.Tolerance.{Floats}
use skateboard.Capture.Cases.{Arrays}
use skateboard.Mutation.{Status}
use skateboard.Mutation.Classify.{classify}
use skateboard.Mutation.Classify.Verdicts.{Means, classify-Means}
use skateboard.Mutation.Score.{Trial, Replayed, compare_outputs, score_case}

-- The replay of a case did not go well: another exit code than 0, or another executable.
abbrev pub is_broken : Replayed → Bool
is_broken replayed = not (nat_beq replayed.returncode 0) || not replayed.matches

module _ (f : Floats) (bands : List (String × Value)) (trial : Trial) where
  -- The case was replayed well, its files were read, and `Means` holds of what they hold.
  pub record IsCompared (name : String) (status : Status) : Type 0 where
    pub replayed : Replayed
    pub executed : trial.execute name ≡ some replayed
    pub sound : is_broken replayed ≡ false
    pub expected : Arrays
    pub got : Arrays
    pub at_expected : trial.references name ≡ some expected
    pub at_got : replayed.outputs ≡ some got
    pub means : Means f got bands expected status

  -- The case was replayed well, and a file of it is not an array.
  pub record IsUnreadable (name : String) : Type 0 where
    pub replayed : Replayed
    pub executed : trial.execute name ≡ some replayed
    pub sound : is_broken replayed ≡ false
    pub unread : (trial.references name ≡ none) ⊎ (replayed.outputs ≡ none)

  -- The replay of the case did not finish, or did not go well.
  abbrev pub IsBroken : String → Type 0
  IsBroken name =
      (trial.execute name ≡ none)
      ⊎ ((replayed : Replayed) × (trial.execute name ≡ some replayed) × (is_broken replayed ≡ true))

  -- What a case with that status shows.
  abbrev pub Shows : String → Status → Type 0
  Shows name Status.equivalent = IsCompared name Status.equivalent
  Shows name Status.gap = IsCompared name Status.gap
  Shows name Status.killed = IsUnreadable name ⊎ IsCompared name Status.killed
  Shows name Status.runtime_fail = IsBroken name
  Shows name _ = ⊥

  compared-Shows : (name : String) (status : Status) → IsCompared name status → Shows name status
  compared-Shows name Status.equivalent c = c
  compared-Shows name Status.gap c = c
  compared-Shows name Status.killed c = inr c
  compared-Shows name Status.runtime_fail c = absurd c.means
  compared-Shows name Status.build_fail c = absurd c.means
  compared-Shows name Status.skipped c = absurd c.means
  compared-Shows name Status.pending c = absurd c.means

  outputs-Shows :
      (name : String) (replayed : Replayed) (status : Status)
      → trial.execute name ≡ some replayed
      → is_broken replayed ≡ false
      → compare_outputs f bands (trial.references name) replayed.outputs ≡ ok status
      → Shows name status
  outputs-Shows name replayed status ran sound h = elim (Option-cases (trial.references name)) [
    | inl n ↦
        let killed : ◌≡◌ {A = Result Status} (ok Status.killed) (ok status) = rw n at h in
        subst (Shows name) (ok_injective killed)
          (inl (record { replayed = replayed; executed = ran; sound = sound; unread = inl n }))
    | inr (expected, e) ↦ elim (Option-cases replayed.outputs) [
      | inl n ↦
          let killed : ◌≡◌ {A = Result Status} (ok Status.killed) (ok status) = rw (e, n) at h in
          subst (Shows name) (ok_injective killed)
            (inl (record { replayed = replayed; executed = ran; sound = sound; unread = inr n }))
      | inr (got, g) ↦
          let (v, classified, last) =
            >>=-eq-ok (classify f expected got bands) _ (rw (e, g) at h) in
          compared-Shows name status (record {
            replayed = replayed;
            executed = ran;
            sound = sound;
            expected = expected;
            got = got;
            at_expected = e;
            at_got = g;
            means =
                subst (Means f got bands expected) (ok_injective last)
                  (classify-Means f got bands expected v classified);
          })
    ]
  ]

  pub score_case-Shows :
      (name : String) (status : Status)
      → score_case f bands trial name ≡ ok status
      → Shows name status
  unfolding score_case
  score_case-Shows name status h = elim (Option-cases (trial.execute name)) [
    | inl n ↦
        let failed : ◌≡◌ {A = Result Status} (ok Status.runtime_fail) (ok status) =
          rw (n, score_case) at h in
        subst (Shows name) (ok_injective failed) (inl n)
    | inr (replayed, n) ↦ elim (Bool-cases (is_broken replayed)) [
      | inl t ↦
          let failed : ◌≡◌ {A = Result Status} (ok Status.runtime_fail) (ok status) =
            rw (n, t, score_case) at h in
          subst (Shows name) (ok_injective failed) (inr (replayed, n, t))
      | inr t ↦ outputs-Shows name replayed status n t (rw (n, t, score_case) at h)
    ]
  ]
