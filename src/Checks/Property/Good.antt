-- ===== src/Checks/Property/Good.antt =====
-- The tests of `run_module` (equivalent/components/property_check.py) on a response, one by one.
use skateboard.Prelude.{
  ℕ, ◌+◌, ◌<◌, Bool, true, false, not, [], append-nil, Option, some, none, nat_beq, nat_beq_iff,
  ltb, Eq, string_eq, ◌≡◌, ◌↔◌, refl, ap, arith,
}
use skateboard.Checks.Property.{
  Counts, sum_collected, sum_executed, PropertiesResponse, Problem, other_seed, when, successful,
  is_seed, is_count, is_observed, same_bool, count_problems, problems_of,
}

-- At least one test passed, and that is all there was.
pub record AllPassed (c : Counts) : Type 0 where
  pub some_passed : 0 < c.passed
  pub no_failed : c.failed ≡ 0
  pub no_errors : c.errors ≡ 0
  pub no_skipped : c.skipped ≡ 0
  pub no_deselected : c.deselected ≡ 0
  pub no_xfailed : c.xfailed ≡ 0
  pub no_xpassed : c.xpassed ≡ 0
  pub all_collected : c.collected ≡ c.passed
  pub all_executed : c.executed ≡ c.passed

pub add_four : {p a b x y : ℕ} → a ≡ 0 → b ≡ 0 → x ≡ 0 → y ≡ 0 → p + a + b + x + y ≡ p
add_four h₁ h₂ h₃ h₄ = omega (arith, h₁, h₂, h₃, h₄)

pub add_zeros :
    {p a b s x y : ℕ} → a ≡ 0 → b ≡ 0 → s ≡ 0 → x ≡ 0 → y ≡ 0 → p + a + b + s + x + y ≡ p
add_zeros h₁ h₂ h₃ h₄ h₅ = omega (arith, h₁, h₂, h₃, h₄, h₅)

module _ (Seed : Type 0) ⦃seed_eq : Eq Seed⦄ where
  successful-AllPassed : (c : Counts) → (successful Seed c ≡ true) ↔ AllPassed c
  unfolding successful
  successful-AllPassed c = (
    (λ h. record {
      some_passed = ground arith;
      no_failed = ground arith;
      no_errors = ground arith;
      no_skipped = ground arith;
      no_deselected = ground arith;
      no_xfailed = ground arith;
      no_xpassed = ground arith;
      all_collected = ground arith;
      all_executed = ground arith;
    }),
    (λ a.
        let z = λ (n m : ℕ) (e : n ≡ m). (nat_beq_iff n m).1 e in
        ground (
          arith,
          a.some_passed,
          z c.failed 0 a.no_failed,
          z c.errors 0 a.no_errors,
          z c.skipped 0 a.no_skipped,
          z c.deselected 0 a.no_deselected,
          z c.xfailed 0 a.no_xfailed,
          z c.xpassed 0 a.no_xpassed,
          z c.collected c.passed a.all_collected,
          z c.executed c.passed a.all_executed,
        )),
  )

  when-nil : (b : Bool) (p : Problem Seed) → (when Seed b p ≡ []) ↔ (b ≡ false)
  when-nil true p = (λ h. absurd (ground arith), λ h. absurd (ground arith))
  when-nil false p = (λ h. refl, λ h. refl)

  count_problems-nil : (c : Counts) → AllPassed c → count_problems Seed c ≡ []
  unfolding count_problems
  count_problems-nil c a =
      let p : nat_beq c.passed 0 ≡ false = let q = a.some_passed in ground arith in
      let collected : nat_beq c.collected (sum_collected c) ≡ true = (nat_beq_iff _ _).1 (
        omega (
          arith, a.no_failed, a.no_errors, a.no_skipped, a.no_xfailed, a.no_xpassed,
          a.all_collected,
        )) in
      let executed : nat_beq c.executed (sum_executed c) ≡ true =
        (nat_beq_iff _ _).1
          (omega (arith, a.no_failed, a.no_errors, a.no_xfailed, a.no_xpassed, a.all_executed)) in
      let none_of = λ (n : ℕ) (e : n ≡ 0). no_number n e in
      rw
        (
          p,
          none_of c.skipped a.no_skipped,
          collected,
          executed,
          none_of c.deselected a.no_deselected,
          none_of c.xfailed a.no_xfailed,
          none_of c.xpassed a.no_xpassed,
        )
        refl
    where
      no_number : (n : ℕ) → n ≡ 0 → ltb 0 n ≡ false
      no_number n e = ground arith

  -- The response is to the search that was asked for, every collected test passed and there was
  -- one, a replay of the bound executable was observed, and the run says that it went well.
  pub record IsGood (resp : PropertiesResponse Seed) (drawn : Seed) (examples : ℕ) : Type 0 where
    pub same_seed : resp.seed ≡ some drawn
    pub same_examples : resp.max_examples ≡ some examples
    pub all_passed : AllPassed resp.counts
    pub observed : is_observed Seed resp.replays_observed ≡ true
    pub went_well : resp.ok ≡ true

  is_seed-eq : (o : Option Seed) (drawn : Seed) → (is_seed Seed o drawn ≡ true) ↔ (o ≡ some drawn)
  is_seed-eq none drawn = (λ h. absurd (ground arith), λ h. absurd (ground arith))
  is_seed-eq (some s) drawn = (
    (λ h. ap some ((seed_eq.beq_iff s drawn).0 h)),
    (λ h. (seed_eq.beq_iff s drawn).1 (seed_in h)),
  )
    where
      seed_in : {x y : Seed} → some x ≡ some y → x ≡ y
      seed_in {x} {y} h = ap (λ o. value o) h
        where
          value : Option Seed → Seed
          value none = x
          value (some z) = z

  is_count-eq : (o : Option ℕ) (n : ℕ) → (is_count Seed o n ≡ true) ↔ (o ≡ some n)
  is_count-eq none n = (λ h. absurd (ground arith), λ h. absurd (ground arith))
  is_count-eq (some m) n =
      ((λ h. ap some ((nat_beq_iff m n).0 h)), (λ h. (nat_beq_iff m n).1 (ground arith)))

  not-eq : (b : Bool) → not b ≡ false → b ≡ true
  not-eq true h = refl
  not-eq false h = absurd (ground arith)

  pub problems_of-IsGood :
      (resp : PropertiesResponse Seed) (drawn : Seed) (examples : ℕ)
      → ((problems_of Seed resp drawn examples ≡ []) × (successful Seed resp.counts ≡ true))
        ↔ IsGood resp drawn examples
  unfolding problems_of
  problems_of-IsGood resp drawn examples = (
    (λ (h, good).
        let (h₁, t₁) = append-nil (when Seed (not (is_seed Seed resp.seed drawn)) other_seed) _ h in
        let (h₂, t₂) =
          append-nil (when Seed (not (is_count Seed resp.max_examples examples)) _) _ t₁ in
        let (_, t₃) = append-nil (count_problems Seed resp.counts) _ t₂ in
        let (h₄, h₅) =
          append-nil (when Seed (not (is_observed Seed resp.replays_observed)) _) _ t₃ in
        let same = not-eq _ ((when-nil _ _).0 h₅) in
        record {
          same_seed = (is_seed-eq resp.seed drawn).0 (not-eq _ ((when-nil _ _).0 h₁));
          same_examples =
              (is_count-eq resp.max_examples examples).0 (not-eq _ ((when-nil _ _).0 h₂));
          all_passed = (successful-AllPassed resp.counts).0 good;
          observed = not-eq _ ((when-nil _ _).0 h₄);
          went_well = agreed resp.ok (rw good at same);
        }),
    (λ g.
        let good = (successful-AllPassed resp.counts).1 g.all_passed in
        (
          rw
              (
                (is_seed-eq resp.seed drawn).1 g.same_seed,
                (is_count-eq resp.max_examples examples).1 g.same_examples,
                count_problems-nil resp.counts g.all_passed,
                g.observed,
                good,
                agreed_of resp.ok g.went_well,
              )
              refl,
          good,
        )),
  )
    where
      agreed : (b : Bool) → same_bool Seed b true ≡ true → b ≡ true
      agreed true h = refl
      agreed false h = absurd (ground arith)

      agreed_of : (b : Bool) → b ≡ true → same_bool Seed b true ≡ true
      agreed_of true h = refl
      agreed_of false h = absurd (ground arith)
