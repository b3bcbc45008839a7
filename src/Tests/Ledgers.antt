-- ===== src/Tests/Ledgers.antt =====
-- The store's queries on a ledger of one claim, and the claim that comes after it.
use skateboard.Prelude.{
  ◌≡◌, ◌≢◌, refl, sym, ◌∙◌, arith, true, false, [], ◌∷◌, some, none, inl, string_eq,
}
use skateboard.Prelude.Text.{str_leb}
use skateboard.Ledger.Record.{Claim}
use skateboard.Ledger.Evidence.{claim_matches_context}
use skateboard.Ledger.Store.{append_claim, latest, find_duplicate, is_current}
use skateboard.Ledger.Store.Ids.{next_claim_id}
use skateboard.Ledger.Store.Fresh.{next_claim_id_fresh}
use skateboard.Ledger.Status.{is_present, requirement_status}
use skateboard.Ledger.Status.Requirement.{requirement_status-append_fail}
use skateboard.Tests.Fixtures.{
  the_tree, the_frozen, the_policy, a_pass, a_later_fail, claim_of, a_store,
}

next_claim_id_fresh_example : a_pass.id ≢ next_claim_id (a_pass ∷ [])
next_claim_id_fresh_example = next_claim_id_fresh (a_pass ∷ []) a_pass (inl refl)

latest_of_store : latest "sese/verified" the_tree (the_policy ∷ []) a_store ≡ some a_pass
unfolding latest
latest_of_store = refl

no_latest : latest "sese/verified" the_frozen [] a_store ≡ none
unfolding latest
no_latest = refl

a_duplicate : find_duplicate "sese/verified" the_tree "h" (the_policy ∷ []) a_store ≡ some a_pass
unfolding find_duplicate
a_duplicate = refl

a_pass_met :
    is_present (requirement_status a_store "sese/verified" (some the_tree) none (the_policy ∷ []))
    ≡ true
unfolding requirement_status
a_pass_met = refl

later_is_current : is_current "sese/verified" the_tree (the_policy ∷ []) a_later_fail ≡ true
unfolding claim_matches_context
later_is_current = refl

a_pass_is_before :
    (d : Claim)
    → latest "sese/verified" the_tree (the_policy ∷ []) a_store ≡ some d
    → str_leb d.ts "2026-01-02T00:00:00" ≡ true
unfolding str_leb
a_pass_is_before d h =
    let e : some a_pass ≡ some d = sym latest_of_store ∙ h in
    let same : a_pass ≡ d = ground arith in rw (← same) refl

requirement_status-append_fail_example :
    is_present (
      requirement_status
        (append_claim a_later_fail a_store)
        "sese/verified"
        (some the_tree)
        none
        (the_policy ∷ []))
    ≡ false
requirement_status-append_fail_example =
    requirement_status-append_fail a_store "sese/verified" the_tree none (the_policy ∷ [])
      a_later_fail later_is_current a_pass_is_before refl

abbrev a_later_pass : Claim
a_later_pass = claim_of "c-0008" "2026-01-02T00:00:00" "sese/verified" "pass" (the_policy ∷ [])

later_pass_is_current : is_current "sese/verified" the_tree (the_policy ∷ []) a_later_pass ≡ true
unfolding claim_matches_context
later_pass_is_current = refl
