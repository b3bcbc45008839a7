-- ===== src/Ledger/Workflow/Search.antt =====
-- The order in which the depth-first search of `_validate` (equivalent/ledger/workflow.py) finishes.
use skateboard.Prelude.{
  ℕ, zero, suc, String, ◌≡◌, refl, sym, ap, ◌∙◌, true, ◌&&◌, List, [], ◌∷◌, some, length, elem,
  elem_of_In, In, In-map, distinct, ==-refl, string_eq, Bool-cases, Option-cases, inl, inr, arith,
}
use skateboard.Errors.{Result, ok, >>=-eq-ok, ensure, ensure-eq-ok}
use skateboard.Ledger.Workflow.{ActionDefinition, emitted, producer}
use skateboard.Ledger.Workflow.Validation.{
  names, check_actions, visit, visit_required, visit_actions, validate,
}

pub producer-In :
    (r : String) (all : List ActionDefinition) {p : ActionDefinition}
    → producer r all ≡ some p
    → In p all
unfolding producer
producer-In r [] h = absurd (ground arith)
producer-In r (a ∷ rest) {p} h = elim (Option-cases (producer r rest)) [
  | inr (later, e) ↦
      let same : later ≡ p = ground arith in inr (producer-In r rest (e ∙ ap some same))
  | inl e ↦ inl (ground arith)
]

eq_of_name :
    (all : List ActionDefinition) (a b : ActionDefinition)
    → distinct (names all) ≡ true
    → In a all
    → In b all
    → a.name ≡ b.name
    → a ≡ b
eq_of_name [] a b d i j e = absurd i
eq_of_name (c ∷ rest) a b d (inl p) (inl q) e = p ∙ sym q
eq_of_name (c ∷ rest) a b d (inl p) (inr j) e =
    let found =
      elem_of_In b.name (names rest) (In-map (λ (x : ActionDefinition). x.name) b rest j) in
    let same : c.name ≡ b.name = ap (λ (x : ActionDefinition). x.name) (sym p) ∙ e in
    let found' = rw (sym same) at found in absurd (ground arith)
eq_of_name (c ∷ rest) a b d (inr i) (inl q) e =
    let found =
      elem_of_In a.name (names rest) (In-map (λ (x : ActionDefinition). x.name) a rest i) in
    let same : c.name ≡ a.name = ap (λ (x : ActionDefinition). x.name) (sym q) ∙ sym e in
    let found' = rw (sym same) at found in absurd (ground arith)
eq_of_name (c ∷ rest) a b d (inr i) (inr j) e = eq_of_name rest a b (ground arith) i j e

module _ (all : List ActionDefinition) where
  -- The prerequisites of `a` were finished before: their names stand in `done`.
  abbrev Follows : ActionDefinition → List String → Type 0
  Follows a done =
      (r : String) (p : ActionDefinition)
      → In r a.requires
      → producer r all ≡ some p
      → elem p.name done ≡ true

  -- Each name stands before the names of what its action requires.
  abbrev pub IsOrdered : List String → Type 0
  IsOrdered [] = Unit
  IsOrdered (n ∷ rest) =
      ((a : ActionDefinition) → In a all → a.name ≡ n → Follows a rest) × IsOrdered rest

  record Extends (visited after : List String) : Type 0 where
    ordered : IsOrdered after
    grows : (n : String) → elem n visited ≡ true → elem n after ≡ true

  -- What a visit of one action ensures.
  abbrev Visits : (ActionDefinition → List String → Result (List String)) → Type 0
  Visits f =
      (a : ActionDefinition) (visited after : List String)
      → In a all
      → IsOrdered visited
      → f a visited ≡ ok after
      → Extends visited after × (elem a.name after ≡ true)

  visit_required-Follows :
      (f : ActionDefinition → List String → Result (List String)) (rs visited after : List String)
      → Visits f
      → IsOrdered visited
      → visit_required f all rs visited ≡ ok after
      → Extends visited after
        × ((r : String) (p : ActionDefinition)
            → In r rs
            → producer r all ≡ some p
            → elem p.name after ≡ true)
  unfolding visit_required
  visit_required-Follows f [] visited after v o h =
      let same : visited ≡ after = ground arith in
      (rw (← same) (record { ordered = o; grows = λ n e. e }), λ r p i. absurd i)
  visit_required-Follows f (r ∷ rs) visited after v o h = elim (Option-cases (producer r all)) [
    | inl e ↦ absurd (ground arith)
    | inr (p, e) ↦
        let (mid, first, second) = >>=-eq-ok (f p visited) _ (rw (e, visit_required) at h) in
        let (one, found) = v p visited mid (producer-In r all e) o first in
        let (two, others) = visit_required-Follows f rs mid after v one.ordered second in
        (
          record { ordered = two.ordered; grows = λ n q. two.grows n (one.grows n q) },
          λ r' p' i e'. elim i [
            | inl same ↦ let q : p ≡ p' = cc in rw (← q) (two.grows p.name found)
            | inr j ↦ others r' p' j e'
          ],
        )
  ]

  visit-Visits :
      (d : distinct (names all) ≡ true) (fuel : ℕ) (visiting : List String)
      → Visits (visit fuel all visiting)
  unfolding visit
  visit-Visits d zero visiting a visited after i o h = elim (Bool-cases (elem a.name visited)) [
    | inl seen ↦
        let same : visited ≡ after = ground arith in
        rw (← same) (record { ordered = o; grows = λ n e. e }, seen)
    | inr new ↦ absurd (ground arith)
  ]
  visit-Visits d (suc fuel) visiting a visited after i o h =
      elim (Bool-cases (elem a.name visiting)) [
        | inl cycle ↦ absurd (ground arith)
        | inr free ↦ elim (Bool-cases (elem a.name visited)) [
          | inl seen ↦
              let same : visited ≡ after = ground arith in
              rw (← same) (record { ordered = o; grows = λ n e. e }, seen)
          | inr new ↦
              let inner = visit fuel all (a.name ∷ visiting) in
              let (mid, e, last) =
                >>=-eq-ok (visit_required inner all a.requires visited) _ (rw (free, new) at h) in
              let (step, follows) =
                visit_required-Follows inner a.requires visited mid
                  (visit-Visits d fuel (a.name ∷ visiting)) o e in
              let same : (a.name ∷ mid) ≡ after = ground arith in
              rw (← same) (
                record {
                  ordered = ((λ b j p. rw (eq_of_name all b a d j i p) follows), step.ordered);
                  grows = λ n p. ground (arith, step.grows n p);
                },
                ground (arith, ==-refl a.name),
              )
        ]
      ]

  visit_actions-IsOrdered :
      (fuel : ℕ) (rest : List ActionDefinition) (visited after : List String)
      → distinct (names all) ≡ true
      → ((a : ActionDefinition) → In a rest → In a all)
      → IsOrdered visited
      → visit_actions fuel all rest visited ≡ ok after
      → Extends visited after × ((a : ActionDefinition) → In a rest → elem a.name after ≡ true)
  unfolding visit_actions
  visit_actions-IsOrdered fuel [] visited after d sub o h =
      let same : visited ≡ after = ground arith in
      (rw (← same) (record { ordered = o; grows = λ n e. e }), λ a i. absurd i)
  visit_actions-IsOrdered fuel (a ∷ rest) visited after d sub o h =
      let (mid, first, second) = >>=-eq-ok (visit fuel all [] a visited) _ h in
      let (one, found) = visit-Visits d fuel [] a visited mid (sub a (inl refl)) o first in
      let (two, others) =
        visit_actions-IsOrdered fuel rest mid after d (λ b j. sub b (inr j)) one.ordered second in
      (
        record { ordered = two.ordered; grows = λ n q. two.grows n (one.grows n q) },
        λ b i. elim i [ inl same ↦ rw same (two.grows a.name found) | inr j ↦ others b j ],
      )

-- What passing the test says: the uniqueness, the checks of each action, and the search.
validate-inv :
    (all : List ActionDefinition) {order : List String}
    → validate all ≡ ok order
    → ((distinct (names all) && distinct (emitted all)) ≡ true)
      × (check_actions all all ≡ ok tt)
      × (visit_actions (length all) all all [] ≡ ok order)
unfolding validate
validate-inv all {order} h =
    let (_, unique, rest) = >>=-eq-ok (ensure _ _) _ h in
    let (_, checked, searched) = >>=-eq-ok (check_actions all all) _ rest in
    (ensure-eq-ok _ _ unique, checked ∙ (λ i. ok tt), searched)

-- If `_validate` passes a catalog, the search has listed every action's name, and each name stands
-- in the list before the names of the actions that produce what its action requires.
pub validate-IsOrdered :
    (all : List ActionDefinition) {order : List String}
    → validate all ≡ ok order
    → IsOrdered all order × ((a : ActionDefinition) → In a all → elem a.name order ≡ true)
validate-IsOrdered all {order} h =
    let (unique, _, searched) = validate-inv all h in
    let (step, found) =
      visit_actions-IsOrdered all (length all) all [] order (ground arith) (λ a i. i) tt searched in
    (step.ordered, found)
