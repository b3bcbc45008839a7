-- ===== src/Ledger/Workflow/Fuel.antt =====
-- The fuel of the search of `_validate` (equivalent/ledger/workflow.py).
use skateboard.Prelude.{
  ℕ, zero, suc, ◌+◌, ◌≤◌, ◌<◌, String, ◌≡◌, ◌≢◌, refl, ap, false, List, [], ◌∷◌, length, elem, In,
  ==-refl, string_eq, Bool-cases, Option-cases, if◌then◌else◌, inl, inr, arith,
}
use skateboard.Errors.{Result, ok, raise, runtime_error, ◌>>=◌}
use skateboard.Ledger.Workflow.{ActionDefinition, producer}
use skateboard.Ledger.Workflow.Search.{producer-In}
use skateboard.Ledger.Workflow.Validation.{visit, visit_required, visit_actions}

-- How many actions are not being visited.
waiting : List ActionDefinition → List String → ℕ
waiting [] visiting = 0
waiting (a ∷ rest) visiting = (if elem a.name visiting then 0 else 1) + waiting rest visiting

waiting-le :
    (l : List ActionDefinition) (n : String) (v : List String) → waiting l (n ∷ v) ≤ waiting l v
unfolding waiting
waiting-le [] n v = omega arith
waiting-le (a ∷ rest) n v = ground (arith, waiting-le rest n v)

waiting-lt :
    (l : List ActionDefinition) (a : ActionDefinition) (v : List String)
    → In a l
    → elem a.name v ≡ false
    → waiting l (a.name ∷ v) < waiting l v
unfolding waiting
waiting-lt [] a v i e = absurd i
waiting-lt (b ∷ rest) a v (inl p) e =
    let q : a.name ≡ b.name = ap (λ (x : ActionDefinition). x.name) p in
    let e' = rw q at e in ground (arith, ==-refl b.name, waiting-le rest a.name v)
waiting-lt (b ∷ rest) a v (inr i) e = ground (arith, waiting-lt rest a v i e)

waiting-le-length : (l : List ActionDefinition) (v : List String) → waiting l v ≤ length l
unfolding waiting
waiting-le-length [] v = omega arith
waiting-le-length (a ∷ rest) v = ground (arith, waiting-le-length rest v)

-- Not the error that stands for a search cut short.
abbrev Ends : {A : Type 0} → Result A → Type 0
Ends r = r ≢ raise (runtime_error "out of fuel")

>>=-Ends :
    {A B : Type 0} (m : Result A) (f : A → Result B)
    → Ends m
    → ((a : A) → Ends (f a))
    → Ends (m >>= f)
>>=-Ends (ok a) f h k = k a
>>=-Ends (raise e) f h k = λ q. h (cc)

visit_required-Ends :
    (f : ActionDefinition → List String → Result (List String)) (all : List ActionDefinition)
    (rs visited : List String)
    → ((a : ActionDefinition) (v : List String) → In a all → Ends (f a v))
    → Ends (visit_required f all rs visited)
unfolding visit_required
visit_required-Ends f all [] visited h = λ e. ground arith
visit_required-Ends f all (r ∷ rs) visited h = elim (Option-cases (producer r all)) [
  | inl q ↦ rw (q, visit_required) (λ e. ground arith)
  | inr (p, q) ↦
      rw (q, visit_required)
        (>>=-Ends (f p visited) _ (h p visited (producer-In r all q))
          (λ v. visit_required-Ends f all rs v h))
]

visit-Ends :
    (fuel : ℕ) (all : List ActionDefinition) (visiting : List String)
    → waiting all visiting ≤ fuel
    → (a : ActionDefinition) (visited : List String) → In a all
    → Ends (visit fuel all visiting a visited)
unfolding visit
visit-Ends zero all visiting enough a visited i = elim (Bool-cases (elem a.name visiting)) [
  | inl cycle ↦ rw cycle (λ e. ground arith)
  | inr free ↦ absurd (omega (arith, waiting-lt all a visiting i free))
]
visit-Ends (suc fuel) all visiting enough a visited i = elim (Bool-cases (elem a.name visiting)) [
  | inl cycle ↦ rw cycle (λ e. ground arith)
  | inr free ↦ elim (Bool-cases (elem a.name visited)) [
    | inl seen ↦ rw (free, seen) (λ e. ground arith)
    | inr new ↦
        rw (free, new)
          (>>=-Ends (visit_required (visit fuel all (a.name ∷ visiting)) all a.requires visited) _
            (visit_required-Ends (visit fuel all (a.name ∷ visiting)) all a.requires visited (
              visit-Ends fuel all (a.name ∷ visiting)
                (omega (arith, waiting-lt all a visiting i free))))
            (λ v e. ground arith))
  ]
]

visit_actions-Ends :
    (all rest : List ActionDefinition) (visited : List String)
    → ((a : ActionDefinition) → In a rest → In a all)
    → Ends (visit_actions (length all) all rest visited)
unfolding visit_actions
visit_actions-Ends all [] visited sub = λ e. ground arith
visit_actions-Ends all (a ∷ rest) visited sub =
    >>=-Ends (visit (length all) all [] a visited) _
      (visit-Ends (length all) all [] (waiting-le-length all []) a visited (sub a (inl refl)))
      (λ v. visit_actions-Ends all rest v (λ b i. sub b (inr i)))

-- The fuel that `_validate` is given, the number of actions, is enough for every catalog: the
-- search, from any set of visited names, returns or raises an error of the program's own.
pub visit_actions-ne-out_of_fuel :
    (all : List ActionDefinition) (visited : List String)
    → visit_actions (length all) all all visited ≢ raise (runtime_error "out of fuel")
visit_actions-ne-out_of_fuel all visited = visit_actions-Ends all all visited (λ a i. i)
