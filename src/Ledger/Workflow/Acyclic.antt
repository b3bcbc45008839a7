-- ===== src/Ledger/Workflow/Acyclic.antt =====
-- Cycles of prerequisites, and `_validate` of equivalent/ledger/workflow.py.
use skateboard.Prelude.{
  ℕ, suc, ◌≤◌, ◌<◌, String, ◌≡◌, true, List, [], ◌∷◌, some, length, elem, In, ◌==◌, string_eq,
  Bool-cases, if◌then◌else◌, inl, inr, arith,
}
use skateboard.Errors.{ok}
use skateboard.Ledger.Workflow.{ActionDefinition, producer}
use skateboard.Ledger.Workflow.Search.{producer-In, IsOrdered, validate-IsOrdered}
use skateboard.Ledger.Workflow.Validation.{validate}

-- `a` needs `b` through one or more prerequisites.
pub data Needs (all : List ActionDefinition) (a : ActionDefinition)
    : ActionDefinition → Type 0 where
  direct :
      {b : ActionDefinition} (r : String)
      → In r a.requires
      → producer r all ≡ some b
      → Needs all a b
  through :
      {b c : ActionDefinition} (r : String)
      → Needs all a b
      → In r b.requires
      → producer r all ≡ some c
      → Needs all a c

Needs-In : (all : List ActionDefinition) {a b : ActionDefinition} → Needs all a b → In b all
Needs-In all (direct r j p) = producer-In r all p
Needs-In all (through r n j p) = producer-In r all p

-- Where a name stands last in the order, counted from the end.
rank : String → List String → ℕ
rank n [] = 0
rank n (m ∷ rest) =
    let later = rank n rest in
    if elem n rest then later else if n == m then suc (length rest) else 0

rank-le-length : (n : String) (order : List String) → rank n order ≤ length order
unfolding rank
rank-le-length n [] = omega arith
rank-le-length n (m ∷ rest) = ground (arith, rank-le-length n rest)

rank-lt :
    (all : List ActionDefinition) (order : List String) (a b : ActionDefinition) (r : String)
    → IsOrdered all order
    → In a all
    → elem a.name order ≡ true
    → In r a.requires
    → producer r all ≡ some b
    → (rank b.name order < rank a.name order) × (elem b.name order ≡ true)
unfolding rank
rank-lt all [] a b r o i e j p = absurd (ground arith)
rank-lt all (m ∷ rest) a b r o i e j p = elim (Bool-cases (elem a.name rest)) [
  | inl later ↦
      let (less, found) = rank-lt all rest a b r o.1 i later j p in (ground arith, ground arith)
  | inr out ↦
      let here : (a.name == m) ≡ true = ground arith in
      let found = o.0 a i ((string_eq.beq_iff a.name m).0 here) r b j p in
      (ground (arith, rank-le-length b.name rest), ground arith)
]

Needs-rank :
    (all : List ActionDefinition) (order : List String) {a b : ActionDefinition}
    → IsOrdered all order
    → In a all
    → elem a.name order ≡ true
    → Needs all a b
    → (rank b.name order < rank a.name order) × (elem b.name order ≡ true)
Needs-rank all order {a} {b} o i e (direct r j p) = rank-lt all order a b r o i e j p
Needs-rank all order {a} o i e (through {b = b} {c = c} r n j p) =
    let (less, found) = Needs-rank all order {a = a} {b = b} o i e n in
    let (less', found') = rank-lt all order b c r o (Needs-In all n) found j p in
    (omega arith, found')

-- In a catalog that `_validate` passes no action needs itself, through however many prerequisites.
pub validate-acyclic :
    (all : List ActionDefinition) (a : ActionDefinition) {order : List String}
    → validate all ≡ ok order
    → In a all
    → ¬ Needs all a a
validate-acyclic all a {order} h i n =
    let (o, found) = validate-IsOrdered all h in
    let (less, _) = Needs-rank all order {a = a} {b = a} o i (found a i) n in omega arith
