-- ===== src/Mutation/Score/Pool/Settled.antt =====
-- The rows that `_score_all` of services/builder/stage_mutation.py answers with.
use skateboard.Prelude.{
  append_empty, append_one, List, [], ◌∷◌, ◌++◌, map, Option, some, none, In, inl, inr, lookup, put,
  ◌==◌, ==-refl, Bool-cases, ◌≡◌, ◌≢◌, refl, sym, ap, ◌∙◌, arith,
}
use skateboard.Region.Glob.{Text}
use skateboard.Ledger.FileSet.{text_eq}
use skateboard.Mutation.{Status, Mutant}
use skateboard.Mutation.Score.Pool.{
  Row, as_result, Answer, Job, collect, index_from, index, row_of, score_all, settle,
}

-- No two of the mutants have one name.
abbrev pub AreApart : List Job → Type 0
AreApart [] = Unit {0}
AreApart (job ∷ jobs) = ((other : Job) → In other jobs → other.0.mid ≢ job.0.mid) × AreApart jobs

module _ {V : Type 0} where
  lookup-put :
      (k : Text) (v : V) (m : List (Text × V)) → lookup k m ≡ none → lookup k (put k v m) ≡ some v
  lookup-put k v [] h = rw (==-refl k) refl
  lookup-put k v ((j, w) ∷ m) h = elim (Bool-cases (k == j)) [
    | inl t ↦ rw (t, t) refl
    | inr t ↦ rw (t, t) (lookup-put k v m (rw t at h))
  ]

  lookup-put_other :
      (k k' : Text) (v : V) (m : List (Text × V)) → k ≢ k' → lookup k (put k' v m) ≡ lookup k m
  lookup-put_other k k' v [] h = elim (Bool-cases (k == k')) [
    | inl t ↦ absurd (h ((text_eq.beq_iff k k').0 t))
    | inr t ↦ rw t refl
  ]
  lookup-put_other k k' v ((j, w) ∷ m) h = elim (Bool-cases (k' == j)) [
    | inl t ↦ rw t (elim (Bool-cases (k == j)) [
      | inl t' ↦ absurd (h ((text_eq.beq_iff k j).0 t' ∙ sym ((text_eq.beq_iff k' j).0 t)))
      | inr t' ↦ rw t' refl
    ])
    | inr t ↦ rw t (elim (Bool-cases (k == j)) [
      | inl t' ↦ rw t' refl
      | inr t' ↦ rw t' (lookup-put_other k k' v m h)
    ])
  ]

  put-new :
      (k : Text) (v : V) (m : List (Text × V)) → lookup k m ≡ none → put k v m ≡ m ++ (k, v) ∷ []
  put-new k v [] h = refl
  put-new k v ((j, w) ∷ m) h = elim (Bool-cases (k == j)) [
    | inl t ↦ absurd (let bad : some w ≡ none = rw t at h in ground arith)
    | inr t ↦ rw t (ap (λ x. (j, w) ∷ x) (put-new k v m (rw t at h)))
  ]

-- Nothing is filed under the name of a mutant that is still to come.
abbrev AreNew : {V : Type 0} → List (Text × V) → List Job → Type 0
AreNew rows jobs = (job : Job) → In job jobs → lookup job.0.mid rows ≡ none

module _ {V : Type 0} where
  AreNew-put :
      (m : Mutant) (a : Answer) (v : V) (rows : List (Text × V)) (jobs : List Job)
      → AreApart ((m, a) ∷ jobs)
      → AreNew rows ((m, a) ∷ jobs)
      → AreNew (put m.mid v rows) jobs
  AreNew-put m a v rows jobs apart new job i =
      lookup-put_other job.0.mid m.mid v rows (apart.0 job i) ∙ new job (inr i)

index_from-append :
    (by_id : List (Text × Mutant)) (jobs : List Job)
    → AreApart jobs
    → AreNew by_id jobs
    → index_from by_id jobs ≡ by_id ++ map (λ (job : Job). (job.0.mid, job.0)) jobs
unfolding index_from
index_from-append by_id [] apart new = sym (append_empty by_id)
index_from-append by_id ((m, a) ∷ jobs) apart new =
    index_from-append (put m.mid m by_id) jobs apart.1 (AreNew-put m a m by_id jobs apart new)
    ∙ ap (λ x. x ++ map (λ (job : Job). (job.0.mid, job.0)) jobs)
        (put-new m.mid m by_id (new (m, a) (inl refl)))
    ∙ append_one by_id (m.mid, m) (map (λ (job : Job). (job.0.mid, job.0)) jobs)

lookup-collect_other :
    (k : Text) (jobs : List Job) (rows : List (Text × Row))
    → ((job : Job) → In job jobs → job.0.mid ≢ k)
    → lookup k (collect jobs rows) ≡ lookup k rows
unfolding collect
lookup-collect_other k [] rows h = refl
lookup-collect_other k ((m, Answer.scored s) ∷ jobs) rows h =
    lookup-collect_other k jobs (put m.mid (as_result m s) rows) (λ job i. h job (inr i))
    ∙ lookup-put_other k m.mid (as_result m s) rows (λ e. h (m, Answer.scored s) (inl refl) (sym e))
lookup-collect_other k ((m, Answer.died) ∷ jobs) rows h =
    lookup-collect_other k jobs (put m.mid (as_result m Status.runtime_fail) rows)
      (λ job i. h job (inr i))
    ∙ lookup-put_other k m.mid (as_result m Status.runtime_fail) rows
        (λ e. h (m, Answer.died) (inl refl) (sym e))
lookup-collect_other k ((m, Answer.timed_out) ∷ jobs) rows h = refl

abbrev row_in : List (Text × Row) → Job → Row
row_in rows job = row_of rows (job.0.mid, job.0)

row_of-filed :
    (m : Mutant) (s : Status) (jobs : List Job) (rows : List (Text × Row))
    → ((job : Job) → In job jobs → job.0.mid ≢ m.mid)
    → lookup m.mid rows ≡ none
    → row_of (collect jobs (put m.mid (as_result m s) rows)) (m.mid, m) ≡ as_result m s
unfolding row_of
row_of-filed m s jobs rows others new =
    ap (λ found. pick found)
      (lookup-collect_other m.mid jobs (put m.mid (as_result m s) rows) others
        ∙ lookup-put m.mid (as_result m s) rows new)
  where
    pick : Option Row → Row
    pick found = elim found [ some row ↦ row | none ↦ as_result m Status.skipped ]

both : {r r' : Row} {rs rs' : List Row} → r ≡ r' → rs ≡ rs' → r ∷ rs ≡ r' ∷ rs'
both p q = λ i. p i ∷ q i

skipped-rows :
    (rows : List (Text × Row)) (jobs : List Job)
    → AreNew rows jobs
    → map (row_in rows) jobs ≡ map (λ (job : Job). as_result job.0 Status.skipped) jobs
unfolding row_of
skipped-rows rows [] new = refl
skipped-rows rows (job ∷ jobs) new =
    both (rw (new job (inl refl), row_of) refl)
      (skipped-rows rows jobs (λ other i. new other (inr i)))

collect-settle :
    (jobs : List Job) (rows : List (Text × Row))
    → AreApart jobs
    → AreNew rows jobs
    → map (row_in (collect jobs rows)) jobs ≡ settle jobs
unfolding collect settle
collect-settle [] rows apart new = refl
collect-settle ((m, Answer.scored s) ∷ jobs) rows apart new =
    both (row_of-filed m s jobs rows apart.0 (new (m, Answer.scored s) (inl refl))) (
      collect-settle jobs (put m.mid (as_result m s) rows) apart.1
        (AreNew-put m (Answer.scored s) (as_result m s) rows jobs apart new))
collect-settle ((m, Answer.died) ∷ jobs) rows apart new =
    both (row_of-filed m Status.runtime_fail jobs rows apart.0 (new (m, Answer.died) (inl refl))) (
      collect-settle jobs (put m.mid (as_result m Status.runtime_fail) rows) apart.1
        (AreNew-put m Answer.died (as_result m Status.runtime_fail) rows jobs apart new))
collect-settle ((m, Answer.timed_out) ∷ jobs) rows apart new =
    skipped-rows rows ((m, Answer.timed_out) ∷ jobs) new

map-map :
    {A B C : Type 0} (g : B → C) (h : A → B) (xs : List A)
    → map g (map h xs) ≡ map (λ x. g (h x)) xs
map-map g h [] = refl
map-map g h (x ∷ xs) = ap (λ ys. g (h x) ∷ ys) (map-map g h xs)

-- Where no two mutants have one name, a run answers with one row for each of them, in the order that
-- they were generated in: with the status that its worker gave it, with "runtime_fail" where the
-- worker died, and with "skipped" from the first answer on that did not come in time.
pub score_all-settle : (jobs : List Job) → AreApart jobs → score_all jobs ≡ settle jobs
unfolding score_all index
score_all-settle jobs apart =
    ap (map (row_of (collect jobs []))) (index_from-append [] jobs apart (λ job i. refl))
    ∙ map-map (row_of (collect jobs [])) (λ (job : Job). (job.0.mid, job.0)) jobs
    ∙ collect-settle jobs [] apart (λ job i. refl)
