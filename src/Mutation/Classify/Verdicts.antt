-- ===== src/Mutation/Classify/Verdicts.antt =====
-- What the verdicts of `classify` (services/builder/mutate.py) mean.
use skateboard.Prelude.{
  String, Bool, true, false, List, [], ◌∷◌, ◌++◌, some, none, In, inl, inr, ◌⊎◌, Option-cases,
  Bool-cases, lookup, string_eq, if◌then◌else◌, ◌≡◌, refl, sym, subst, arith,
}
use skateboard.Prelude.Text.{str_leb}
use skateboard.Prelude.Sorting.{sort_by, In-sort_by, In-sort_by_of}
use skateboard.Errors.{ok_injective, Result, ok, >>=-eq-ok}
use skateboard.Ledger.Value.{Value}
use skateboard.Capture.{Array}
use skateboard.Capture.Tolerance.{Floats}
use skateboard.Capture.Compare.{Comparison, compare_variable}
use skateboard.Capture.Cases.{Arrays}
use skateboard.Mutation.{Status}
use skateboard.Mutation.Classify.{
  bitwise_equal, Finding, Changes, add_change, Verdict, conclude, is_unwritten, band_for, look,
  classify_from, classify,
}

abbrev by_name : String × Array → String × Array → Bool
by_name a b = str_leb a.0 b.0

module _ (f : Floats) (got : Arrays) (bands : List (String × Value)) where
  -- The variable was written, and every bit of it is the expected one.
  pub record IsUnchanged (variable : String) (ref : Array) : Type 0 where
    pub array : Array
    pub written : lookup variable got ≡ some array
    pub same : bitwise_equal ref array ≡ true

  -- The variable was written with other bits, and the comparator says of it what `pass` is.
  pub record IsChanged (variable : String) (ref : Array) (pass : Bool) : Type 0 where
    pub array : Array
    pub written : lookup variable got ≡ some array
    pub different : bitwise_equal ref array ≡ false
    pub comparison : Comparison f
    pub compared : compare_variable f ref array (band_for f bands variable ref) ≡ ok comparison
    pub verdict : comparison.pass ≡ pass

  -- What each finding says.
  abbrev Says : Finding → String → Array → Type 0
  Says Finding.unwritten variable ref = lookup variable got ≡ none
  Says Finding.unchanged variable ref = IsUnchanged variable ref
  Says Finding.within variable ref = IsChanged variable ref true
  Says Finding.outside variable ref = IsChanged variable ref false

  look-Says :
      (variable : String) (ref : Array) (finding : Finding)
      → look f got bands (variable, ref) ≡ ok finding
      → Says finding variable ref
  unfolding look
  look-Says variable ref finding h = elim (Option-cases (lookup variable got)) [
    | inl n ↦
        let e : ◌≡◌ {A = Result Finding} (ok Finding.unwritten) (ok finding) = rw (n, look) at h in
        subst (λ x. Says x variable ref) (ok_injective e) n
    | inr (array, n) ↦ elim (Bool-cases (bitwise_equal ref array)) [
      | inl t ↦
          let e : ◌≡◌ {A = Result Finding} (ok Finding.unchanged) (ok finding) =
            rw (n, t, look) at h in
          subst (λ x. Says x variable ref) (ok_injective e)
            (record { array = array; written = n; same = t })
      | inr t ↦
          let (c, m, e) =
            >>=-eq-ok (compare_variable f ref array (band_for f bands variable ref)) _
              (rw (n, t, look) at h) in
          let changed : (pass : Bool) → c.pass ≡ pass → IsChanged variable ref pass = λ pass v.
            record {
              array = array;
              written = n;
              different = t;
              comparison = c;
              compared = m;
              verdict = v;
            } in
          subst (λ x. Says x variable ref) (ok_injective e) (by_pass c.pass changed)
    ]
  ]
    where
      by_pass :
          (b : Bool)
          → ((pass : Bool) → b ≡ pass → IsChanged variable ref pass)
          → Says (if b then Finding.within else Finding.outside) variable ref
      by_pass true changed = changed true refl
      by_pass false changed = changed false refl

  abbrev Entries : Type 0
  Entries = List (String × Array)

  abbrev Found : Finding → (String × Array) → Type 0
  Found finding entry = look f got bands entry ≡ ok finding

  -- What a status says of the entries that were looked at with `c` noted before.
  abbrev Facts : Entries → Changes → Status → Type 0
  Facts entries c Status.equivalent =
      (c.changed ≡ []) × ((e : String × Array) → In e entries → Found Finding.unchanged e)
  Facts entries c Status.gap =
      (c.outside ≡ [])
      × ((e : String × Array) → In e entries → Found Finding.unchanged e ⊎ Found Finding.within e)
      × ((c.changed ≡ [] → ⊥) ⊎ ((e : String × Array) × In e entries × Found Finding.within e))
  Facts entries c Status.killed =
      (c.outside ≡ [] → ⊥)
      ⊎ ((e : String × Array) × In e entries
          × (Found Finding.unwritten e ⊎ Found Finding.outside e))
  Facts entries c _ = ⊥

  conclude-Facts :
      (changed outside : List String)
      → Facts []
          (record { changed = changed; outside = outside })
          (conclude (record { changed = changed; outside = outside })).0
  unfolding conclude
  conclude-Facts [] outside = (refl, λ e i. absurd i)
  conclude-Facts (x ∷ xs) [] = (refl, (λ e i. absurd i), inl (λ bad. absurd (ground arith)))
  conclude-Facts (x ∷ xs) (y ∷ ys) = inl (λ bad. absurd (ground arith))

  append_one-ne : (xs : List String) (x : String) → xs ++ x ∷ [] ≡ [] → ⊥
  append_one-ne [] x h = absurd (ground arith)
  append_one-ne (y ∷ xs) x h = absurd (ground arith)

  -- The facts with one more entry, which was looked at first.
  more-Facts :
      (entry : String × Array) (entries : Entries) (c : Changes) (finding : Finding) (s : Status)
      → Found finding entry
      → is_unwritten finding ≡ false
      → Facts entries (add_change entry.0 finding c) s
      → Facts (entry ∷ entries) c s
  more-Facts entry entries c finding Status.build_fail e w h = absurd h
  more-Facts entry entries c finding Status.runtime_fail e w h = absurd h
  more-Facts entry entries c finding Status.skipped e w h = absurd h
  more-Facts entry entries c finding Status.pending e w h = absurd h
  more-Facts entry entries c Finding.unwritten s e w h = absurd (ground arith)
  more-Facts entry entries c Finding.unchanged Status.equivalent e w (n, all) = (
    n,
    λ x i. elim i [ inl same ↦ subst (Found Finding.unchanged) (sym same) e | inr j ↦ all x j ],
  )
  more-Facts entry entries c Finding.unchanged Status.gap e w (n, all, some_within) = (
    n,
    (λ x i. elim i [
      | inl same ↦ inl (subst (Found Finding.unchanged) (sym same) e)
      | inr j ↦ all x j
    ]),
    (elim some_within [ inl t ↦ inl t | inr (x, j, t) ↦ inr (x, inr j, t) ]),
  )
  more-Facts entry entries c Finding.within Status.equivalent e w (n, all) =
      absurd (append_one-ne c.changed entry.0 n)
  more-Facts entry entries c Finding.within Status.gap e w (n, all, some_within) = (
    n,
    (λ x i. elim i [
      | inl same ↦ inr (subst (Found Finding.within) (sym same) e)
      | inr j ↦ all x j
    ]),
    inr (entry, inl refl, e),
  )
  more-Facts entry entries c Finding.outside Status.equivalent e w (n, all) =
      absurd (append_one-ne c.changed entry.0 n)
  more-Facts entry entries c Finding.outside Status.gap e w (n, all, some_within) =
      absurd (append_one-ne c.outside entry.0 n)
  more-Facts entry entries c Finding.outside Status.killed e w h = inr (entry, inl refl, inr e)
  more-Facts entry entries c Finding.unchanged Status.killed e w (inl t) = inl t
  more-Facts entry entries c Finding.unchanged Status.killed e w (inr (x, j, t)) = inr (x, inr j, t)
  more-Facts entry entries c Finding.within Status.killed e w (inl t) = inl t
  more-Facts entry entries c Finding.within Status.killed e w (inr (x, j, t)) = inr (x, inr j, t)

  unwritten_eq : (finding : Finding) → is_unwritten finding ≡ true → finding ≡ Finding.unwritten
  unwritten_eq Finding.unwritten h = refl
  unwritten_eq Finding.unchanged h = absurd (ground arith)
  unwritten_eq Finding.within h = absurd (ground arith)
  unwritten_eq Finding.outside h = absurd (ground arith)

  classify_from-Facts :
      (entries : Entries) (c : Changes) (v : Verdict)
      → classify_from f got bands entries c ≡ ok v
      → Facts entries c v.0
  unfolding classify_from
  classify_from-Facts [] c v h =
      subst (λ (x : Verdict). Facts [] c x.0) (ok_injective h) (conclude-Facts c.changed c.outside)
  classify_from-Facts (entry ∷ entries) c v h =
      let (finding, e, h') = >>=-eq-ok (look f got bands entry) _ h in
      elim (Bool-cases (is_unwritten finding)) [
        | inl t ↦
            let killed : ◌≡◌ {A = Result Verdict} (ok (Status.killed, entry.0 ∷ [])) (ok v) =
              rw t at h' in
            subst (λ (x : Verdict). Facts (entry ∷ entries) c x.0) (ok_injective killed)
              (inr (entry, inl refl, inl (subst (λ x. Found x entry) (unwritten_eq finding t) e)))
        | inr t ↦
            more-Facts entry entries c finding v.0 e t
              (classify_from-Facts entries (add_change entry.0 finding c) v (rw t at h'))
      ]

  -- What a verdict says of the expected variables: "equivalent", that each of them was written with
  -- the expected bits; "gap", that each was written with those bits or passes under its band, and
  -- that some do the second; "killed", that one was not written or fails under its band.
  abbrev pub Means : Arrays → Status → Type 0
  Means expected Status.equivalent =
      (variable : String) (ref : Array) → In (variable, ref) expected → IsUnchanged variable ref
  Means expected Status.gap =
      ((variable : String) (ref : Array)
        → In (variable, ref) expected
        → IsUnchanged variable ref ⊎ IsChanged variable ref true)
      × ((variable : String) × (ref : Array) × In (variable, ref) expected
          × IsChanged variable ref true)
  Means expected Status.killed =
      (variable : String) × (ref : Array) × In (variable, ref) expected
      × ((lookup variable got ≡ none) ⊎ IsChanged variable ref false)
  Means expected _ = ⊥

  Facts-Means :
      (expected : Arrays) (s : Status)
      → Facts (sort_by by_name expected) (record { changed = []; outside = [] }) s
      → Means expected s
  Facts-Means expected Status.build_fail h = absurd h
  Facts-Means expected Status.runtime_fail h = absurd h
  Facts-Means expected Status.skipped h = absurd h
  Facts-Means expected Status.pending h = absurd h
  Facts-Means expected Status.equivalent (_, all) = λ variable ref i.
      look-Says variable ref Finding.unchanged
        (all (variable, ref) (In-sort_by_of by_name (variable, ref) expected i))
  Facts-Means expected Status.gap (_, all, inl bad) = absurd (bad refl)
  Facts-Means expected Status.gap (_, all, inr ((variable, ref), i, e)) = (
    (λ variable ref i.
        elim (all (variable, ref) (In-sort_by_of by_name (variable, ref) expected i)) [
          | inl e ↦ inl (look-Says variable ref Finding.unchanged e)
          | inr e ↦ inr (look-Says variable ref Finding.within e)
        ]),
    (
      variable,
      ref,
      In-sort_by by_name (variable, ref) expected i,
      look-Says variable ref Finding.within e,
    ),
  )
  Facts-Means expected Status.killed (inl bad) = absurd (bad refl)
  Facts-Means expected Status.killed (inr ((variable, ref), i, inl e)) = (
    variable,
    ref,
    In-sort_by by_name (variable, ref) expected i,
    inl (look-Says variable ref Finding.unwritten e),
  )
  Facts-Means expected Status.killed (inr ((variable, ref), i, inr e)) = (
    variable,
    ref,
    In-sort_by by_name (variable, ref) expected i,
    inr (look-Says variable ref Finding.outside e),
  )

  -- Each of the three verdicts on a case means what it says, and there is no other.
  pub classify-Means :
      (expected : Arrays) (v : Verdict) → classify f expected got bands ≡ ok v → Means expected v.0
  unfolding classify
  classify-Means expected v h =
      Facts-Means expected v.0
        (classify_from-Facts (sort_by by_name expected) (record { changed = []; outside = [] }) v h)
