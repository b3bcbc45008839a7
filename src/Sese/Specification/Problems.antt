-- ===== src/Sese/Specification/Problems.antt =====
-- What a specification without problems has, for `spec_problems` of equivalent/analyzers/check_sese.py.
use skateboard.Prelude.{
  append-nil, String, Bool, true, false, ◌&&◌, not, List, [], ◌∷◌, ◌++◌, map, some, filter, is_some,
  string_eq, ◌≡◌, refl, sym, ap, ◌∙◌, subst, inl, inr, ◌⊎◌, In, In-map, In-filter_of, any-In,
  any_of_In, ==-refl, Bool-cases, Option-cases, arith,
}
use skateboard.Errors.{Result, ok, Result-cases}
use skateboard.Ledger.FileSet.{text_eq}
use skateboard.Ledger.Value.{Value, Fields, get, find_key, as_mapping}
use skateboard.Sese.Specification.{
  SpecProblem, Reader, Range, get_or, safe_relative_path, when, opaque_of, is_null, same, is_in,
  source_problems, opaque_problems, anchor_problems, callee_problems, each_callee, closure_problems,
  listed_problems, item_of, get_of, found_or, callee_range,
}

when-nil : (b : Bool) → (p : SpecProblem) → when b p ≡ [] → b ≡ false
when-nil true p h = absurd (ground arith)
when-nil false p h = refl

nil-In : {A : Type 0} → {xs : List A} → (a : A) → xs ≡ [] → In a xs → ⊥
nil-In a h member = rw h at member

safe-str : (v : Value) → safe_relative_path v ≡ true → (f : String) × (v ≡ Value.str f)
unfolding safe_relative_path
safe-str (Value.str f) h = (f, refl)
safe-str Value.null h = absurd (ground arith)
safe-str (Value.bool b) h = absurd (ground arith)
safe-str (Value.int n) h = absurd (ground arith)
safe-str (Value.float t) h = absurd (ground arith)
safe-str (Value.arr vs) h = absurd (ground arith)
safe-str (Value.obj d) h = absurd (ground arith)

not-false : (b : Bool) → not b ≡ false → b ≡ true
not-false b h = ground arith

and-not : (a b : Bool) → a ≡ false → (not a && not b) ≡ false → b ≡ true
and-not a b ha h = ground arith

is_null-eq : (v : Value) → is_null v ≡ true → v ≡ Value.null
is_null-eq Value.null h = refl
is_null-eq (Value.str f) h = absurd (ground arith)
is_null-eq (Value.bool b) h = absurd (ground arith)
is_null-eq (Value.int n) h = absurd (ground arith)
is_null-eq (Value.float t) h = absurd (ground arith)
is_null-eq (Value.arr vs) h = absurd (ground arith)
is_null-eq (Value.obj d) h = absurd (ground arith)

-- A file of the list, and no opaque source.
abbrev pub IsListed : List Value → List String → Value → Type 0
IsListed files opaque v = (f : String) × (v ≡ Value.str f) × In v files × (In f opaque → ⊥)

module _ (reader : Reader) where
  same-str : (v : Value) → (f : String) → same reader v (Value.str f) ≡ true → v ≡ Value.str f
  unfolding same
  same-str (Value.str g) f h = ap Value.str ((string_eq.beq_iff g f).0 h)
  same-str Value.null f h = absurd (ground arith)
  same-str (Value.bool b) f h = absurd (ground arith)
  same-str (Value.int n) f h = absurd (ground arith)
  same-str (Value.float t) f h = absurd (ground arith)
  same-str (Value.arr vs) f h = absurd (ground arith)
  same-str (Value.obj d) f h = absurd (ground arith)

  same_refl : (f : String) → same reader (Value.str f) (Value.str f) ≡ true
  unfolding same
  same_refl f = ==-refl f

  source_problems-safe :
      (files : List Value)
      → source_problems reader files ≡ []
      → (v : Value) → In v files
      → safe_relative_path v ≡ true
  unfolding source_problems
  source_problems-safe files h v member =
      let (unsafe, _) =
        append-nil
          (map (λ f. SpecProblem.unsafe_source) (filter (λ f. not (safe_relative_path f)) files)) _
          h in
      elim (Bool-cases (safe_relative_path v)) [
        | inl safe ↦ safe
        | inr bad ↦ absurd (
            nil-In SpecProblem.unsafe_source unsafe (
              In-map (λ f. SpecProblem.unsafe_source) v _
                (In-filter_of (λ f. not (safe_relative_path f)) v files member (rw (bad) refl))))
      ]

  is_in-IsListed :
      (files : List Value)
      → (opaque : List String) → (v : Value) → source_problems reader files ≡ []
      → is_in reader v files ≡ true
      → is_in reader v (map Value.str opaque) ≡ false
      → IsListed files opaque v
  unfolding is_in
  is_in-IsListed files opaque v clean inside outside =
      let (a, member, equal) = any-In (same reader v) files inside in
      let (f, a_str) = safe-str a (source_problems-safe files clean a member) in
      let v_str : v ≡ Value.str f =
        same-str v f (subst (λ b. same reader v b ≡ true) a_str equal) in
      (
        f,
        v_str,
        subst (λ b. In b files) (a_str ∙ sym v_str) member,
        λ within. absurd (
            ground (
              arith,
              any_of_In (same reader v) (map Value.str opaque) (Value.str f)
                  (In-map Value.str f opaque within) (rw (v_str) (same_refl f)),
              outside,
            )),
      )

  pub anchor-IsListed :
      (files : List Value)
      → (opaque : List String) → (v : Value) → source_problems reader files ≡ []
      → anchor_problems reader files opaque v ≡ []
      → IsListed files opaque v
  unfolding anchor_problems
  anchor-IsListed files opaque v clean h = elim (Bool-cases (is_null v)) [
    | inl missing ↦ absurd (ground (arith, rw (missing, anchor_problems) at h))
    | inr present ↦
        let (inside, outside) =
          append-nil (when (not (is_in reader v files)) SpecProblem.anchor_not_listed)
            (when (is_in reader v (map Value.str opaque)) SpecProblem.opaque_anchor)
            (rw (present, anchor_problems) at h) in
        is_in-IsListed files opaque v clean (not-false _ (when-nil _ _ inside))
          (when-nil _ _ outside)
  ]

  pub each_callee-nil :
      (files : List Value)
      → (opaque : List String) → (anchor_file : Value) → (callees : List Value)
      → each_callee reader files opaque anchor_file callees ≡ []
      → (callee : Value) → In callee callees
      → callee_problems reader files opaque anchor_file callee ≡ []
  unfolding each_callee
  each_callee-nil files opaque anchor_file [] h callee member = absurd member
  each_callee-nil files opaque anchor_file (c ∷ rest) h callee member =
      let (here, later) = append-nil (callee_problems reader files opaque anchor_file c) _ h in
      elim member [
        | inl same_one ↦ rw (same_one) here
        | inr there ↦ each_callee-nil files opaque anchor_file rest later callee there
      ]

  callee_range-file :
      (anchor_file : Value)
      → (c : Fields) → (r : Range) → callee_range reader anchor_file (Value.obj c) ≡ ok r
      → r.file ≡ get_or anchor_file "file" c
  unfolding callee_range get_of
  callee_range-file anchor_file c r made = elim (Result-cases (item_of "lines" (Value.obj c))) [
    | inr (e, failed) ↦ absurd (ground (arith, rw (failed, callee_range) at made))
    | inl (lines, got) ↦ elim (Result-cases (found_or "line range" (reader.range_match lines))) [
      | inr (e, failed) ↦ absurd (ground (arith, rw (got, failed, callee_range) at made))
      | inl ((lo, hi), matched) ↦ elim (Result-cases (item_of "name" (Value.obj c))) [
        | inr (e, failed) ↦ absurd (ground (arith, rw (got, matched, failed, callee_range) at made))
        | inl (label, named) ↦
            let e : ◌≡◌ {A = Result Range}
                (ok
                  (record { file = get_or anchor_file "file" c; lo = lo; hi = hi; label = label }))
                (ok r) =
              rw (got, matched, named, callee_range) at made in
            let eq : ◌≡◌ {A = Range}
                (record { file = get_or anchor_file "file" c; lo = lo; hi = hi; label = label }) r =
              ground arith in
            ap (λ (q : Range). q.file) (sym eq)
      ]
    ]
  ]

  pub callee-IsListed :
      (files : List Value)
      → (opaque : List String) → (anchor_file callee : Value) → (r : Range)
      → source_problems reader files ≡ []
      → callee_problems reader files opaque anchor_file callee ≡ []
      → callee_range reader anchor_file callee ≡ ok r
      → ((c : Fields) × (callee ≡ Value.obj c)
          × (get_or anchor_file "file" c ≡ Value.null)
          × (r.file ≡ Value.null))
        ⊎ IsListed files opaque r.file
  unfolding callee_problems callee_range
  callee-IsListed files opaque anchor_file (Value.obj c) r clean h made =
      elim (Bool-cases (is_some (find_key "name" c))) [
        | inr nameless ↦ absurd (ground (arith, rw (nameless, callee_problems) at h))
        | inl named ↦
            let (outside, inside) =
              append-nil
                (when (is_in reader (get_or anchor_file "file" c) (map Value.str opaque))
                  SpecProblem.opaque_callee)
                _ (rw (named, callee_problems) at h) in
            let e = callee_range-file anchor_file c r made in
            elim (Bool-cases (is_null r.file)) [
              | inl missing ↦
                  let null_file = is_null-eq r.file missing in
                  inl (c, refl, sym e ∙ null_file, null_file)
              | inr present ↦ inr (
                  rw (e) (
                    is_in-IsListed files opaque (get_or anchor_file "file" c) clean
                      (and-not _ _ (rw (e) at present) (when-nil _ _ inside))
                      (when-nil _ _ outside)))
            ]
      ]
  callee-IsListed files opaque anchor_file Value.null r clean h made = absurd (ground arith)
  callee-IsListed files opaque anchor_file (Value.bool b) r clean h made = absurd (ground arith)
  callee-IsListed files opaque anchor_file (Value.int n) r clean h made = absurd (ground arith)
  callee-IsListed files opaque anchor_file (Value.float t) r clean h made = absurd (ground arith)
  callee-IsListed files opaque anchor_file (Value.str t) r clean h made = absurd (ground arith)
  callee-IsListed files opaque anchor_file (Value.arr vs) r clean h made = absurd (ground arith)

  -- The parts of a specification without problems.
  pub record Clean (spec : Fields) (files : List Value) : Type 0 where
    pub anchor : Fields
    pub anchor_is : as_mapping (get "anchor" spec) ≡ some anchor
    pub sources : source_problems reader files ≡ []
    pub at_anchor : anchor_problems reader files (opaque_of spec) (get "file" anchor) ≡ []
    pub at_closure : closure_problems reader spec files (opaque_of spec) (get "file" anchor) ≡ []

  pub listed_problems-Clean :
      (spec : Fields)
      → (files : List Value) → listed_problems reader spec files ≡ []
      → Clean spec files
  unfolding listed_problems
  listed_problems-Clean spec files h =
      let (listed, last) =
        append-nil (source_problems reader files ++ opaque_problems reader spec files) _ h in
      let (sources, _) = append-nil (source_problems reader files) _ listed in
      elim (Option-cases (as_mapping (get "anchor" spec))) [
        | inl missing ↦ absurd (ground (arith, rw (missing) at last))
        | inr (anchor, found) ↦
            let (at_anchor, at_closure) =
              append-nil (anchor_problems reader files (opaque_of spec) (get "file" anchor)) _
                (rw (found) at last) in
            record {
              anchor = anchor;
              anchor_is = found;
              sources = sources;
              at_anchor = at_anchor;
              at_closure = at_closure;
            }
      ]
