-- ===== src/Sese/Specification/Listed.antt =====
-- Which files the ranges of a specification name, in equivalent/analyzers/check_sese.py.
use skateboard.Prelude.{
  String, List, [], ◌∷◌, Option, some, none, if◌then◌else◌, ◌==◌, string_eq, ◌≡◌, sym, ap, ◌∙◌,
  subst, inl, inr, ◌⊎◌, In, Option-cases, arith,
}
use skateboard.Errors.{Result, ok, value_error, >>=-eq-ok, ensure, traverse-In_of}
use skateboard.Prelude.Text.{codes}
use skateboard.Ledger.FileSet.{text_eq}
use skateboard.Ledger.Value.{
  Value, Fields, end, field, get, find_key, as_mapping, find_key-get, find_key-missing,
}
use skateboard.Sese.Specification.{
  Reader, Range, get_or, no_items, opaque_of, symbol_of, is_falsy, as_list, each_callee,
  closure_problems, spec_problems, item_of, get_of, found_or, elements, anchor_range, callee_range,
  callee_ranges, ranges_to_scan,
}
use skateboard.Sese.Specification.Problems.{
  IsListed, anchor-IsListed, each_callee-nil, callee-IsListed, Clean, listed_problems-Clean,
}

item_of-ok :
    (key : String)
    → (v x : Value) → item_of key v ≡ ok x
    → (d : Fields) × (as_mapping v ≡ some d) × (get key d ≡ x)
unfolding item_of
item_of-ok key v x h = elim (Option-cases (as_mapping v)) [
  | inl bad ↦ absurd (ground (arith, rw (bad, item_of) at h))
  | inr (d, good) ↦ elim (Option-cases (find_key key d)) [
    | inl missing ↦ absurd (ground (arith, rw (good, missing, item_of) at h))
    | inr (w, found) ↦
        let e : ◌≡◌ {A = Result Value} (ok w) (ok x) = rw (good, found, item_of) at h in
        let same_value : w ≡ x = ground arith in (d, good, find_key-get key d w found ∙ same_value)
  ]
]

get_of-ok :
    (default : Value)
    → (key : String) → (v x : Value) → get_of default key v ≡ ok x
    → (d : Fields) × (as_mapping v ≡ some d) × (get_or default key d ≡ x)
unfolding get_of
get_of-ok default key v x h = elim (Option-cases (as_mapping v)) [
  | inl bad ↦ absurd (ground (arith, rw (bad, get_of) at h))
  | inr (d, good) ↦
      let e : ◌≡◌ {A = Result Value} (ok (get_or default key d)) (ok x) = rw (good, get_of) at h in
      (d, good, ground arith)
]

elements-ok : (v : Value) → (vs : List Value) → elements v ≡ ok vs → as_list v ≡ some vs
unfolding elements
elements-ok v vs h = elim (Option-cases (as_list v)) [
  | inl bad ↦ absurd (ground (arith, rw (bad, elements) at h))
  | inr (ws, good) ↦
      let e : ◌≡◌ {A = Result (List Value)} (ok ws) (ok vs) = rw (good, elements) at h in
      good ∙ ap some (ground arith)
]

falsy-mapping :
    (c : Value)
    → (d : Fields) → as_mapping c ≡ some d
    → as_mapping (if is_falsy c then Value.obj end else c) ≡ some d
unfolding is_falsy
falsy-mapping Value.null d h = absurd (ground arith)
falsy-mapping (Value.bool b) d h = absurd (ground arith)
falsy-mapping (Value.int n) d h = absurd (ground arith)
falsy-mapping (Value.float t) d h = absurd (ground arith)
falsy-mapping (Value.str t) d h = absurd (ground arith)
falsy-mapping (Value.arr vs) d h = absurd (ground arith)
falsy-mapping (Value.obj end) d h = h
falsy-mapping (Value.obj (field k v rest)) d h = h

-- The closure that the ranges are read from is the one that is checked.
closure-same :
    (spec d : Fields)
    → as_mapping (get_or (Value.obj end) "closure" spec) ≡ some d
    → as_mapping (if is_falsy (get "closure" spec) then Value.obj end else get "closure" spec)
      ≡ some d
unfolding get_or is_falsy
closure-same spec d h = elim (Option-cases (find_key "closure" spec)) [
  | inl missing ↦ rw (find_key-missing "closure" spec missing) (rw (missing, get_or) at h)
  | inr (c, found) ↦
      rw (find_key-get "closure" spec c found) (falsy-mapping c d (rw (found, get_or) at h))
]

-- The files that a specification lists.
abbrev pub files_of : Fields → List Value
files_of spec = elim (as_list (get "files" spec)) [ none ↦ [] | some files ↦ files ]

ok-injective : {A : Type 0} → {x y : A} → ◌≡◌ {A = Result A} (ok x) (ok y) → x ≡ y
ok-injective h = ground arith

module _ (reader : Reader) where
  anchor_range-file :
      (anchor anchor_file : Value)
      → (r : Range) → anchor_range reader anchor anchor_file ≡ ok r
      → r.file ≡ anchor_file
  unfolding anchor_range
  anchor_range-file anchor anchor_file r made =
      let (node, _, made1) = >>=-eq-ok (get_of (Value.str "") "pst_node" anchor) _ made in
      let (at, _, made2) = >>=-eq-ok (found_or "pst_node" (reader.node_match node)) _ made1 in
      let (value, _, made3) = >>=-eq-ok (get_of Value.null "entry_symbol" anchor) _ made2 in
      let (label, _, made4) = >>=-eq-ok (symbol_of value) _ made3 in
      let (_, _, made5) =
        >>=-eq-ok
          (ensure (reader.casefold at.0 == reader.casefold (codes label))
            (value_error "pst_node must name entry_symbol exactly"))
          _ made4 in
      let range : Range = record {
        file = anchor_file;
        lo = at.1;
        hi = at.2;
        label = Value.str label;
      } in
      let e : ◌≡◌ {A = Result Range} (ok range) (ok r) = made5 in
      let eq : range ≡ r = ground arith in ap (λ (q : Range). q.file) (sym eq)

  callees-checked :
      (spec d : Fields)
      → (files : List Value) → (opaque : List String) → (anchor_file : Value)
      → (callees : List Value) → as_mapping (get_or (Value.obj end) "closure" spec) ≡ some d
      → as_list (get_or no_items "callees" d) ≡ some callees
      → closure_problems reader spec files opaque anchor_file ≡ []
      → each_callee reader files opaque anchor_file callees ≡ []
  unfolding closure_problems
  callees-checked spec d files opaque anchor_file callees at_closure at_callees h =
      rw (closure-same spec d at_closure, at_callees, closure_problems) at h

  spec_problems-Clean :
      (spec : Fields)
      → spec_problems reader (Value.obj spec) ≡ []
      → Clean reader spec (files_of spec)
  unfolding spec_problems
  spec_problems-Clean spec h = elim (Option-cases (as_list (get "files" spec))) [
    | inl missing ↦ absurd (ground (arith, rw (missing, spec_problems) at h))
    | inr ([], empty) ↦ absurd (ground (arith, rw (empty, spec_problems) at h))
    | inr (f ∷ fs, found) ↦
        rw (found, files_of)
          (listed_problems-Clean reader spec (f ∷ fs) (rw (found, spec_problems) at h))
  ]

  anchor-same :
      (spec : Fields)
      → (anchor anchor_file : Value) → (parts : Clean reader spec (files_of spec))
      → item_of "anchor" (Value.obj spec) ≡ ok anchor
      → item_of "file" anchor ≡ ok anchor_file
      → anchor_file ≡ get "file" parts.anchor
  anchor-same spec anchor anchor_file parts at_anchor at_file =
      let (d, d_is, found) = item_of-ok "anchor" (Value.obj spec) anchor at_anchor in
      let (a, a_is, file) = item_of-ok "file" anchor anchor_file at_file in
      let e : get "anchor" spec ≡ anchor =
        let spec_is : spec ≡ d = ground arith in rw (spec_is) found in
      let both : ◌≡◌ {A = Option Fields} (some parts.anchor) (some a) =
        sym parts.anchor_is ∙ ap as_mapping e ∙ a_is in
      let one : parts.anchor ≡ a = ground arith in sym file ∙ ap (get "file") (sym one)

  -- The range is that of a callee of the closure whose `file:` is present and null. The anchor names
  -- a file.
  pub record IsNullCallee (spec : Fields) (r : Range) : Type 0 where
    pub anchor : Fields
    pub anchor_is : as_mapping (get "anchor" spec) ≡ some anchor
    pub anchor_file : (get "file" anchor ≡ Value.null) → ⊥
    pub closure : Fields
    pub closure_is : as_mapping (get_or (Value.obj end) "closure" spec) ≡ some closure
    pub callees : List Value
    pub callees_are : as_list (get_or no_items "callees" closure) ≡ some callees
    pub callee : Fields
    pub called : In (Value.obj callee) callees
    pub null_file : find_key "file" callee ≡ some Value.null
    pub range : callee_range reader (get "file" anchor) (Value.obj callee) ≡ ok r
    pub no_file : r.file ≡ Value.null

  null-present :
      (default : Value) (d : Fields)
      → ((default ≡ Value.null) → ⊥)
      → get_or default "file" d ≡ Value.null
      → find_key "file" d ≡ some Value.null
  unfolding get_or
  null-present default d given h = elim (Option-cases (find_key "file" d)) [
    | inl missing ↦ absurd (given (rw (missing, get_or) at h))
    | inr (v, found) ↦
        let null_value : v ≡ Value.null = rw (found, get_or) at h in
        found ∙ ap (λ x. some x) null_value
  ]

  listed-ne_null :
      (files : List Value) (opaque : List String) (v : Value)
      → IsListed files opaque v
      → (v ≡ Value.null)
      → ⊥
  listed-ne_null files opaque v listed h =
      let text = listed.0 in
      let bad : Value.str text ≡ Value.null = sym listed.1 ∙ h in ground arith

  callee_ranges-IsListed :
      (spec : Fields) (rest : List Range)
      → (parts : Clean reader spec (files_of spec)) → ((get "file" parts.anchor ≡ Value.null) → ⊥)
      → callee_ranges reader (get "file" parts.anchor) (get_or (Value.obj end) "closure" spec)
        ≡ ok rest
      → (r : Range) → In r rest
      → IsNullCallee spec r ⊎ IsListed (files_of spec) (opaque_of spec) r.file
  unfolding callee_ranges
  callee_ranges-IsListed spec rest parts named made r member =
      let anchor_file = get "file" parts.anchor in
      let closure = get_or (Value.obj end) "closure" spec in
      let (value, at_value, made1) = >>=-eq-ok (get_of no_items "callees" closure) _ made in
      let (callees, at_callees, made2) = >>=-eq-ok (elements value) _ made1 in
      let (d, d_is, value_is) = get_of-ok no_items "callees" closure value at_value in
      let callees_are : as_list (get_or no_items "callees" d) ≡ some callees =
        rw (value_is) (elements-ok value callees at_callees) in
      let each =
        callees-checked spec d (files_of spec) (opaque_of spec) anchor_file callees d_is callees_are
          parts.at_closure in
      let (callee, callee_in, made3) =
        traverse-In_of (callee_range reader anchor_file) callees made2 r member in
      let checked =
        each_callee-nil reader (files_of spec) (opaque_of spec) anchor_file callees each callee
          callee_in in
      elim (callee-IsListed reader (files_of spec) (opaque_of spec) anchor_file callee r
        parts.sources checked made3) [
          | inr listed ↦ inr listed
          | inl (c, callee_is, null_file, no_file) ↦ inl (record {
            anchor = parts.anchor;
            anchor_is = parts.anchor_is;
            anchor_file = named;
            closure = d;
            closure_is = d_is;
            callees = callees;
            callees_are = callees_are;
            callee = c;
            called = subst (λ x. In x callees) callee_is callee_in;
            null_file = null-present anchor_file c named null_file;
            range = subst (λ x. callee_range reader anchor_file x ≡ ok r) callee_is made3;
            no_file = no_file;
          })
        ]

  -- Every range of a specification without problems is in a file that the specification lists and
  -- does not call opaque, or it is the range of a callee of the closure whose `file:` is present and
  -- null, while the anchor names a file.
  pub ranges_to_scan-IsListed :
      (spec : Fields)
      → (ranges : List Range) → spec_problems reader (Value.obj spec) ≡ []
      → ranges_to_scan reader (Value.obj spec) ≡ ok ranges
      → (r : Range) → In r ranges
      → IsNullCallee spec r ⊎ IsListed (files_of spec) (opaque_of spec) r.file
  unfolding ranges_to_scan
  ranges_to_scan-IsListed spec ranges clean made r member =
      let parts = spec_problems-Clean spec clean in
      let (anchor, at_anchor, made1) = >>=-eq-ok (item_of "anchor" (Value.obj spec)) _ made in
      let (anchor_file, at_file, made2) = >>=-eq-ok (item_of "file" anchor) _ made1 in
      let (first, at_first, made3) = >>=-eq-ok (anchor_range reader anchor anchor_file) _ made2 in
      let (rest, at_rest, made4) =
        >>=-eq-ok (callee_ranges reader anchor_file (get_or (Value.obj end) "closure" spec)) _
          made3 in
      let here : In r (first ∷ rest) = subst (In r) (sym (ok-injective made4)) member in
      let same_file = anchor-same spec anchor anchor_file parts at_anchor at_file in
      let listed =
        anchor-IsListed reader (files_of spec) (opaque_of spec) (get "file" parts.anchor)
          parts.sources parts.at_anchor in
      elim here [
        | inl is_anchor ↦
            inr (
              rw (is_anchor, anchor_range-file anchor anchor_file first at_first, same_file) listed)
        | inr is_callee ↦
            callee_ranges-IsListed spec rest parts
              (listed-ne_null (files_of spec) (opaque_of spec) (get "file" parts.anchor) listed)
              (subst (λ x. callee_ranges reader x (get_or (Value.obj end) "closure" spec) ≡ ok rest)
                same_file at_rest)
              r is_callee
      ]
