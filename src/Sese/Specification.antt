-- ===== src/Sese/Specification.antt =====
-- `spec_problems` and `ranges_to_scan` of equivalent/analyzers/check_sese.py: the region
-- specification as its YAML reads, and the line ranges that it declares.
pub mod Problems
pub mod Listed
use skateboard.Prelude.{
  ℕ, String, Bool, true, false, ◌&&◌, ◌||◌, not, List, [], ◌∷◌, ◌++◌, map, Option, some, none,
  if◌then◌else◌, any, all, filter, elem, distinct, is_some, nat_beq, ◌==◌, string_eq,
}
use skateboard.Prelude.Text.{codes}
use skateboard.Errors.{
  Result, ok, raise, Error, value_error, key_error, type_error, attribute_error, ◌>>=◌, ◌>>◌,
  ensure, traverse,
}
use skateboard.Region.Glob.{Text}
use skateboard.Ledger.FileSet.{text_eq}
use skateboard.Ledger.Artifact.{is_artifact_path}
use skateboard.Ledger.Value.{
  Value, Fields, Items, Integer, end, field, get, items, find_key, as_mapping,
}

pub data SpecProblem : Type 0 where
  spec_not_a_mapping no_files unsafe_source duplicate_path bad_opaque_sources : SpecProblem
  opaque_not_foreign anchor_not_a_mapping no_anchor_file anchor_not_listed : SpecProblem
  opaque_anchor closure_not_a_mapping callees_not_a_list callee_without_name : SpecProblem
  opaque_callee callee_not_listed : SpecProblem

-- What the standard library answers. `equal` is `==` on values of which at most one is a string.
pub record Reader : Type 0 where
  pub casefold : Text → Text
  -- `PurePosixPath(p).suffix.lower()`
  pub suffix : String → Text
  pub equal : Value → Value → Bool
  -- `re.fullmatch(r"\s*(.+?)@(\d+)-(\d+)\s*", str(node))`
  pub node_match : Value → Option (Text × ℕ × ℕ)
  -- the numbers of `re.fullmatch(r"\s*(\d+)\s*-\s*(\d+)\s*", str(spec))`
  pub range_match : Value → Option (ℕ × ℕ)

-- `d.get(key, default)`
unfoldable pub get_or : Value → String → Fields → Value
unfolding find_key
get_or default key d = elim (find_key key d) [ none ↦ default | some v ↦ v ]

abbrev pub no_items : Value
no_items = Value.arr Items.nil

-- `_safe_relative_path`. A path that `PurePosixPath` writes as it stands, with no part "..", is one
-- that `is_artifact_path` takes, or is ".".
unfoldable pub safe_relative_path : Value → Bool
unfolding is_artifact_path
safe_relative_path (Value.str s) = is_artifact_path s || s == "."
safe_relative_path _ = false

-- `[file for file in files if isinstance(file, str)]`
unfoldable pub strings : List Value → List String
strings [] = []
strings (Value.str s ∷ rest) = s ∷ strings rest
strings (_ ∷ rest) = strings rest

abbrev pub fortran_suffixes : List Text
fortran_suffixes =
    codes ".f90"
    ∷ codes ".f95"
    ∷ codes ".f08"
    ∷ codes ".f03"
    ∷ codes ".f"
    ∷ codes ".for"
    ∷ codes ".inc"
    ∷ []

-- `if condition: problems.append(problem)`
abbrev pub when : Bool → SpecProblem → List SpecProblem
when true problem = problem ∷ []
when false problem = []

-- `isinstance(opaque, list) and all(_safe_relative_path(p) for p in opaque)`
unfoldable pub opaque_paths : Value → Option (List String)
unfolding safe_relative_path strings
opaque_paths (Value.arr paths) =
    if all safe_relative_path (items paths) then some (strings (items paths)) else none
opaque_paths _ = none

-- `opaque`, which is emptied where `opaque_sources` is no list of safe paths
unfoldable pub opaque_of : Fields → List String
unfolding opaque_paths get_or
opaque_of spec = elim (opaque_paths (get_or no_items "opaque_sources" spec)) [
  | none ↦ []
  | some opaque ↦ opaque
]

-- `set(xs) == set(ys)`
unfoldable pub same_set : List String → List String → Bool
same_set xs ys = all (λ x. elem x ys) xs && all (λ y. elem y xs) ys

-- `not value`
unfoldable pub is_falsy : Value → Bool
is_falsy Value.null = true
is_falsy (Value.bool b) = not b
is_falsy (Value.int (Integer.pos n)) = nat_beq n 0
is_falsy (Value.int (Integer.negsuc n)) = false
is_falsy (Value.float s) = s == "0.0" || s == "-0.0"
is_falsy (Value.str s) = s == ""
is_falsy (Value.arr Items.nil) = true
is_falsy (Value.arr (Items.cons v vs)) = false
is_falsy (Value.obj end) = true
is_falsy (Value.obj (field k v rest)) = false

-- `value is None`
abbrev pub is_null : Value → Bool
is_null Value.null = true
is_null _ = false

abbrev pub as_list : Value → Option (List Value)
as_list (Value.arr vs) = some (items vs)
as_list _ = none

module _ (reader : Reader) where
  -- `a == b`
  unfoldable pub same : Value → Value → Bool
  same (Value.str a) (Value.str b) = a == b
  same (Value.str a) other = false
  same other (Value.str b) = false
  same a b = reader.equal a b

  unfoldable pub is_in : Value → List Value → Bool
  unfolding same
  is_in value values = any (same value) values

  unfoldable pub foreign : List String → List String
  foreign files = filter (λ p. not (elem (reader.suffix p) fortran_suffixes)) files

  unfoldable pub source_problems : List Value → List SpecProblem
  unfolding safe_relative_path strings
  source_problems files =
      map (λ f. unsafe_source) (filter (λ f. not (safe_relative_path f)) files)
      ++ when (not (distinct (strings files))) duplicate_path

  unfoldable pub opaque_problems : Fields → List Value → List SpecProblem
  unfolding opaque_paths opaque_of get_or foreign same_set strings
  opaque_problems spec files =
      let opaque = opaque_of spec in
      when (not (is_some (opaque_paths (get_or no_items "opaque_sources" spec)))) bad_opaque_sources
      ++ when (not (same_set opaque (foreign (strings files))) || not (distinct opaque))
          opaque_not_foreign

  unfoldable pub anchor_problems : List Value → List String → Value → List SpecProblem
  unfolding is_in
  anchor_problems files opaque anchor_file =
      (if is_null anchor_file
        then no_anchor_file ∷ []
        else when (not (is_in anchor_file files)) anchor_not_listed)
      ++ when (is_in anchor_file (map Value.str opaque)) opaque_anchor

  unfoldable pub callee_problems : List Value → List String → Value → Value → List SpecProblem
  unfolding is_in get_or find_key
  callee_problems files opaque anchor_file (Value.obj callee) =
      let file = get_or anchor_file "file" callee in
      if not (is_some (find_key "name" callee))
      then callee_without_name ∷ []
      else when (is_in file (map Value.str opaque)) opaque_callee
        ++ when (not (is_null file) && not (is_in file files)) callee_not_listed
  callee_problems files opaque anchor_file _ = callee_without_name ∷ []

  unfoldable pub each_callee : List Value → List String → Value → List Value → List SpecProblem
  unfolding callee_problems
  each_callee files opaque anchor_file [] = []
  each_callee files opaque anchor_file (callee ∷ callees) =
      callee_problems files opaque anchor_file callee
      ++ each_callee files opaque anchor_file callees

  -- The problems of the closure, once the anchor is a mapping.
  unfoldable pub closure_problems : Fields → List Value → List String → Value → List SpecProblem
  unfolding is_falsy get_or each_callee get
  closure_problems spec files opaque anchor_file =
      let value = get "closure" spec in
      elim (as_mapping (if is_falsy value then Value.obj end else value)) [
        | none ↦ closure_not_a_mapping ∷ []
        | some closure ↦ elim (as_list (get_or no_items "callees" closure)) [
          | none ↦ callees_not_a_list ∷ []
          | some callees ↦ each_callee files opaque anchor_file callees
        ]
      ]

  -- The problems of a mapping whose files are listed.
  unfoldable pub listed_problems : Fields → List Value → List SpecProblem
  unfolding source_problems opaque_problems opaque_of anchor_problems closure_problems get
  listed_problems spec files =
      let opaque = opaque_of spec in
      source_problems files ++ opaque_problems spec files ++ elim (as_mapping (get "anchor" spec)) [
        | none ↦ anchor_not_a_mapping ∷ []
        | some anchor ↦
            let anchor_file = get "file" anchor in
            anchor_problems files opaque anchor_file
            ++ closure_problems spec files opaque anchor_file
      ]

  unfoldable pub spec_problems : Value → List SpecProblem
  unfolding listed_problems get
  spec_problems value = elim (as_mapping value) [
    | none ↦ spec_not_a_mapping ∷ []
    | some spec ↦ elim (as_list (get "files" spec)) [
      | none ↦ no_files ∷ []
      | some [] ↦ no_files ∷ []
      | some (first ∷ more) ↦ listed_problems spec (first ∷ more)
    ]
  ]

-- One range to scan. The symbol is the label.
pub record Range : Type 0 where
  pub file : Value
  pub lo : ℕ
  pub hi : ℕ
  pub label : Value

-- `d[key]`
unfoldable pub item_of : String → Value → Result Value
unfolding find_key
item_of key value = elim (as_mapping value) [
  | none ↦ raise (type_error key)
  | some d ↦ elim (find_key key d) [ none ↦ raise (key_error key) | some v ↦ ok v ]
]

-- `value.get(key, default)`
unfoldable pub get_of : Value → String → Value → Result Value
unfolding get_or
get_of default key value = elim (as_mapping value) [
  | none ↦ raise (attribute_error key)
  | some d ↦ ok (get_or default key d)
]

-- `for callee in callees`, which a specification without problems does over a list
unfoldable pub elements : Value → Result (List Value)
elements value = elim (as_list value) [ none ↦ raise (type_error "callees") | some vs ↦ ok vs ]

unfoldable pub found_or : {A : Type 0} → String → Option A → Result A
found_or what none = raise (value_error what)
found_or what (some a) = ok a

-- A string that is not empty.
unfoldable pub symbol_of : Value → Result String
symbol_of (Value.str s) = if s == "" then raise (value_error "entry_symbol") else ok s
symbol_of _ = raise (value_error "entry_symbol")

module _ (reader : Reader) where
  unfoldable pub anchor_range : Value → Value → Result Range
  unfolding get_of symbol_of found_or
  anchor_range anchor anchor_file = do
    node ← get_of (Value.str "") "pst_node" anchor
    (name, lo, hi) ← found_or "pst_node" (reader.node_match node)
    value ← get_of Value.null "entry_symbol" anchor
    label ← symbol_of value
    ensure (reader.casefold name == reader.casefold (codes label))
        (value_error "pst_node must name entry_symbol exactly")
    ok (record { file = anchor_file; lo = lo; hi = hi; label = Value.str label })

  unfoldable pub callee_range : Value → Value → Result Range
  unfolding item_of get_of found_or
  callee_range anchor_file callee = do
    lines ← item_of "lines" callee
    (lo, hi) ← found_or "line range" (reader.range_match lines)
    file ← get_of anchor_file "file" callee
    label ← item_of "name" callee
    ok (record { file = file; lo = lo; hi = hi; label = label })

  -- The ranges of `for callee in closure.get("callees", [])`.
  unfoldable pub callee_ranges : Value → Value → Result (List Range)
  unfolding get_of elements callee_range
  callee_ranges anchor_file closure = do
    value ← get_of no_items "callees" closure
    callees ← elements value
    traverse (callee_range anchor_file) callees

  unfoldable pub ranges_to_scan : Value → Result (List Range)
  unfolding item_of get_of anchor_range callee_ranges
  ranges_to_scan spec = do
    anchor ← item_of "anchor" spec
    anchor_file ← item_of "file" anchor
    first ← anchor_range anchor anchor_file
    closure ← get_of (Value.obj end) "closure" spec
    rest ← callee_ranges anchor_file closure
    ok (first ∷ rest)
