-- ===== src/Ledger/Artifact.antt =====
-- Executable artifacts and the two build-claim layouts: equivalent/ledger/artifacts.py.
use skateboard.Prelude.{
  ℕ, String, Bool, true, false, ◌&&◌, List, [], ◌∷◌, ◌++◌, map, Option, some, none, ◌==◌, string_eq,
  if◌then◌else◌, all, any, elem, not, nat_beq, distinct, unique,
}
use skateboard.Prelude.Text.{codes, str_leb}
use skateboard.Prelude.Sorting.{sort_by}
use skateboard.Errors.{Result, ok, raise, value_error, ◌>>=◌, ◌>>◌, ensure, traverse}
use skateboard.Ledger.Subject.{Subject, binary, is_digest}
use skateboard.Ledger.Value.{Value, pos, Fields, get, items, fields}

-- The parts of a POSIX path between its slashes.
unfoldable pub split_slash : List ℕ → List (List ℕ)
split_slash [] = [] ∷ []
split_slash (c ∷ cs) = elim (split_slash cs) [
  | [] ↦ []
  | part ∷ parts ↦ if nat_beq c b'/' then [] ∷ part ∷ parts else (c ∷ part) ∷ parts
]

abbrev is_dots : List ℕ → Bool
is_dots (c ∷ d ∷ []) = nat_beq c b'.' && nat_beq d b'.'
is_dots _ = false

-- A part that `PurePosixPath` keeps as it stands: neither empty nor a single dot.
abbrev is_kept : List ℕ → Bool
is_kept [] = false
is_kept (c ∷ []) = not (nat_beq c b'.')
is_kept (c ∷ d ∷ rest) = true

-- `_artifact_path`. A path is written as `PurePosixPath` writes it, and is neither absolute nor
-- ".", exactly when no part between its slashes is empty or ".".
unfoldable pub is_artifact_path : String → Bool
unfolding split_slash
is_artifact_path value =
    not (any (λ c. nat_beq c b'\\') (codes value))
    && all (λ part. is_kept part && not (is_dots part)) (split_slash (codes value))

unfoldable pub artifact_path : Value → Result String
unfolding is_artifact_path
artifact_path (Value.str s) = ensure (is_artifact_path s) (value_error "path") >>= λ _. ok s
artifact_path _ = raise (value_error "path")

pub record BinaryArtifact : Type 0 where
  pub executable : String
  pub sha256 : String
  pub size : Option ℕ

-- `isinstance(value, str) and value`
unfoldable pub text_of : Value → Result String
text_of (Value.str s) = if s == "" then raise (value_error "empty string") else ok s
text_of _ = raise (value_error "not a string")

unfoldable pub digest_of : Value → Result String
digest_of (Value.str s) = if is_digest s then ok s else raise (value_error "digest")
digest_of _ = raise (value_error "digest")

unfoldable pub size_of : Value → Result (Option ℕ)
size_of Value.null = ok none
size_of (Value.int (pos n)) = ok (some n)
size_of _ = raise (value_error "size")

-- `BinaryArtifact(...)` with the checks of `__post_init__`.
unfoldable pub make_binary : Value → Value → Value → Result BinaryArtifact
unfolding text_of digest_of size_of
make_binary executable sha256 size = do
  e ← text_of executable
  d ← digest_of sha256
  n ← size_of size
  ok (record { executable = e; sha256 = d; size = n })

pub record BuildArtifact : Type 0 where
  pub path : String
  pub kind : String
  pub sha256 : String
  pub size : Option ℕ

unfoldable pub make_artifact : Value → Value → Value → Value → Result BuildArtifact
unfolding artifact_path make_binary
make_artifact path kind sha256 size = do
  k ← text_of kind
  ensure (elem k ("executable" ∷ "shared_library" ∷ "gpu_module" ∷ [])) (value_error "kind")
  p ← artifact_path path
  b ← make_binary path sha256 size
  ok (record { path = p; kind = k; sha256 = b.sha256; size = b.size })

abbrev pub binary_artifact : BuildArtifact → BinaryArtifact
binary_artifact a = record { executable = a.path; sha256 = a.sha256; size = a.size }

pub record BuildTarget : Type 0 where
  pub role : String
  pub executable : String
  pub sha256 : String
  pub size : Option ℕ
  pub runtime_artifacts : List BuildArtifact

-- `BuildTarget.artifacts`
abbrev pub artifacts : BuildTarget → List BuildArtifact
artifacts t =
    record { path = t.executable; kind = "executable"; sha256 = t.sha256; size = t.size }
    ∷ t.runtime_artifacts

-- `BuildTarget(...)` with the checks of `__post_init__`.
unfoldable pub make_target :
    String → Value → Value → Value → List BuildArtifact → Result BuildTarget
unfolding artifact_path make_binary
make_target role executable sha256 size runtime = do
  ensure (not (role == "")) (value_error "role")
  e ← artifact_path executable
  b ← make_binary executable sha256 size
  ensure (distinct (map (λ a. a.path) runtime)) (value_error "runtime artifact paths")
  ensure (not (elem e (map (λ a. a.path) runtime))) (value_error "executable as runtime artifact")
  ok (record {
    role = role;
    executable = e;
    sha256 = b.sha256;
    size = b.size;
    runtime_artifacts = runtime;
  })

pub record BuildRecord : Type 0 where
  pub attempt_id : String
  pub targets : List BuildTarget

abbrev target_artifacts : List BuildTarget → List BinaryArtifact
target_artifacts [] = []
target_artifacts (t ∷ ts) = map binary_artifact (artifacts t) ++ target_artifacts ts

-- `BuildRecord.binary_artifacts`
abbrev pub binary_artifacts : BuildRecord → List BinaryArtifact
binary_artifacts r = target_artifacts r.targets

unfoldable pub decode_artifact : Value → Result BuildArtifact
unfolding get make_artifact
decode_artifact (Value.obj a) =
    make_artifact (get "path" a) (get "kind" a) (get "sha256" a) (get "size" a)
decode_artifact _ = raise (value_error "runtime artifact")

-- `target.get("runtime_artifacts", [])`: a key that is there with null is no list.
unfoldable pub has_key : String → Fields → Bool
has_key key Fields.end = false
has_key key (Fields.field k v rest) =
    let later = has_key key rest in if key == k then true else later

unfoldable pub decode_runtime : Bool → Value → Result (List BuildArtifact)
unfolding decode_artifact
decode_runtime false _ = ok []
decode_runtime true (Value.arr vs) = traverse decode_artifact (items vs)
decode_runtime true _ = raise (value_error "runtime_artifacts")

unfoldable pub decode_target : (String × Value) → Result BuildTarget
unfolding decode_runtime get make_target has_key
decode_target (role, Value.obj t) = do
  runtime ← decode_runtime (has_key "runtime_artifacts" t) (get "runtime_artifacts" t)
  make_target role (get "executable" t) (get "sha256" t) (get "size" t) runtime
decode_target (role, _) = raise (value_error "target")

abbrev entry_le : (String × Value) → (String × Value) → Bool
entry_le a b = str_leb a.0 b.0

unfoldable pub build_record : Value → Value → Result BuildRecord
unfolding decode_target sort_by
build_record attempt_id (Value.obj targets) = do
  ensure (all (λ e. not (e.0 == "")) (fields targets)) (value_error "roles")
  decoded ← traverse decode_target (sort_by entry_le (fields targets))
  a ← text_of attempt_id
  ok (record { attempt_id = a; targets = decoded })
build_record attempt_id _ = raise (value_error "targets")

-- One strategy's entry of a `harness/builds` claim.
unfoldable pub decode_strategy : (String × Value) → Result BuildRecord
unfolding build_record get
decode_strategy (_, Value.obj entry) = build_record (get "attempt_id" entry) (get "targets" entry)
decode_strategy (_, _) = raise (value_error "strategy")

abbrev strategies_of : Value → Result (List BuildRecord)
strategies_of (Value.obj s) = traverse decode_strategy (sort_by entry_le (fields s))
strategies_of _ = ok []

abbrev or_nothing : {A : Type 0} → Result (List A) → List A
or_nothing (ok xs) = xs
or_nothing (raise e) = []

-- `decode_build_records`
unfoldable pub decode_build_records : String → Value → List BuildRecord
unfolding decode_strategy
decode_build_records predicate_type (Value.obj detail) =
    if predicate_type == "build/replay"
    then or_nothing (traverse (build_record (get "attempt_id" detail)) (get "targets" detail ∷ []))
    else if predicate_type == "harness/builds"
    then or_nothing (strategies_of (get "strategies" detail))
    else []
decode_build_records predicate_type _ = []

-- `materials_for_artifacts`: each digest once, in the order of the digests.
unfoldable pub materials_for_artifacts : List BinaryArtifact → List Subject
unfolding sort_by
materials_for_artifacts found =
    map (λ d. record { kind = binary; sha256 = d })
      (sort_by str_leb (unique (map (λ a. a.sha256) found)))

abbrev pub records_artifacts : List BuildRecord → List BinaryArtifact
records_artifacts [] = []
records_artifacts (r ∷ rs) = binary_artifacts r ++ records_artifacts rs

-- `build_binary_materials`
unfoldable pub build_binary_materials : String → Value → List Subject
unfolding materials_for_artifacts decode_build_records
build_binary_materials predicate_type detail =
    materials_for_artifacts (records_artifacts (decode_build_records predicate_type detail))
