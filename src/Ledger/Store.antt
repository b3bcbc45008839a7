-- ===== src/Ledger/Store.antt =====
-- The ledger store: equivalent/ledger/store.py. The state is what the region's directory holds:
-- the claims and the requests in file order, the blobs and the packed sets by content hash.
-- The file locks, the temporary file of an atomic write and the parse cache are not modelled: an
-- operation here is one critical section.
pub mod Ids
pub mod Fresh
pub mod Queries
pub mod Growth
use skateboard.Prelude.{
  ℕ, String, Bool, true, false, ◌&&◌, ◌||◌, List, [], ◌∷◌, ◌++◌, Option, some, none, ◌==◌,
  string_eq, if◌then◌else◌, elem, filter, find, last?, lookup, is_some,
}
use skateboard.Prelude.Text.{str_leb}
use skateboard.Prelude.Sorting.{sort_by}
use skateboard.Errors.{Result, ok, raise}
use skateboard.Ledger.Subject.{Subject, Kind, kind_eq, subject_eq, tree}
use skateboard.Ledger.Record.{Predicate, Claim, RequestLogLine, schema_version}
use skateboard.Ledger.Acceptance
use skateboard.Ledger.Evidence.{claim_matches_context}
use skateboard.Ledger.Store.Ids.{next_claim_id}

pub record LedgerStore : Type 0 where
  pub claims : List Claim
  pub requests : List RequestLogLine
  -- what `put_artifact` wrote
  pub artifacts : List (String × List ℕ)
  -- the directory that each packed set was moved from
  pub capture_sets : List (String × String)

-- packed.py
pub data Packed : Type 0 where
  packed_set : String → String → Packed
  packed_artifact : String → List ℕ → Packed

-- `append_claim`
unfoldable pub append_claim : Claim → LedgerStore → LedgerStore
append_claim claim s = record s { claims = s.claims ++ claim ∷ [] }

abbrev pub new_claim :
    String → List Subject → String → Predicate → List Subject → String → LedgerStore → Claim
new_claim now subject predicate_type predicate materials session s = record {
  id = next_claim_id s.claims;
  ts = now;
  subject = subject;
  predicate_type = predicate_type;
  predicate = predicate;
  materials = materials;
  session = session;
  version = schema_version;
}

-- `record_claim`, at the time `now`: an unregistered predicate type raises before anything is
-- written.
unfoldable pub record_claim :
    String
    → List Subject
    → String
    → Predicate
    → List Subject
    → String
    → LedgerStore
    → Result (Claim × LedgerStore)
unfolding append_claim
record_claim now subject predicate_type predicate materials session s =
    let claim = new_claim now subject predicate_type predicate materials session s in
    elim (Acceptance.get predicate_type) [
      | raise e ↦ raise e
      | ok _ ↦ ok (claim, append_claim claim s)
    ]

unfoldable pub append_request : RequestLogLine → LedgerStore → LedgerStore
append_request line s = record s { requests = s.requests ++ line ∷ [] }

-- `put_artifact`: writing the same hash twice is a no-op.
unfoldable pub put_artifact : String → List ℕ → LedgerStore → LedgerStore
put_artifact sha256 bytes s =
    if is_some (lookup sha256 s.artifacts)
    then s
    else record s { artifacts = s.artifacts ++ (sha256, bytes) ∷ [] }

-- `keep`
unfoldable pub keep : Packed → LedgerStore → LedgerStore
unfolding put_artifact
keep (packed_artifact sha256 bytes) s = put_artifact sha256 bytes s
keep (packed_set sha256 directory) s =
    if is_some (lookup sha256 s.capture_sets)
    then s
    else record s { capture_sets = s.capture_sets ++ (sha256, directory) ∷ [] }

unfoldable pub get_claim : String → LedgerStore → Option Claim
get_claim claim_id s = find (λ c. c.id == claim_id) s.claims

unfoldable pub claims_for : Subject → LedgerStore → List Claim
claims_for subject s = filter (λ c. elem subject c.subject) s.claims

abbrev pub ts_le : Claim → Claim → Bool
ts_le a b = str_leb a.ts b.ts

-- `sorted(matches, key=lambda c: c.ts)[-1] if matches else None`
unfoldable pub newest_of : List Claim → Option Claim
unfolding sort_by
newest_of matches = last? (sort_by ts_le matches)

-- What `latest` asks of a claim.
abbrev pub is_current : String → Subject → List Subject → Claim → Bool
is_current predicate_type subject required_materials c =
    c.predicate_type == predicate_type
    && (elem subject c.subject && claim_matches_context c required_materials)

-- `latest`; no caller gives a `config_hash`.
unfoldable pub latest : String → Subject → List Subject → LedgerStore → Option Claim
unfolding newest_of claim_matches_context
latest predicate_type subject required_materials s =
    newest_of (filter (is_current predicate_type subject required_materials) s.claims)

unfoldable pub latest_unchecked : String → Subject → LedgerStore → Option Claim
unfolding newest_of
latest_unchecked predicate_type subject s =
    newest_of (filter (λ c. c.predicate_type == predicate_type && elem subject c.subject) s.claims)

-- What `find_duplicate` asks of a claim.
abbrev pub is_duplicate : String → Subject → String → List Subject → Claim → Bool
is_duplicate predicate_type subject config_hash required_materials c =
    c.predicate_type == predicate_type
    && (elem subject c.subject
        && (c.predicate.config_hash == config_hash && claim_matches_context c required_materials))

unfoldable pub find_duplicate :
    String → Subject → String → List Subject → LedgerStore → Option Claim
unfolding claim_matches_context
find_duplicate predicate_type subject config_hash required_materials s =
    last? (filter (is_duplicate predicate_type subject config_hash required_materials) s.claims)

abbrev add_trees : List Subject → List String → List String
add_trees [] seen = seen
add_trees (t ∷ ts) seen = add_trees ts (
    if t.kind == tree && (if elem t.sha256 seen then false else true)
    then seen ++ t.sha256 ∷ []
    else seen)

abbrev trees_from : List Claim → List String → List String
trees_from [] seen = seen
trees_from (c ∷ cs) seen = trees_from cs (add_trees c.subject seen)

unfoldable pub list_trees : LedgerStore → List String
list_trees s = trees_from s.claims []
