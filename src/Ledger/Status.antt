-- ===== src/Ledger/Status.antt =====
-- A region's status: equivalent/ledger/status.py.
pub mod Requirement
pub mod Accepted
use skateboard.Prelude.{
  ℕ, String, Bool, true, false, ◌&&◌, List, [], ◌∷◌, ◌++◌, map, Option, some, none, ◌==◌, string_eq,
  if◌then◌else◌, all, any, elem, filter, lookup, is_some,
}
use skateboard.Prelude.Text.{str_leb}
use skateboard.Prelude.Sorting.{sort_by}
use skateboard.Errors.{Result, ok, raise, value_error, key_error, ◌>>=◌, traverse}
use skateboard.Ledger.Subject.{Subject, Kind, kind_eq, subject_eq}
use skateboard.Ledger.Record.{Claim}
use skateboard.Ledger.Acceptance
use skateboard.Ledger.Workflow.{finished_word}
use skateboard.Ledger.Evidence.{claim_matches_context}
use skateboard.Ledger.Store.{LedgerStore, latest, latest_unchecked, claims_for, list_trees}
use skateboard.Ledger.Cohort.{required_materials_by_predicate}

-- One row of the answer. The producing action is shown beside a missing row.
pub data Row : Type 0 where
  -- a passing claim: the predicate type, its verdict and the claim's id
  present : String → String → String → Row
  -- the latest current claim did not pass
  failing : String → String → String → Option String → Row
  -- there is history, reached under another context
  stale : String → String → String → Option String → Row
  missing : String → Option String → Row

abbrev pub is_present : Row → Bool
is_present (present p v i) = true
is_present _ = false

abbrev row_verdict : Row → Option String
row_verdict (present p v i) = some v
row_verdict (failing p v i a) = some v
row_verdict (stale p v i a) = some v
row_verdict (missing p a) = none

abbrev pub row_type : Row → String
row_type (present p v i) = p
row_type (failing p v i a) = p
row_type (stale p v i a) = p
row_type (missing p a) = p

abbrev history_row : String → Option String → Option Claim → Row
history_row predicate_type action none = missing predicate_type action
history_row predicate_type action (some old) =
    stale predicate_type old.predicate.verdict old.id action

abbrev claim_row : String → Option String → Option Claim → Option Claim → Row
claim_row predicate_type action (some c) old =
    if c.predicate.verdict == "pass"
    then present predicate_type c.predicate.verdict c.id
    else failing predicate_type c.predicate.verdict c.id action
claim_row predicate_type action none old = history_row predicate_type action old

unfoldable pub requirement_status :
    LedgerStore → String → Option Subject → Option String → List Subject → Row
unfolding latest latest_unchecked
requirement_status store predicate_type none action required_materials =
    claim_row predicate_type action none none
requirement_status store predicate_type (some subject) action required_materials =
    claim_row predicate_type action (latest predicate_type subject required_materials store)
      (latest_unchecked predicate_type subject store)

-- `_subject_of_kind`
unfoldable pub subject_of_kind : String → Option Subject → Option Subject → Result (Option Subject)
subject_of_kind kind tree frozen =
    if kind == "tree"
    then ok tree
    else if kind == "frozen"
    then ok frozen
    else raise (value_error "unknown subject kind")

-- `_current_subject`: the loop over the claims, with the best timestamp and subject so far.
abbrev best_of_subjects :
    Kind → String → List Subject → Option (String × Subject) → Option (String × Subject)
best_of_subjects kind ts [] best = best
best_of_subjects kind ts (s ∷ rest) none =
    best_of_subjects kind ts rest (if s.kind == kind then some (ts, s) else none)
best_of_subjects kind ts (s ∷ rest) (some (best_ts, t)) =
    best_of_subjects kind ts rest
      (if s.kind == kind && str_leb best_ts ts then some (ts, s) else some (best_ts, t))

abbrev best_of_claims : Kind → List Claim → Option (String × Subject) → Option (String × Subject)
best_of_claims kind [] best = best
best_of_claims kind (c ∷ cs) best =
    best_of_claims kind cs (best_of_subjects kind c.ts c.subject best)

unfoldable pub current_subject : LedgerStore → Kind → Option Subject
current_subject store kind = elim (best_of_claims kind store.claims none) [
  | none ↦ none
  | some (ts, s) ↦ some s
]

pub record Status : Type 0 where
  pub tree : Option Subject
  pub frozen : Option Subject
  pub phase : String
  pub rows : List Row
  pub accepted : Bool
  pub context_verified : Bool
  pub finished_word : String

-- `row["status"] == "present" and row["verdict"] == "pass"`
abbrev pub row_passes : Row → Bool
row_passes (present p v i) = v == "pass"
row_passes _ = false

-- `d.get(key, default)`
abbrev pub get_or : List Subject → Option (List Subject) → List Subject
get_or default none = default
get_or default (some ms) = ms

abbrev pub or_else : {A : Type 0} → Option A → Option A → Option A
or_else (some a) b = some a
or_else none b = b

unfoldable pub requirement_rows :
    LedgerStore
    → List Subject
    → List (String × List Subject)
    → Option Subject
    → Option Subject
    → List Acceptance.Requirement
    → Result (List Row)
unfolding requirement_status subject_of_kind
requirement_rows store required_materials by_predicate tree frozen [] = ok []
requirement_rows store required_materials by_predicate tree frozen (req ∷ rest) = do
  subject ← subject_of_kind req.subject_kind tree frozen
  rows ← requirement_rows store required_materials by_predicate tree frozen rest
  ok (
      requirement_status store req.predicate_type subject (some req.producing_action)
        (get_or required_materials (lookup req.predicate_type by_predicate))
      ∷ rows)

-- `FINISHED_WORD[phase]`
abbrev pub word_of : String → Result String
word_of phase = elim (finished_word phase) [
  | none ↦ raise (key_error "finished word")
  | some word ↦ ok word
]

module _ (hash_text : String → String) where
  -- The map that is derived where no tree is known, or none is given.
  abbrev materials_map :
      LedgerStore
      → List Acceptance.Requirement
      → String
      → Option Subject
      → List Subject
      → Option Subject
      → List (String × List Subject)
  materials_map store requirements phase none core baseline_tree = []
  materials_map store requirements phase (some tree) core baseline_tree =
      required_materials_by_predicate hash_text store requirements phase tree core baseline_tree

  -- `compute_status`, with `required_materials_by_predicate` left out by the caller.
  unfoldable pub compute_status :
      LedgerStore
      → List Acceptance.Requirement
      → String
      → Option Subject
      → Option Subject
      → Option Subject
      → List Subject
      → Bool
      → Result Status
  unfolding current_subject requirement_rows required_materials_by_predicate
  compute_status store requirements phase tree₀ frozen₀ baseline_tree core context_verified =
      let tree₁ = or_else tree₀ (current_subject store Kind.tree) in
      let frozen₁ = or_else frozen₀ (current_subject store Kind.frozen) in
      let by_predicate = materials_map store requirements phase tree₁ core baseline_tree in
      requirement_rows store core by_predicate tree₁ frozen₁ requirements >>= λ rows.
      word_of phase >>= λ word. ok (record {
        tree = tree₁;
        frozen = frozen₁;
        phase = phase;
        rows = rows;
        accepted = context_verified && (is_some tree₁ && all row_passes rows);
        context_verified = context_verified;
        finished_word = word;
      })

-- The latest verdict for each predicate type and subject, as the loop of `accepted_by` leaves it.
abbrev pub Verdicts : Type 0
Verdicts = List (String × Subject × String)

abbrev note_subjects : String → String → List Subject → Verdicts → Verdicts
note_subjects predicate_type verdict [] known = known
note_subjects predicate_type verdict (s ∷ ss) known =
    note_subjects predicate_type verdict ss ((predicate_type, s, verdict) ∷ known)

-- A later claim's verdict stands before an earlier one's.
unfoldable pub note_claims : List Subject → List Claim → Verdicts → Verdicts
unfolding claim_matches_context
note_claims required_materials [] known = known
note_claims required_materials (c ∷ cs) known = note_claims required_materials cs (
    if claim_matches_context c required_materials
    then note_subjects c.predicate_type c.predicate.verdict c.subject known
    else known)

unfoldable pub latest_verdict : String → Subject → Verdicts → Option String
latest_verdict predicate_type s [] = none
latest_verdict predicate_type s ((p, t, v) ∷ rest) =
    let older = latest_verdict predicate_type s rest in
    if p == predicate_type && t == s then some v else older

abbrev subjects_noted : Kind → Verdicts → List Subject
subjects_noted kind [] = []
subjects_noted kind ((p, s, v) ∷ rest) =
    let others = subjects_noted kind rest in if s.kind == kind then s ∷ others else others

-- `_subjects_of_kind`, as a set: the order of the frozen subjects decides nothing here.
unfoldable pub subjects_of_kind : String → Subject → List Subject → Result (List Subject)
subjects_of_kind kind tree frozen =
    if kind == "tree"
    then ok (tree ∷ [])
    else if kind == "frozen"
    then ok frozen
    else raise (value_error "unknown subject kind")

abbrev passes : Verdicts → String → Subject → Bool
passes known predicate_type s = elim (latest_verdict predicate_type s known) [
  | none ↦ false
  | some v ↦ v == "pass"
]

-- `all(any(...) for req in requirements)`, which stops at the first requirement that is not met.
unfoldable pub tree_meets :
    Verdicts → List Subject → List Acceptance.Requirement → Subject → Result Bool
unfolding subjects_of_kind latest_verdict
tree_meets known frozen [] tree = ok true
tree_meets known frozen (req ∷ rest) tree =
    let later = tree_meets known frozen rest tree in
    subjects_of_kind req.subject_kind tree frozen >>= λ subjects.
    (if any (passes known req.predicate_type) subjects then later else ok false)

unfoldable pub any_tree_meets :
    Verdicts → List Subject → List Acceptance.Requirement → List Subject → Result Bool
unfolding tree_meets
any_tree_meets known frozen reqs [] = ok false
any_tree_meets known frozen reqs (t ∷ ts) =
    let later = any_tree_meets known frozen reqs ts in
    tree_meets known frozen reqs t >>= λ met. (if met then ok true else later)

-- `accepted_by`
unfoldable pub accepted_by : List Claim → List Acceptance.Requirement → List Subject → Result Bool
unfolding note_claims any_tree_meets
accepted_by claims reqs required_materials =
    let known = note_claims required_materials claims [] in
    any_tree_meets known (subjects_noted Kind.frozen known) reqs (subjects_noted Kind.tree known)

-- One entry of `compute_history`.
pub record History : Type 0 where
  pub tree : String
  -- predicate type, verdict, claim id and timestamp
  pub claims : List (String × String × String × String)

unfoldable pub compute_history : LedgerStore → List History
unfolding list_trees claims_for
compute_history store =
    map
      (λ sha256. record {
        tree = sha256;
        claims =
            map (λ c. (c.predicate_type, c.predicate.verdict, c.id, c.ts))
              (claims_for (record { kind = Kind.tree; sha256 = sha256 }) store);
      })
      (list_trees store)
