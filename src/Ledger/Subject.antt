-- ===== src/Ledger/Subject.antt =====
-- What a claim or artifact is about: equivalent/ledger/subjects.py, `Subject` and `is_digest`.
use skateboard.Prelude.{
  ℕ, String, ◌≡◌, refl, ◌↔◌, Bool, true, ◌&&◌, ◌||◌, List, [], ◌∷◌, Option, none, some, arith, leb,
  nat_beq, all, length, Eq, ◌==◌, string_eq, if◌then◌else◌, nat_beq_iff, sym, ap, ◌∙◌,
}
use skateboard.Prelude.Text.{codes}
use skateboard.Errors.{value_error, Result, ok, raise}

-- `SUBJECT_KINDS`
pub data Kind : Type 0 where
  tree frozen capture_set strategy manifest binary outputs policy : Kind
  evidence_policy reference executor oracle timing_claim : Kind

unfoldable pub kind_name : Kind → String
kind_name tree = "tree"
kind_name frozen = "frozen"
kind_name capture_set = "capture_set"
kind_name strategy = "strategy"
kind_name manifest = "manifest"
kind_name binary = "binary"
kind_name outputs = "outputs"
kind_name policy = "policy"
kind_name evidence_policy = "evidence_policy"
kind_name reference = "reference"
kind_name executor = "executor"
kind_name oracle = "oracle"
kind_name timing_claim = "timing_claim"

abbrev kinds : List Kind
kinds =
    tree ∷ frozen ∷ capture_set ∷ strategy ∷ manifest ∷ binary ∷ outputs ∷ policy ∷ evidence_policy
    ∷ reference ∷ executor ∷ oracle ∷ timing_claim ∷ []

kind_among : String → List Kind → Option Kind
kind_among s [] = none
kind_among s (k ∷ ks) = let rest = kind_among s ks in if s == kind_name k then some k else rest

-- `kind in SUBJECT_KINDS`, with the kind that the name stands for
unfoldable pub kind_of : String → Option Kind
unfolding kind_among kind_name
kind_of s = kind_among s kinds

abbrev kind_index : Kind → ℕ
kind_index tree = 0
kind_index frozen = 1
kind_index capture_set = 2
kind_index strategy = 3
kind_index manifest = 4
kind_index binary = 5
kind_index outputs = 6
kind_index policy = 7
kind_index evidence_policy = 8
kind_index reference = 9
kind_index executor = 10
kind_index oracle = 11
kind_index timing_claim = 12

abbrev kind_beq : Kind → Kind → Bool
kind_beq a b = nat_beq (kind_index a) (kind_index b)

abbrev kind_at : ℕ → Kind
kind_at n =
    if nat_beq n 0
    then tree
    else if nat_beq n 1
    then frozen
    else if nat_beq n 2
    then capture_set
    else if nat_beq n 3
    then strategy
    else if nat_beq n 4
    then manifest
    else if nat_beq n 5
    then binary
    else if nat_beq n 6
    then outputs
    else if nat_beq n 7
    then policy
    else if nat_beq n 8
    then evidence_policy
    else if nat_beq n 9
    then reference
    else if nat_beq n 10
    then executor
    else if nat_beq n 11
    then oracle
    else timing_claim

kind_at-kind_index : (k : Kind) → kind_at (kind_index k) ≡ k
kind_at-kind_index tree = refl
kind_at-kind_index _ = refl

pub kind_beq_iff : (a b : Kind) → (kind_beq a b ≡ true) ↔ (a ≡ b)
kind_beq_iff a b = (
  λ h. sym (kind_at-kind_index a) ∙ ap kind_at ((nat_beq_iff _ _).0 h) ∙ kind_at-kind_index b,
  λ e. (nat_beq_iff _ _).1 (ap kind_index e),
)

instance abbrev pub kind_eq : Eq Kind
kind_eq = record { beq = kind_beq; beq_iff = kind_beq_iff }

-- One character of `[0-9a-f]`.
unfoldable pub is_hex : ℕ → Bool
is_hex c = (leb b'0' c && leb c b'9') || (leb b'a' c && leb c b'f')

-- Sixty-four lowercase hexadecimal characters and nothing else.
unfoldable pub is_digest : String → Bool
unfolding is_hex
is_digest s = nat_beq (length (codes s)) 64 && all is_hex (codes s)

pub record Subject : Type 0 where
  pub kind : Kind
  pub sha256 : String

abbrev subject_beq : Subject → Subject → Bool
subject_beq a b = a.kind == b.kind && a.sha256 == b.sha256

pub subject_beq_iff : (a b : Subject) → (subject_beq a b ≡ true) ↔ (a ≡ b)
subject_beq_iff a b = (
  λ h. ground (arith, kind_beq_iff a.kind b.kind, string_eq.beq_iff a.sha256 b.sha256),
  λ e. ground (arith, kind_beq_iff a.kind b.kind, string_eq.beq_iff a.sha256 b.sha256),
)

instance abbrev pub subject_eq : Eq Subject
subject_eq = record { beq = subject_beq; beq_iff = subject_beq_iff }

-- `Subject(kind=..., sha256=...)` with the checks of `__post_init__`.
unfoldable pub subject : String → String → Result Subject
unfolding kind_of is_digest
subject kind sha256 = elim (kind_of kind) [
  | none ↦ raise (value_error "unknown subject kind")
  | some k ↦
      if is_digest sha256
      then ok (record { kind = k; sha256 = sha256 })
      else raise (value_error "subject sha256")
]

-- The names of the kinds are read back.
pub kind_of-kind_name : (k : Kind) → kind_of (kind_name k) ≡ some k
unfolding kind_of
kind_of-kind_name tree = refl
kind_of-kind_name _ = refl
