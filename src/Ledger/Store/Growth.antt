-- ===== src/Ledger/Store/Growth.antt =====
-- Later states of the store of equivalent/ledger/store.py against earlier ones.
use mathlib.Core.List.{append-nil, append_assoc}
use skateboard.Prelude.{
  String, ℕ, ◌≡◌, refl, ap, sym, ◌∙◌, List, [], ◌∷◌, ◌++◌, some, lookup, Bool-cases, inl, inr,
  arith, string_eq, is_some,
}
use skateboard.Errors.{Result, ok, Result-cases}
use skateboard.Ledger.Acceptance
use skateboard.Ledger.Subject.{Subject}
use skateboard.Ledger.Record.{Claim, Predicate, RequestLogLine}
use skateboard.Ledger.Store.{
  LedgerStore, Packed, packed_set, packed_artifact, append_claim, append_request, put_artifact,
  keep, record_claim, new_claim,
}

-- Claims and requests are appended to, and what is kept under a hash stays what it was.
pub record Extends (s s' : LedgerStore) : Type 0 where
  pub new_claims : List Claim
  pub claims : s'.claims ≡ s.claims ++ new_claims
  pub new_requests : List RequestLogLine
  pub requests : s'.requests ≡ s.requests ++ new_requests
  pub artifacts :
      (sha256 : String) (bytes : List ℕ)
      → lookup sha256 s.artifacts ≡ some bytes
      → lookup sha256 s'.artifacts ≡ some bytes
  pub capture_sets :
      (sha256 directory : String)
      → lookup sha256 s.capture_sets ≡ some directory
      → lookup sha256 s'.capture_sets ≡ some directory

lookup-append_of_some :
    {V : Type 0} (k : String) (m n : List (String × V)) (v : V)
    → lookup k m ≡ some v
    → lookup k (m ++ n) ≡ some v
lookup-append_of_some k [] n v h = absurd (ground arith)
lookup-append_of_some k ((j, w) ∷ m) n v h = ground (arith, lookup-append_of_some k m n v)

pub Extends-refl : (s : LedgerStore) → Extends s s
Extends-refl s = record {
  new_claims = [];
  claims = sym (append-nil s.claims);
  new_requests = [];
  requests = sym (append-nil s.requests);
  artifacts = λ k v h. h;
  capture_sets = λ k v h. h;
}

pub Extends-trans : {s t u : LedgerStore} → Extends s t → Extends t u → Extends s u
Extends-trans {s} {t} {u} a b = record {
  new_claims = a.new_claims ++ b.new_claims;
  claims =
      b.claims
      ∙ ap (λ l. l ++ b.new_claims) a.claims
      ∙ append_assoc s.claims a.new_claims b.new_claims;
  new_requests = a.new_requests ++ b.new_requests;
  requests =
      b.requests
      ∙ ap (λ l. l ++ b.new_requests) a.requests
      ∙ append_assoc s.requests a.new_requests b.new_requests;
  artifacts = λ k v h. b.artifacts k v (a.artifacts k v h);
  capture_sets = λ k v h. b.capture_sets k v (a.capture_sets k v h);
}

pub append_claim-Extends : (c : Claim) (s : LedgerStore) → Extends s (append_claim c s)
unfolding append_claim
append_claim-Extends c s = record {
  new_claims = c ∷ [];
  claims = refl;
  new_requests = [];
  requests = sym (append-nil s.requests);
  artifacts = λ k v h. h;
  capture_sets = λ k v h. h;
}

pub append_request-Extends :
    (line : RequestLogLine) (s : LedgerStore) → Extends s (append_request line s)
unfolding append_request
append_request-Extends line s = record {
  new_claims = [];
  claims = sym (append-nil s.claims);
  new_requests = line ∷ [];
  requests = refl;
  artifacts = λ k v h. h;
  capture_sets = λ k v h. h;
}

put_artifact-Extends :
    (sha256 : String) (bytes : List ℕ) (s : LedgerStore) → Extends s (put_artifact sha256 bytes s)
unfolding put_artifact
put_artifact-Extends sha256 bytes s = elim (Bool-cases (is_some (lookup sha256 s.artifacts))) [
  | inl there ↦ rw there (Extends-refl s)
  | inr fresh ↦ rw fresh (record {
    new_claims = [];
    claims = sym (append-nil s.claims);
    new_requests = [];
    requests = sym (append-nil s.requests);
    artifacts = λ k v h. lookup-append_of_some k s.artifacts ((sha256, bytes) ∷ []) v h;
    capture_sets = λ k v h. h;
  })
]

-- Keeping a packed set or blob changes nothing that is kept under any hash, its own included.
pub keep-Extends : (p : Packed) (s : LedgerStore) → Extends s (keep p s)
unfolding keep
keep-Extends (packed_artifact sha256 bytes) s = put_artifact-Extends sha256 bytes s
keep-Extends (packed_set sha256 directory) s =
    elim (Bool-cases (is_some (lookup sha256 s.capture_sets))) [
      | inl there ↦ rw there (Extends-refl s)
      | inr fresh ↦ rw fresh (record {
        new_claims = [];
        claims = sym (append-nil s.claims);
        new_requests = [];
        requests = sym (append-nil s.requests);
        artifacts = λ k v h. h;
        capture_sets =
            λ k v h. lookup-append_of_some k s.capture_sets ((sha256, directory) ∷ []) v h;
      })
    ]

-- What `record_claim` did where it did not raise.
pub record_claim-inv :
    (now : String) (subject : List Subject) (p : String) (predicate : Predicate)
    (materials : List Subject) (session : String) (s : LedgerStore) {c : Claim} {s' : LedgerStore}
    → record_claim now subject p predicate materials session s ≡ ok (c, s')
    → (c ≡ new_claim now subject p predicate materials session s) × (s' ≡ append_claim c s)
unfolding record_claim
record_claim-inv now subject p predicate materials session s {c} {s'} h =
    elim (Result-cases (Acceptance.get p)) [
      | inr (e, q) ↦ absurd (ground arith)
      | inl (entry, q) ↦
          let new = new_claim now subject p predicate materials session s in
          let h' : ◌≡◌ {A = Result (Claim × LedgerStore)} (ok (new, append_claim new s))
              (ok (c, s')) =
            rw (q, record_claim) at h in
          let e : new ≡ c = ground arith in
          let e' : append_claim new s ≡ s' = ground arith in
          (sym e, sym e' ∙ ap (λ x. append_claim x s) e)
    ]
