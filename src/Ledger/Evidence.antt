-- ===== src/Ledger/Evidence.antt =====
-- Which claims are current: equivalent/ledger/evidence.py. The store's query is in Ledger/Store.
use skateboard.Prelude.{Bool, ◌&&◌, List, all, elem, nat_beq}
use skateboard.Ledger.Subject.{Subject, subject_eq}
use skateboard.Ledger.Record.{Claim, schema_version}

-- `claim_matches_context`: the current schema, and every required material among the claim's.
unfoldable pub claim_matches_context : Claim → List Subject → Bool
claim_matches_context claim required_materials =
    nat_beq claim.version schema_version
    && all (λ material. elem material claim.materials) required_materials
