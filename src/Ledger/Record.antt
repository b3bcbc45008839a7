-- ===== src/Ledger/Record.antt =====
-- Claims and request-log lines: equivalent/ledger/records.py.
use skateboard.Prelude.{ℕ, String, List, Option}
use skateboard.Ledger.Subject.{Subject}
use skateboard.Ledger.Value.{Value}

-- `SCHEMA_VERSION`
abbrev pub schema_version : ℕ
schema_version = 2

pub record Predicate : Type 0 where
  pub tool : String
  pub version : String
  pub config_hash : String
  pub verdict : String
  pub detail : Value

pub record Claim : Type 0 where
  pub id : String
  pub ts : String
  pub subject : List Subject
  pub predicate_type : String
  pub predicate : Predicate
  pub materials : List Subject
  pub session : String
  pub version : ℕ

-- One of: claim, refused, duplicate, error, submitted.
pub data Outcome : Type 0 where
  claim refused duplicate error submitted : Outcome

pub record RequestLogLine : Type 0 where
  pub ts : String
  pub session : String
  pub model : String
  pub endpoint : String
  pub action : String
  pub region : String
  pub tree : Option String
  pub config_hash : Option String
  pub outcome : Outcome
  pub claim_id : Option String
  -- the predicate types of the missing requirements, when the outcome is `refused`
  pub missing : Option (List String)
  pub tool_call_id : Option String
  pub version : ℕ
