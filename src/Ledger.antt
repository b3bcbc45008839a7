-- ===== src/Ledger.antt =====
-- The evidence ledger, equivalent/ledger/: what a claim is about, the claims and their store, the
-- workflow catalog, and the rules that say which claims are current and when a region is done.
pub mod Subject
pub mod Value
pub mod Record
pub mod FileSet
pub mod Workflow
pub mod Acceptance
pub mod Artifact
pub mod Evidence
pub mod Store
pub mod Cohort
pub mod Status
pub mod Table
