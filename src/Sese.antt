-- ===== src/Sese.antt =====
-- equivalent/analyzers/check_sese.py, the check that a region is single-entry and single-exit.
pub mod Lexer
pub mod Statements
pub mod Procedures
pub mod Scan
pub mod Resolve
pub mod Specification
