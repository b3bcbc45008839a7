-- ===== src/Gateway.antt =====
-- The gateway's request execution: equivalent/gateway/run.py and what it asks of the builder.
pub mod Retained
pub mod Context
pub mod Exec
pub mod Reading
pub mod Run
