-- ===== src/Oracle.antt =====
-- The oracle service, services/oracle/app.py: it holds the expected answers and the tolerance
-- policy of one code, and compares what a port wrote.
pub mod Policy
pub mod Serve
