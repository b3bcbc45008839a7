-- ===== src/Tests.antt =====
-- Each general statement at a concrete input, and the data for it.
mod Fixtures
mod Files
mod Catalogs
mod Ledgers
mod Regions
mod Requests
mod Submissions
mod Branches
mod Comparisons
mod Analysis
mod Oracles
mod Mutations
mod Scores
mod Properties
