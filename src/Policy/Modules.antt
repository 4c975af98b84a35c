-- ===== src/Policy/Modules.antt =====
-- The private policy modules of ditto_screener/policy.py.
pub mod Evidence
pub mod SourceReview
pub mod Oracle
pub mod Pack
pub mod Selectors
