-- ===== src/Policy.antt =====
-- ditto_screener/policy.py: the private policy boundary of screening.
pub mod Outcome
pub mod Hash
pub mod Decision
pub mod Engine
pub mod Context
pub mod Modules
pub mod Build
pub mod Load
pub mod Preexecution
pub mod Default
pub mod Release
pub mod Early
pub mod Tests
