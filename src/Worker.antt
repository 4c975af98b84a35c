-- ===== src/Worker.antt =====
-- ditto_screener/worker.py: one worker's handling of one claimed agent.
pub mod Report
pub mod Agree
pub mod Checks
pub mod Accepted
pub mod Tests
