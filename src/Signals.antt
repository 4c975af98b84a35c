-- ===== src/Signals.antt =====
-- ditto_screener/source_signals.py: the masks that take comments and string literals out of source
-- text, and the tests of paths. Texts are lists of code points.
pub mod Comments
pub mod Literals
pub mod Paths
mod Tests
