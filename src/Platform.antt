-- ===== src/Platform.antt =====
-- ditto_screener/platform.py: the HTTP client of the platform.
pub mod Http
pub mod Submit
pub mod Upload
pub mod Tests
