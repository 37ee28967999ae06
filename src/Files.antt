-- ===== src/Files.antt =====
-- Files that only accumulate, scripts/retention.py: which of them are removed.
pub mod Retention
mod Tests
