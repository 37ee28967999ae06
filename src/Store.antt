-- ===== src/Store.antt =====
-- The archive store of crawler/store.py: crawl runs, captures, the posts that
-- listings show, and posts with their bodies and comments.
pub mod Tables
pub mod Runs
pub mod Captures
pub mod Discovered
pub mod Bodies
pub mod Posts
pub mod Evidence
pub mod Ops
mod Tests
