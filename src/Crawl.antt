-- ===== src/Crawl.antt =====
-- The crawl cycle of scripts/crawl_cycle.py: which boards it visits, how far an inventory pass has come,
-- and the check of the login session before it starts.
pub mod Boards
pub mod Session
pub mod Coverage
pub mod Worker
pub mod Cycle
mod Tests
