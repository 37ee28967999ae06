-- ===== src/Recover.antt =====
-- The recovery of queued posts, scripts/recover_queue.py: which posts a batch takes from the frontier,
-- and what it reports.
pub mod Batch
pub mod Leasable
pub mod Ready
pub mod Report
mod Tests
