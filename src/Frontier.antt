-- ===== src/Frontier.antt =====
-- The crawl frontier (crawler/frontier.py): posts to fetch, leased to one worker at a time.
pub mod Table
pub mod Clock
pub mod Lease
pub mod Seed
pub mod Keys
pub mod Order
pub mod Claim
pub mod Requeue
pub mod Recovery
pub mod Outcome
pub mod Invariant
pub mod Seeding
pub mod Ops
pub mod Effects
pub mod Claiming
pub mod Batch
pub mod Recovering
pub mod Restarting
pub mod Revisiting
pub mod Lifecycle
pub mod Retries
mod Tests
