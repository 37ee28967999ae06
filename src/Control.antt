-- ===== src/Control.antt =====
-- The control plane of the runner: the command ledger and the outbox of scripts/control_store.py, and
-- the delivery of reports in scripts/control_client.py.
pub mod Json
pub mod Ledger
pub mod Outbox
pub mod Client
pub mod Claiming
mod Tests
