-- ===== src/Runner.antt =====
-- The service that runs a command, scripts/control_runner.py: how it waits for the origin to return.
pub mod Outage
pub mod Combined
mod Tests
