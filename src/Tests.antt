-- ===== src/Tests.antt =====
-- Tests: sample data, and each theorem at a concrete input.
mod Samples
mod Alerting
mod Storage
mod Running
mod Network
mod Restart
