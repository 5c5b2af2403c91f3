-- ===== src/Recovery.antt =====
-- Replay safety from the two ledgers: src/webwire/safety/recovery_projector.py joins them, and
-- src/webwire/safety/recovery_guard.py denies what they leave open.
pub mod Projector
pub mod Guard
mod Examples
