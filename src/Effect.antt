-- ===== src/Effect.antt =====
-- src/webwire/safety/effect_ledger.py: the durable, append-only ledger of external effects.
pub mod Record
pub mod History
pub mod File
pub mod Projection
mod Examples
