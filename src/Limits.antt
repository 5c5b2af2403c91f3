-- ===== src/Limits.antt =====
-- The limits of one process: the rate of writes (src/webwire/safety/token_bucket.py) and repeated
-- writes (src/webwire/safety/dedupe.py).
pub mod TokenBucket
pub mod DedupeStore
mod Examples
