-- ===== src/Bucket.antt =====
-- bucket: the per-key token-rate and concurrency limiter.
pub mod Limits
pub mod Core
pub mod Memory
