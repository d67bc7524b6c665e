-- ===== src/Toolloop.antt =====
-- llms/toolloop: the synchronous tool loop.
pub mod Types
pub mod Config
pub mod Stops
pub mod Calls
pub mod Compaction
pub mod Turns
pub mod Run
pub mod Compact
