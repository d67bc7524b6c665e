-- ===== src/Llms.antt =====
-- The core package llms: its conversation model, its token accounting and its error model.
pub mod Reasons
pub mod Errors
pub mod Message
pub mod Usage
pub mod Reasoning
