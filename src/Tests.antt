-- ===== src/Tests.antt =====
-- Runs of the models on concrete inputs, for the theorems that have hypotheses.
pub mod ToolloopRuns
pub mod CircuitRuns
pub mod MessageRuns
pub mod LimiterRuns
pub mod BucketRuns
pub mod StackRuns
pub mod CompactRuns
pub mod CompletionRuns
pub mod ProviderRuns
