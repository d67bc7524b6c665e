-- ===== src/Providers.antt =====
-- llms/providers: the conversions of the adapters and what they share.
pub mod ApiErr
pub mod Google
pub mod Json
pub mod ExtraParams
pub mod Requests
pub mod Ollama
pub mod Anthropic
pub mod Openai
pub mod OpenaiCompat
