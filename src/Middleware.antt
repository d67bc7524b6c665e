-- ===== src/Middleware.antt =====
-- llms/middleware: the decorators of a client.
pub mod Validation
pub mod Circuit
pub mod Retry
pub mod RateLimit
