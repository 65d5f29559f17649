-- ===== src/Tests.antt =====
-- Concrete inputs: each theorem that has conditions, applied where they hold.
pub mod RateLimits
pub mod Websockets
pub mod Digests
pub mod Middlewares
pub mod Pipelines
pub mod Streams
pub mod Handlers
pub mod Serving
pub mod Negotiating
