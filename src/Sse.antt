-- ===== src/Sse.antt =====
-- internal/sse/handler.go: a stream of server-sent events.
pub mod Types
pub mod Writing
pub mod Stream
pub mod Script
pub mod Turns
pub mod Reader
pub mod Wire
pub mod RoundTrip
mod Tests
