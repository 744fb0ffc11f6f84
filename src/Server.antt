-- ===== src/Server.antt =====
-- internal/server/server.go: the HTTP server that puts the matcher, the tracker and the recorder
-- together, and its control endpoints. Listening on a port is not modelled.
pub mod Types
pub mod Chances
pub mod Answer
pub mod Request
pub mod Recording
pub mod Scenarios
pub mod Endpoints
pub mod Chaos
pub mod Status
pub mod Tracked
pub mod Recorded
pub mod Handlers
pub mod Unmatched
mod Tests
