-- ===== src/WebSocket.antt =====
-- internal/websocket/handler.go: the connections of a mock with a WebSocket, and the modes in which
-- they are served.
pub mod Types
pub mod Modes
pub mod Registry
pub mod Limit
mod Tests
