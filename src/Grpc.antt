-- ===== src/Grpc.antt =====
-- internal/grpc/server.go and models.go: the mocked gRPC methods. The gRPC server, its reflection
-- and health services and TLS are third-party code; a stream is what it receives.
pub mod Types
pub mod Methods
pub mod Conversation
mod Tests
