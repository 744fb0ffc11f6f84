-- ===== src/Proxy.antt =====
-- internal/proxy/proxy.go: the forwarding of a request to a backend, and of its response. URLs and
-- the HTTP client are parameters.
pub mod Client
pub mod Forwarded
mod Tests
