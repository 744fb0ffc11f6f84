-- ===== src/Management/Api.antt =====
-- internal/management/api.go: the requests of the management API, over the manager. The routes are
-- those of RegisterRoutes, among which net/http chooses by the path.
pub mod Answers
pub mod Handlers
pub mod Atomic
pub mod Served
mod Tests
