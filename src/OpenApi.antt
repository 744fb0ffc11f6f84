-- ===== src/OpenApi.antt =====
-- internal/openapi/parser.go: mocks made from an OpenAPI or Swagger document. Reading the document,
-- JSON and YAML are parameters; a map stands in the order in which Go ranges over it.
pub mod Types
pub mod Examples
pub mod Parser
pub mod Preferred
mod Tests
