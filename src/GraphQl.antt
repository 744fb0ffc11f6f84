-- ===== src/GraphQl.antt =====
-- internal/graphql: the mocked GraphQL operations over HTTP (handler.go, models.go). The schema of
-- graphql-go, JSON and the printing of values are parameters.
pub mod Types
pub mod Query
pub mod Operations
pub mod Handler
pub mod Lines
pub mod Words
pub mod Matching
pub mod First
mod Tests
