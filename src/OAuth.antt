-- ===== src/OAuth.antt =====
-- internal/oauth/oauth.go: the mock OAuth2 provider: clients, authorization codes, the grants of the
-- token endpoint and the userinfo endpoint.
pub mod Types
pub mod Provider
pub mod Authorize
pub mod Grants
pub mod Userinfo
pub mod Redeeming
pub mod Refreshing
pub mod Calls
pub mod Codes
pub mod Valid
pub mod Flow
mod Tests
