-- ===== src/Management.antt =====
-- internal/management: the mocks that are managed through the API, with versions and templates.
pub mod Types
pub mod Manager
pub mod Filter
pub mod Stats
pub mod Transfer
pub mod Valid
pub mod Steps
pub mod Lookup
pub mod Versions
pub mod Immutable
pub mod Imports
pub mod Api
mod Tests
