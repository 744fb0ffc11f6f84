-- ===== src/Validator.antt =====
-- internal/validator/validator.go: the checks of the configured mocks, with their messages.
-- PrintValidationResult only prints and is not modelled.
pub mod Report
pub mod Request
pub mod Response
pub mod Mocks
pub mod Checks
pub mod Sound
pub mod Valid
pub mod Safe
mod Tests
