-- ===== src/Loader.antt =====
-- internal/loader/loader.go: the mocks of the YAML files below the configured directories. The file
-- system, its walk and YAML are parameters. What is printed is left out.
pub mod Files
pub mod Order
mod Tests
