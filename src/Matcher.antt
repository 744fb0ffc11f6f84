-- ===== src/Matcher.antt =====
-- internal/matcher/matcher.go: the mocks in order of priority, the state of their scripts and
-- sequences, and the search for the mock that answers a request. `globalState` of the source is
-- never read or written after NewMatcher and is left out; the scripts' state is `global_vm`.
pub mod Criteria
pub mod Accepts
pub mod Script
pub mod Sequence
pub mod Turns
pub mod Scenario
pub mod Available
pub mod Search
mod Tests
pub mod Best
pub mod Sorting
pub mod Missing
