-- ===== src/Rules.antt =====
-- internal/rules: rule packs (types.go) and how several packs are merged (merge.go).
pub mod Types
pub mod Merge
pub mod Complexity
pub mod Schema
pub mod Validate
pub mod Checks
mod Tests
