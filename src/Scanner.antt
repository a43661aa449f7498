-- ===== src/Scanner.antt =====
-- The scanner, internal/scanner.
pub mod Verifiers
pub mod Evaluate
pub mod Input
pub mod Literals
pub mod Compile
pub mod Loader
pub mod Tests
