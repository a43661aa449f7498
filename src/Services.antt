-- ===== src/Services.antt =====
-- internal/application/services: what joins the repositories and the scanner.
pub mod PolicyScanner
pub mod RulepackService
