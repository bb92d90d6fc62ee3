-- ===== src/UseCases.antt =====
-- internal/application/use_cases.
pub mod Purchase
