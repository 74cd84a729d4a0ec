-- ===== src/Risk.antt =====
-- services/risk-service/internal.
pub mod Evaluator
