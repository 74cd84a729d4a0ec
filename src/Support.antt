-- ===== src/Support.antt =====
-- services/support-service: users, cards, synced orders, the payment callback, and a circuit breaker.
pub mod Card
pub mod Ledger
pub mod Callback
pub mod Breaker
