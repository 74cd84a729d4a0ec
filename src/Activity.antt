-- ===== src/Activity.antt =====
-- The activity service: the activities, their status and products, and their administration.
pub mod Status
pub mod Aggregate
pub mod Memory
pub mod Admin
