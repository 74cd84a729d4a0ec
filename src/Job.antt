-- ===== src/Job.antt =====
-- The job service: the periodic jobs that open and end activities and repair orders.
pub mod Model
pub mod Config
pub mod Activities
pub mod Cleanup
pub mod Cache
pub mod Closing
pub mod Reconcile
pub mod Sync
