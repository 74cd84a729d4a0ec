-- ===== src/Gateway.antt =====
-- The gateway: its degradation by route, the entry of the flash sale and the pool behind it.
pub mod Degrade
pub mod Entry
pub mod Pool
