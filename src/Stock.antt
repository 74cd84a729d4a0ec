-- ===== src/Stock.antt =====
-- services/stock-service: the stock entity, the in-memory store of stock, purchases and
-- reservations, the application service and the writer of the audit tables.
pub mod Entity
pub mod Memory
pub mod App
pub mod Writer
