-- ===== src/Order.antt =====
-- services/order-service: the order aggregate, its status machine and the in-memory order store.
pub mod App
pub mod Entity
pub mod Status
pub mod Store
