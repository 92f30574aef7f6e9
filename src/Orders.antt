-- ===== src/Orders.antt =====
-- apps/orders: the life cycle of an order, its creation and its replay.
pub mod States
pub mod Idempotency
pub mod Keys
pub mod Refinement
pub mod Once
