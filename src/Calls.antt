-- ===== src/Calls.antt =====
-- apps/calls: calls between a customer and a courier.
pub mod States
