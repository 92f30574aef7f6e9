-- ===== src/GroupCarts.antt =====
-- apps/groupcarts: carts that several people fill.
pub mod States
