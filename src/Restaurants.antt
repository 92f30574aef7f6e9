-- ===== src/Restaurants.antt =====
-- apps/restaurants: establishments.
pub mod States
