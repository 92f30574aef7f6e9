-- ===== src/Promotions.antt =====
-- apps/promotions: the codes, what they are worth, and their quotas.
pub mod Rows
pub mod Codes
pub mod Discounts
pub mod Quotas
pub mod Releases
