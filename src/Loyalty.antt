-- ===== src/Loyalty.antt =====
-- apps/loyalty: points, rewards and subscriptions.
pub mod States
pub mod Points
pub mod Bookings
pub mod Ledger
pub mod Replays
pub mod Tiers
