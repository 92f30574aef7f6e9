-- ===== src/Delivery.antt =====
-- apps/delivery: deliveries and couriers.
pub mod States
pub mod Rows
pub mod Courses
pub mod Effects
pub mod Calls
pub mod Histories
pub mod Frames
pub mod Uniqueness
pub mod Constraints
pub mod Guards
pub mod Races
pub mod Credit
pub mod Accounts
pub mod Reconciliation
pub mod Agreement
pub mod Following
pub mod Completion
pub mod Bypasses
pub mod Fees
pub mod Files
pub mod Eligibility
pub mod Documents
pub mod Ratings
