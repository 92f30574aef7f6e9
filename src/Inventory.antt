-- ===== src/Inventory.antt =====
-- apps/inventory: the stock of a kitchen, its journal, and losses that wait for a second person.
pub mod Rows
pub mod Writes
pub mod Service
pub mod Declarations
pub mod Consistency
pub mod After
pub mod Operations
pub mod Decisions
pub mod Replay
