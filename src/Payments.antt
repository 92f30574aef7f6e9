-- ===== src/Payments.antt =====
-- apps/payments: transactions and webhooks, shares, refunds and withdrawals.
pub mod States
pub mod Rows
pub mod Totals
pub mod Webhook
pub mod Kept
pub mod Settlement
pub mod Split
pub mod Parts
pub mod Initiate
pub mod Reuse
pub mod Refunds
pub mod Backing
pub mod Cap
pub mod Withdrawals
pub mod Balance
pub mod Conservation
pub mod Cash
pub mod Paid
pub mod CashRows
pub mod Collected
