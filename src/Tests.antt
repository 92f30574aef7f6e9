-- ===== src/Tests.antt =====
-- Runs of the models at concrete inputs, and the theorems applied to them.
mod Stock
mod Deliveries
mod Checkout
mod Payroll
mod Requests
mod Values
mod Customers
