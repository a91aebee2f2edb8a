-- ===== src/Shop.antt =====
-- app/shop: orders of products, their delivery and their payment.
pub mod Status
pub mod Tables
pub mod Service
pub mod Runs
pub mod History
pub mod Numbers
pub mod Receipt
pub mod Totals
mod Tests
