-- ===== src/Voucher.antt =====
-- app/voucher: gift vouchers, their statuses and their redemption.
pub mod Status
pub mod Service
pub mod Delivery
mod Tests
