-- ===== src/Loyalty.antt =====
-- app/loyalty: points accounts with a rolling expiry, and their ledger of transactions.
pub mod Accounts
pub mod Repository
pub mod Service
mod Tests
