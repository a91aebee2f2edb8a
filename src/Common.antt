-- ===== src/Common.antt =====
-- app/common: what the listings of the other parts share.
pub mod Pagination
mod Tests
