-- ===== src/Booking.antt =====
-- app/booking: the booking's lifecycle, its rules and its sessions.
pub mod Status
pub mod PaymentStatus
pub mod Sessions
pub mod Outbox
mod Tests
