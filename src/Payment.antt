-- ===== src/Payment.antt =====
-- app/payment: the status of a payment, the lifecycle of its refunds, and the service that carries
-- them out.
pub mod Status
pub mod Refunds
pub mod Service
mod Tests
