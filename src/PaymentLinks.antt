-- ===== src/PaymentLinks.antt =====
-- app/payment_links: links that a customer pays through a gateway.
pub mod Tables
pub mod Settlement
pub mod Refunds
pub mod Webhook
mod Tests
