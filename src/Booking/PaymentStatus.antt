-- ===== src/Booking/PaymentStatus.antt =====
-- The payment status of a booking, of app/booking/domain/value_objects.py.
pub data PaymentStatus : Type 0 where
  not_initiated initiated pending success failed cancelled refunded rewarded : PaymentStatus
  partially_refunded refund_requested refunded_with_points : PaymentStatus
