-- ===== src/Payment/Refunds/Tables.antt =====
-- The rows that app/payment/application/refund_lifecycle.py reads and writes, with the refund types,
-- methods and statuses of app/payment/domain/value_objects.py. Amounts are thousandths of the
-- currency, as `_dec` rounds them; ids, keys and references are numbers; texts are left out.
use ushbooknpay.Base.{
  ℕ, ◌+◌, ◌*◌, Bool, true, false, ◌||◌, not, Option, none, some, List, ltb, ◌==◌,
}
use ushbooknpay.Base.Int.{ℤ}
use ushbooknpay.Base.Dict.{Dict}
use ushbooknpay.Payment.Status.{PaymentTransactionStatus}
use ushbooknpay.Booking.PaymentStatus.{PaymentStatus}
use ushbooknpay.Booking.Status.{BookingStatus}

pub data RefundType : Type 0 where
  automated manual : RefundType

pub data RefundMethod : Type 0 where
  payment_gateway payment_link cash card bank_transfer loyalty_points money other : RefundMethod

pub data RefundStatus : Type 0 where
  requested approved rejected processing completed failed cancelled : RefundStatus

pub record Refund : Type 0 where
  pub payment_id : Option ℕ
  pub booking_id : Option ℕ
  pub idempotency_key : Option ℕ
  pub refund_type : RefundType
  pub refund_method : RefundMethod
  pub status : RefundStatus
  pub requested_amount : ℤ
  pub cancellation_fee : ℤ
  pub refunded_amount : ℕ
  pub gateway_refund_id : Option ℕ
  pub reference_number : Option ℕ

pub record Payment : Type 0 where
  pub total_amount : ℕ
  pub amount_refunded : ℕ
  pub status : PaymentTransactionStatus
  pub needs_attention : Bool

pub record Booking : Type 0 where
  pub status : BookingStatus
  pub payment_status : PaymentStatus

-- A row of `payment_status_history`.
pub record Audit : Type 0 where
  pub payment_id : ℕ
  pub refund_id : ℕ
  pub old_status : PaymentTransactionStatus
  pub new_status : PaymentTransactionStatus

-- The session, and the `booking.refund_completed` events published from it, newest first: the
-- refund's id and whether the payment was then fully refunded.
pub record Db : Type 0 where
  pub refunds : Dict Refund
  pub payments : Dict Payment
  pub bookings : Dict Booking
  pub audit : List Audit
  pub events : List (ℕ × Bool)

-- `ValidationError`s; `unknown_refund` stands for an id of which no caller can hold a row.
pub data RefundError : Type 0 where
  not_positive negative_fee over_balance wrong_status unknown_refund : RefundError

abbrev pub is_open : RefundStatus → Bool
is_open requested = true
is_open approved = true
is_open processing = true
is_open _ = false

abbrev pub is_completed : RefundStatus → Bool
is_completed completed = true
is_completed _ = false

-- `status in (COMPLETED, *OPEN_STATUSES)`
abbrev pub is_committed : RefundStatus → Bool
is_committed s = is_completed s || is_open s

abbrev pub is_loyalty : RefundMethod → Bool
is_loyalty loyalty_points = true
is_loyalty _ = false

abbrev pub has_id : ℕ → Option ℕ → Bool
has_id p none = false
has_id p (some x) = x == p

-- `amount > limit + TOLERANCE`, the tolerance being half a thousandth
abbrev pub exceeds : ℕ → ℕ → Bool
exceeds amount limit = ltb (2 * limit + 1) (2 * amount)

-- `amount + TOLERANCE >= target`
abbrev pub reaches : ℕ → ℕ → Bool
reaches amount target = not (ltb (2 * amount + 1) (2 * target))
