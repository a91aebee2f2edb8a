-- ===== src/PaymentLinks/Tables.antt =====
-- The rows that app/payment_links/application/settlement.py reads and writes, and the values it gets
-- from a gateway. Ids and texts are numbers, amounts thousandths of the currency, instants microseconds.
-- Providers' names, addresses, and copies of other rows and of messages are left out.
use ushbooknpay.Base.{ℕ, Bool, Option, none, some, List, [], ◌∷◌, ltb, if◌then◌else◌}
use ushbooknpay.Base.Dict.{Dict}
use ushbooknpay.Booking.Status.{BookingStatus}
use ushbooknpay.Booking.PaymentStatus.{PaymentStatus}
use ushbooknpay.Payment.Status.{PaymentTransactionStatus}
use ushbooknpay.Voucher.Service.{GiftVoucher}

pub data PaymentLinkStatus : Type 0 where
  created pending paid failed expired cancelled refunded partially_refunded : PaymentLinkStatus

pub data PaymentLinkTarget : Type 0 where
  booking gift_voucher product : PaymentLinkTarget

-- `needs_attention`: how the automatic refund went.
pub data Attention : Type 0 where
  auto_refunded auto_refund_error : Attention

pub record PaymentLink : Type 0 where
  pub id : ℕ
  pub target_type : PaymentLinkTarget
  pub target_id : ℕ
  pub amount : ℕ
  pub status : PaymentLinkStatus
  pub paid_at : Option ℕ
  pub invoice_number : Option ℕ
  pub gateway_invoice_id : Option ℕ
  pub gateway_payment_id : Option ℕ
  pub transaction_id : Option ℕ
  pub track_id : Option ℕ
  pub reference_id : Option ℕ
  pub payment_method : Option ℕ
  pub failure_data : Option (Option ℕ)
  pub payment_row_id : Option ℕ
  pub amount_mismatch : Option ℕ
  pub needs_attention : Option Attention

pub data GatewayPaymentStatus : Type 0 where
  pending paid failed canceled expired : GatewayPaymentStatus

pub record GatewayPaymentState : Type 0 where
  pub status : GatewayPaymentStatus
  pub invoice_id : Option ℕ
  pub payment_id : Option ℕ
  pub transaction_id : Option ℕ
  pub track_id : Option ℕ
  pub reference_id : Option ℕ
  pub payment_method : Option ℕ
  pub amount : Option ℕ
  pub failure_reason : Option ℕ

pub record BookingRow : Type 0 where
  pub status : BookingStatus
  pub payment_status : PaymentStatus
  pub payment_id : Option ℕ
  pub payment_link_id : Option ℕ
  pub payment_method : Option ℕ
  pub invoice_number : Option ℕ

pub record PaymentRow : Type 0 where
  pub booking_id : Option ℕ
  pub voucher_id : Option ℕ
  pub created_at : ℕ
  pub status : PaymentTransactionStatus
  pub total_amount : ℕ
  pub paid_at : Option ℕ
  pub payment_id : Option ℕ
  pub transaction_id : Option ℕ
  pub track_id : Option ℕ
  pub reference_id : Option ℕ
  pub invoice_id : Option ℕ
  pub invoice_number : Option ℕ
  pub payment_link_id : Option ℕ
  pub payment_method : Option ℕ

-- `PaymentLinkPaidEvent` and `PaymentLinkFailedEvent`, by the link's id.
pub data Event : Type 0 where
  paid_event failed_event : ℕ → Event

-- A call of the gateway's `refund_payment`, with the link it is for.
pub record RefundRequest : Type 0 where
  pub link_id : ℕ
  pub provider_payment_id : ℕ
  pub amount : ℕ

pub record Tables : Type 0 where
  pub bookings : Dict BookingRow
  pub vouchers : Dict GiftVoucher
  pub payments : Dict PaymentRow
  pub booking_history : List (ℕ × BookingStatus × BookingStatus)
  pub payment_history : List (ℕ × PaymentTransactionStatus)
  pub pending_events : List Event
  pub refund_requests : List RefundRequest

-- What a settlement works on: the locked link and the tables.
pub record Work : Type 0 where
  pub link : PaymentLink
  pub tables : Tables

-- `order_by(created_at.desc()).limit(1)` among the rows that the query selects.
abbrev pub newer : (ℕ × PaymentRow) → Option (ℕ × PaymentRow) → ℕ × PaymentRow
newer p none = p
newer p (some q) = if ltb p.1.created_at q.1.created_at then q else p

unfoldable pub newest : (PaymentRow → Bool) → Dict PaymentRow → Option (ℕ × PaymentRow)
newest chosen [] = none
newest chosen (e ∷ rest) =
    let later = newest chosen rest in if chosen e.1 then some (newer e later) else later
