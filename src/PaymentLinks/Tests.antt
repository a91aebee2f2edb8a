-- ===== src/PaymentLinks/Tests.antt =====
-- The link of a booking, paid and paid again.
use ushbooknpay.Base.{
  ℕ, ◌≡◌, refl, inr, inl, Bool, true, none, some, Option, List, [], ◌∷◌, arith, ◌==◌, Bool-cases,
}
use mathlib.Core.Path.{subst}
use ushbooknpay.Base.Dict.{lookup}
use ushbooknpay.Booking.Status.{requested}
use ushbooknpay.Booking.PaymentStatus as Bookings
use ushbooknpay.PaymentLinks.Tables.{
  PaymentLinkStatus, booking, PaymentLink, GatewayPaymentState, BookingRow, RefundRequest, Tables,
  Work,
}
use ushbooknpay.PaymentLinks.Tables as T
use ushbooknpay.Payment.Status as Payments
use ushbooknpay.PaymentLinks.Settlement.{is_settled}
use ushbooknpay.PaymentLinks.Settlement.Apply.{apply_paid}
use ushbooknpay.PaymentLinks.Settlement.Change.{stays, IsChange}
use ushbooknpay.PaymentLinks.Webhook.{
  GatewayWebhookEvent, handle_payment_event, handle_payment_event-IsChange,
}
use ushbooknpay.PaymentLinks.Refunds.{PaidVoucherLink}
use ushbooknpay.PaymentLinks.Refunds.Balance.{IsBalanced}
use ushbooknpay.PaymentLinks.Refunds.Events.{
  RefundStep, asks, revokes, run_refunds, run_refunds-IsBalanced,
}
use ushbooknpay.PaymentLinks.Settlement.Booked.{IsPaidOrRefunded, apply_paid-booking}
use ushbooknpay.PaymentLinks.Settlement.Once.{
  IsOnce, World, Notice, IsConsistent, apply_notices, apply_notices-IsConsistent,
}

abbrev link_in : PaymentLinkStatus → PaymentLink
link_in s = record {
  id = 1;
  target_type = booking;
  target_id = 3;
  amount = 25000;
  status = s;
  paid_at = none;
  invoice_number = none;
  gateway_invoice_id = some 70;
  gateway_payment_id = none;
  transaction_id = none;
  track_id = none;
  reference_id = none;
  payment_method = none;
  failure_data = none;
  payment_row_id = none;
  amount_mismatch = none;
  needs_attention = none;
}

abbrev tables : Tables
tables = record {
  bookings =
      (
        3,
        record {
          status = requested;
          payment_status = Bookings.pending;
          payment_id = none;
          payment_link_id = none;
          payment_method = none;
          invoice_number = none;
        },
      )
      ∷ [];
  vouchers = [];
  payments = [];
  booking_history = [];
  payment_history = [];
  pending_events = [];
  refund_requests = [];
}

abbrev payment_state : GatewayPaymentState
payment_state = record {
  status = T.GatewayPaymentStatus.paid;
  invoice_id = some 70;
  payment_id = some 71;
  transaction_id = some 72;
  track_id = none;
  reference_id = none;
  payment_method = none;
  amount = some 25000;
  failure_reason = none;
}

abbrev accepts : RefundRequest → Bool
accepts r = true

abbrev schedules : ℕ → Option ℕ
schedules t = some t

abbrev work_in : PaymentLinkStatus → Work
work_in s = record { link = link_in s; tables = tables }

apply_paid-booking_example :
    IsPaidOrRefunded
      (lookup 3 tables.bookings)
      (work_in T.PaymentLinkStatus.pending)
      (apply_paid accepts schedules 50 9 payment_state (work_in T.PaymentLinkStatus.pending))
unfolding is_settled
apply_paid-booking_example =
    apply_paid-booking accepts schedules 50 9 payment_state (work_in T.PaymentLinkStatus.pending)
      refl refl refl

abbrev world : World
world = record { links = (1, link_in T.PaymentLinkStatus.pending) ∷ []; tables = tables }

abbrev notices : List Notice
notices =
    record { link_id = 1; now = 50; new_id = 9; state = payment_state }
    ∷ record { link_id = 1; now = 60; new_id = 10; state = payment_state }
    ∷ []

world-IsConsistent : IsConsistent world
unfolding lookup is_settled
world-IsConsistent k l h = elim (Bool-cases (1 == k)) [
  | inl e ↦
      let found : some (link_in T.PaymentLinkStatus.pending) ≡ some l = rw e at h in
      let same : link_in T.PaymentLinkStatus.pending ≡ l = cc in
      subst (λ m. IsOnce k m tables) same (ground (arith, e), omega arith, inr refl, inl refl)
  | inr e ↦ let missing : none ≡ some l = rw e at h in absurd (ground arith)
]

apply_notices-IsConsistent_example : IsConsistent (apply_notices accepts schedules notices world)
apply_notices-IsConsistent_example =
    apply_notices-IsConsistent accepts schedules notices world world-IsConsistent

-- The gateway says that the payment is pending; the message says that it is paid.
abbrev claimed : GatewayWebhookEvent
claimed = record {
  invoice_id = some 70;
  status = some T.GatewayPaymentStatus.paid;
  state = some payment_state;
}

abbrev not_yet : GatewayPaymentState
not_yet = record payment_state { status = T.GatewayPaymentStatus.pending }

handle_payment_event-IsChange_example :
    IsChange
      (work_in T.PaymentLinkStatus.pending)
      (handle_payment_event accepts schedules
        (some not_yet)
        claimed
        50
        9
        (work_in T.PaymentLinkStatus.pending)).1
      stays
unfolding is_settled
handle_payment_event-IsChange_example =
    handle_payment_event-IsChange accepts schedules not_yet claimed 50 9
      (work_in T.PaymentLinkStatus.pending) refl refl

-- The payment of a voucher, refunded in two parts of which the gateway cancels the first.
abbrev bought : PaidVoucherLink
bought = record {
  link_status = T.PaymentLinkStatus.paid;
  link_amount = 30000;
  link_refunded = 0;
  total_amount = 30000;
  amount_refunded = 0;
  payment_status = Payments.success;
  gateway_reference = some 70;
  refunds = [];
  voucher = none;
}

abbrev refund_steps : List RefundStep
refund_steps =
    asks (some 10000) (some 5)
    ∷ asks (some 25000) (some 6)
    ∷ asks none (some 6)
    ∷ revokes 5
    ∷ revokes 5
    ∷ []

run_refunds-IsBalanced_example : IsBalanced (run_refunds schedules refund_steps bought)
run_refunds-IsBalanced_example =
    run_refunds-IsBalanced schedules refund_steps bought (tt, refl, omega arith, refl)
