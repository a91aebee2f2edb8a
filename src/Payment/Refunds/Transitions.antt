-- ===== src/Payment/Refunds/Transitions.antt =====
-- The decisions on a refund in `RefundLifecycle` of app/payment/application/refund_lifecycle.py:
-- `reject`, `approve` and `mark_processing`.
use ushbooknpay.Base.{ℕ, Bool, true, false, ◌||◌, not, Option, none, some, if◌then◌else◌}
use ushbooknpay.Base.Int.{ℤ, pos, pos_part, ◌+ℤ◌, leb_ℤ}
use ushbooknpay.Base.Dict.{lookup, insert}
use ushbooknpay.Base.Session.{◌>>=◌, ◌>>◌, pure, raise, raise_if, modify}
use ushbooknpay.Booking.PaymentStatus.{refunded_with_points}
use ushbooknpay.Payment.Refunds.Tables.{
  automated, RefundMethod, payment_gateway, RefundStatus, approved, rejected, processing, failed,
  cancelled, Refund, Payment, Booking, Db, not_positive, wrong_status, is_completed, is_loyalty,
}
use ushbooknpay.Payment.Refunds.Sums.{committed_total_but}
use ushbooknpay.Payment.Refunds.{Call, fetch, store, audit_unchanged, check_cap, is_requested}

abbrev pub put_payment : Option ℕ → Payment → Db → Db
put_payment none pay d = d
put_payment (some p) pay d = record d { payments = insert p pay d.payments }

-- A change of the booking's row, where the refund has one.
abbrev pub on_booking : Option ℕ → (Booking → Booking) → Db → Db
on_booking none f d = d
on_booking (some b) f d = elim (lookup b d.bookings) [
  | none ↦ d
  | some row ↦ record d { bookings = insert b (f row) d.bookings }
]

abbrev pub is_rejected : RefundStatus → Bool
is_rejected rejected = true
is_rejected _ = false

abbrev pub is_approved : RefundStatus → Bool
is_approved approved = true
is_approved _ = false

abbrev pub is_processing : RefundStatus → Bool
is_processing processing = true
is_processing _ = false

abbrev pub is_failed : RefundStatus → Bool
is_failed failed = true
is_failed cancelled = true
is_failed _ = false

unfoldable pub reject_found : ℕ → Refund → Call (Unit {0})
reject_found rid r =
    if is_completed r.status || is_rejected r.status
    then pure tt
    else if not (is_requested r.status)
    then raise wrong_status
    else store rid (record r { status = rejected })

unfoldable pub reject : ℕ → Call (Unit {0})
reject rid = fetch rid >>= reject_found rid

abbrev pub approved_row : RefundMethod → ℕ → Refund → Refund
approved_row method net r = record r {
  status = approved;
  refund_method = method;
  refunded_amount = net;
  requested_amount = pos net +ℤ r.cancellation_fee;
}

abbrev pub promise_points : RefundMethod → Refund → Call (Unit {0})
promise_points method r =
    if is_loyalty method
    then modify (on_booking r.booking_id λ b. record b { payment_status = refunded_with_points })
    else pure tt

abbrev pub check_unless_points : RefundMethod → Refund → ℕ → ℕ → Call (Unit {0})
check_unless_points method r rid net =
    if is_loyalty method then pure tt else check_cap (committed_total_but rid) r.payment_id net

unfoldable pub approve_found : ℕ → RefundMethod → ℤ → Refund → Call (Unit {0})
approve_found rid method amount r = if is_approved r.status then pure tt else do
  raise_if (not (is_requested r.status)) wrong_status
  raise_if (leb_ℤ amount (pos 0)) not_positive
  check_unless_points method r rid (pos_part amount)
  store rid (approved_row method (pos_part amount) r)
  promise_points method r

unfoldable pub approve : ℕ → RefundMethod → ℤ → Call (Unit {0})
approve rid method amount = fetch rid >>= approve_found rid method amount

-- `provider_refund_id`, where it is given, in place of the row's
abbrev pub or_else : Option ℕ → Option ℕ → Option ℕ
or_else none old = old
or_else (some x) old = some x

abbrev pub processing_row : Option ℕ → Refund → Refund
processing_row reference r = record r {
  status = processing;
  refund_type = automated;
  refund_method = payment_gateway;
  gateway_refund_id = or_else reference r.gateway_refund_id;
}

unfoldable pub mark_processing_found : ℕ → Option ℕ → Refund → Call (Unit {0})
mark_processing_found rid reference r =
    if is_completed r.status || is_processing r.status then pure tt else do
      raise_if (not (is_requested r.status || is_approved r.status)) wrong_status
      store rid (processing_row reference r)
      audit_unchanged rid r.payment_id

unfoldable pub mark_processing : ℕ → Option ℕ → Call (Unit {0})
mark_processing rid reference = fetch rid >>= mark_processing_found rid reference
