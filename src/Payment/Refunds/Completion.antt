-- ===== src/Payment/Refunds/Completion.antt =====
-- The end of a refund in `RefundLifecycle` of app/payment/application/refund_lifecycle.py: `complete`
-- and `fail`.
use ushbooknpay.Base.{
  ℕ, ◌+◌, max, Bool, true, false, ◌&&◌, ◌||◌, not, Option, none, some, ◌∷◌, ltb, if◌then◌else◌,
}
use ushbooknpay.Base.Int.{ℤ, pos, pos_part, ◌-ℤ◌, max_ℤ}
use ushbooknpay.Base.Dict.{lookup, insert}
use ushbooknpay.Base.Session.{◌>>=◌, ◌>>◌, pure, raise_if, modify}
use ushbooknpay.Booking.Status as BookingStates
use ushbooknpay.Payment.Status as PaymentStates
use ushbooknpay.Booking.PaymentStatus.{success, refunded, partially_refunded, refunded_with_points}
use ushbooknpay.Payment.Refunds.Tables.{
  RefundMethod, payment_gateway, completed, failed, Refund, Payment, Booking, Db, wrong_status,
  is_open, is_completed, is_loyalty, reaches,
}
use ushbooknpay.Payment.Refunds.Sums.{completed_total, completed_total_but, retained_fee}
use ushbooknpay.Payment.Refunds.{Call, fetch, store, row_of, add_audit, check_cap}
use ushbooknpay.Payment.Refunds.Transitions.{is_failed, on_booking, or_else, put_payment}

abbrev pub is_gateway : RefundMethod → Bool
is_gateway payment_gateway = true
is_gateway _ = false

abbrev pub completed_row : Option ℕ → Refund → Refund
completed_row reference r = record r {
  status = completed;
  gateway_refund_id =
      if is_gateway r.refund_method
      then or_else r.gateway_refund_id reference
      else r.gateway_refund_id;
  reference_number =
      if is_gateway r.refund_method
      then r.reference_number
      else or_else r.reference_number reference;
}

-- The amount to reach for a full refund: the total less the fee that is kept.
unfoldable pub booking_target : ℕ → ℤ → ℕ
booking_target total fee = pos_part (max_ℤ (pos 0) (pos total -ℤ fee))

abbrev pub payment_status_for :
    ℕ → ℕ → PaymentStates.PaymentTransactionStatus → PaymentStates.PaymentTransactionStatus
payment_status_for returned total old =
    if reaches returned total
    then PaymentStates.refunded
    else if ltb 0 returned
    then PaymentStates.partially_refunded
    else old

-- The payment's row after a refund of it has been completed.
abbrev pub settled_payment : ℕ → Refund → Payment → Payment
settled_payment done r pay =
    let returned = max done (pay.amount_refunded + r.refunded_amount) in
    record pay {
      amount_refunded = returned;
      status = payment_status_for returned pay.total_amount pay.status;
    }

abbrev pub is_settled_fully : ℤ → Refund → Payment → Bool
is_settled_fully fee r settled =
    let target = booking_target settled.total_amount (max_ℤ fee r.cancellation_fee) in
    ltb 0 target && reaches settled.amount_refunded target

abbrev pub settled_booking : Bool → Bool → Booking → Booking
settled_booking loyalty fully b =
    if loyalty
    then record b { payment_status = refunded_with_points; status = BookingStates.cancelled }
    else record b {
      payment_status = if fully then refunded else partially_refunded;
      status = elim b.status [
        | BookingStates.cancelled ↦ BookingStates.cancelled
        | _ ↦ BookingStates.refunded
      ];
    }

-- The id itself; 0 where there is none, and then no row is found.
abbrev pub id_of : Option ℕ → ℕ
id_of none = 0
id_of (some i) = i

-- What `complete` does to the payment and the audit; with it, whether all is now refunded.
abbrev pub settle : ℕ → Refund → Db → Bool × Db
settle rid r d = elim (row_of r.payment_id d.payments) [
  | none ↦ (false, d)
  | some pay ↦
      if is_loyalty r.refund_method
      then (false, add_audit rid pay.status r.payment_id d)
      else let p = id_of r.payment_id in
        let settled = settled_payment (completed_total p d.refunds) r pay in
        (
          is_settled_fully (retained_fee p d.refunds) r settled,
          add_audit rid pay.status r.payment_id (put_payment r.payment_id settled d),
        )
]

abbrev pub is_missing : {V : Type 0} → Option V → Bool
is_missing none = true
is_missing (some _) = false

-- `complete`, after its checks
abbrev pub finish : ℕ → Option ℕ → Bool → Refund → Db → Db
finish rid reference publish r d =
    let row = completed_row reference r in
    let (fully, settled) = settle rid row (record d { refunds = insert rid row d.refunds }) in
    let all_done = fully || is_missing (row_of r.payment_id d.payments) in
    let final =
      on_booking r.booking_id (settled_booking (is_loyalty r.refund_method) all_done) settled in
    if publish then record final { events = (rid, fully) ∷ final.events } else final

-- The check against the paid amount, over the refunds that have been completed.
unfoldable pub check_paid : ℕ → Refund → Call (Unit {0})
check_paid rid r =
    if is_loyalty r.refund_method
    then pure tt
    else check_cap (completed_total_but rid) r.payment_id r.refunded_amount

-- Whether the refund made the transition.
unfoldable pub complete_found : ℕ → Option ℕ → Bool → Refund → Call Bool
complete_found rid reference publish r = if is_completed r.status then pure false else do
  raise_if (not (is_open r.status)) wrong_status
  check_paid rid r
  modify (finish rid reference publish r)
  pure true

unfoldable pub complete : ℕ → Option ℕ → Bool → Call Bool
complete rid reference publish = fetch rid >>= complete_found rid reference publish

abbrev pub reversed_payment : ℕ → Bool → Payment → Payment
reversed_payment done was_completed pay = record pay {
  amount_refunded = done;
  needs_attention = was_completed || pay.needs_attention;
}

abbrev pub reversed_booking : ℕ → Booking → Booking
reversed_booking returned b = record b {
  payment_status = if ltb 0 returned then partially_refunded else success;
}

-- `fail`, for a payment that was found
abbrev pub reverse : ℕ → ℕ → Refund → Payment → Db → Db
reverse rid p r pay d =
    let done = completed_total p d.refunds in
    let was_completed = is_completed r.status in
    let settled = put_payment (some p) (reversed_payment done was_completed pay) d in
    let audited = add_audit rid pay.status (some p) settled in
    if was_completed then on_booking r.booking_id (reversed_booking done) audited else audited

abbrev pub reverse_found : ℕ → Refund → Db → Db
reverse_found rid r d = elim r.payment_id [
  | none ↦ d
  | some p ↦ elim (lookup p d.payments) [ none ↦ d | some pay ↦ reverse rid p r pay d ]
]

unfoldable pub fail_found : ℕ → Refund → Call (Unit {0})
fail_found rid r =
    if is_failed r.status
    then pure tt
    else do store rid (record r { status = failed }); modify (reverse_found rid r)

unfoldable pub fail : ℕ → Call (Unit {0})
fail rid = fetch rid >>= fail_found rid
