-- ===== src/Payment/Refunds.antt =====
-- `RefundLifecycle` of app/payment/application/refund_lifecycle.py. A call is given the id of the
-- refund whose row its caller holds.
pub mod Tables
pub mod Sums
pub mod Transitions
pub mod Completion
pub mod Cap
pub mod Lifecycle
pub mod Request
pub mod Settled
use ushbooknpay.Base.{
  ℕ, ◌+◌, max, Bool, true, false, ◌&&◌, ◌||◌, not, Option, none, some, List, [], ◌∷◌, ltb, leb,
  ◌==◌, if◌then◌else◌,
}
use ushbooknpay.Base.Int.{ℤ, pos, pos_part, neg_part, ◌+ℤ◌, ◌-ℤ◌, ltb_ℤ, leb_ℤ, max_ℤ}
use ushbooknpay.Base.Dict.{Dict, lookup, insert}
use ushbooknpay.Base.Session.{
  Outcome, ok, err, Exec, ◌>>=◌, ◌>>◌, pure, raise, raise_if, gets, modify,
}
use ushbooknpay.Booking.Status as BookingStatus
use ushbooknpay.Payment.Status.{PaymentTransactionStatus}
use ushbooknpay.Payment.Refunds.Tables.{
  RefundType, automated, RefundMethod, payment_gateway, RefundStatus, requested, approved, rejected,
  processing, completed, failed, Refund, Payment, Booking, Audit, Db, RefundError, not_positive,
  negative_fee, over_balance, wrong_status, unknown_refund, is_open, is_loyalty, exceeds, reaches,
}
use ushbooknpay.Payment.Refunds.Sums.{
  completed_total, completed_total_but, committed_total, committed_total_but, retained_fee,
}

abbrev pub Call : Type 0 → Type 0
Call A = Exec Db RefundError A

abbrev pub fetch : ℕ → Call Refund
fetch rid d = (elim (lookup rid d.refunds) [ none ↦ err unknown_refund | some r ↦ ok r ], d)

abbrev pub store : ℕ → Refund → Call (Unit {0})
store rid r d = (ok tt, record d { refunds = insert rid r d.refunds })

-- `_payment_of` and `_booking_of`: the row that an id names, if there is one
abbrev pub row_of : {V : Type 0} → Option ℕ → Dict V → Option V
row_of none rows = none
row_of (some i) rows = lookup i rows

-- `_audit`, for a refund that has a payment
abbrev pub add_audit : ℕ → PaymentTransactionStatus → Option ℕ → Db → Db
add_audit rid old none d = d
add_audit rid old (some p) d = elim (lookup p d.payments) [
  | none ↦ d
  | some pay ↦ record d {
    audit =
        record { payment_id = p; refund_id = rid; old_status = old; new_status = pay.status }
        ∷ d.audit;
  }
]

-- With the payment's own status for the old one.
abbrev pub audit_unchanged : ℕ → Option ℕ → Call (Unit {0})
audit_unchanged rid pid d =
    (ok tt, elim (row_of pid d.payments) [ none ↦ d | some pay ↦ add_audit rid pay.status pid d ])

-- `is_fully_refunded`, for the payment that was found for the booking
unfoldable pub is_fully_refunded : ℕ → Payment → Db → Bool
is_fully_refunded p pay d =
    let target = pos_part (max_ℤ (pos 0) (pos pay.total_amount -ℤ retained_fee p d.refunds)) in
    ltb 0 target && reaches (completed_total p d.refunds) target

-- `Refund.idempotency_key == idempotency_key`
abbrev pub same_key : ℕ → Refund → Bool
same_key k r = elim r.idempotency_key [ none ↦ false | some x ↦ x == k ]

unfoldable pub with_key : ℕ → Dict Refund → Option ℕ
with_key k [] = none
with_key k (e ∷ rows) = if same_key k e.1 then some e.0 else with_key k rows

abbrev pub existing : Option ℕ → Dict Refund → Option ℕ
existing none rows = none
existing (some k) rows = with_key k rows

-- What a caller asks for.
pub record Order : Type 0 where
  pub booking : ℕ
  pub payment : Option ℕ
  pub refund_amount : ℤ
  pub fee : ℤ
  pub kind : RefundType
  pub method : RefundMethod
  pub key : Option ℕ

abbrev pub requested_row : Order → Refund
requested_row o = record {
  payment_id = o.payment;
  booking_id = some o.booking;
  idempotency_key = o.key;
  refund_type = o.kind;
  refund_method = o.method;
  status = requested;
  requested_amount = o.refund_amount +ℤ o.fee;
  cancellation_fee = o.fee;
  refunded_amount = pos_part o.refund_amount;
  gateway_refund_id = none;
  reference_number = none;
}

-- The cap: with the payment's other committed refunds, the amount stays within the total.
abbrev pub over_cap : (ℕ → Dict Refund → ℕ) → Option ℕ → ℕ → Db → Bool
over_cap committed none amount d = false
over_cap committed (some p) amount d = elim (lookup p d.payments) [
  | none ↦ false
  | some pay ↦ exceeds (committed p d.refunds + amount) pay.total_amount
]

abbrev pub check_cap : (ℕ → Dict Refund → ℕ) → Option ℕ → ℕ → Call (Unit {0})
check_cap committed pid amount d = raise_if (over_cap committed pid amount d) over_balance d

-- The part of `request` after the look-up of the key; `rid` is the new row's id.
unfoldable pub create : ℕ → Order → Call (ℕ × Bool)
create rid o = do
  raise_if (leb_ℤ o.refund_amount (pos 0)) not_positive
  raise_if (ltb_ℤ o.fee (pos 0)) negative_fee
  check_cap committed_total o.payment (pos_part o.refund_amount)
  store rid (requested_row o)
  audit_unchanged rid o.payment
  pure (rid, true)

unfoldable pub request : ℕ → Order → Call (ℕ × Bool)
request rid o d = elim (existing o.key d.refunds) [
  | none ↦ create rid o d
  | some i ↦ (ok (i, false), d)
]

abbrev pub is_requested : RefundStatus → Bool
is_requested requested = true
is_requested _ = false

unfoldable pub update_found : ℕ → ℤ → ℤ → Refund → Call (Unit {0})
update_found rid amount fee r = do
  raise_if (not (is_requested r.status)) wrong_status
  raise_if (leb_ℤ amount (pos 0)) not_positive
  check_cap (committed_total_but rid) r.payment_id (pos_part amount)
  store rid (record r {
    refunded_amount = pos_part amount;
    cancellation_fee = fee;
    requested_amount = amount +ℤ fee;
  })

unfoldable pub update_requested_amounts : ℕ → ℤ → ℤ → Call (Unit {0})
update_requested_amounts rid amount fee = fetch rid >>= update_found rid amount fee
