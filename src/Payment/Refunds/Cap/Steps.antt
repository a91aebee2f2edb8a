-- ===== src/Payment/Refunds/Cap/Steps.antt =====
-- The operations of app/payment/application/refund_lifecycle.py that write no completed refund.
use ushbooknpay.Base.{
  ℕ, ◌≡◌, inl, inr, Option-cases, refl, Bool, true, false, not, Option, some, arith, if◌then◌else◌,
}
use ushbooknpay.Base.Int.{ℤ}
use ushbooknpay.Base.Dict.{lookup}
use ushbooknpay.Base.Session.{pure, modify}
use ushbooknpay.Booking.PaymentStatus.{refunded_with_points}
use ushbooknpay.Payment.Refunds.Tables.{
  Refund, RefundMethod, Payment, Db, wrong_status, is_completed, is_loyalty,
}
use ushbooknpay.Payment.Refunds.{
  fetch, add_audit, check_cap, Order, existing, create, request, update_found,
  update_requested_amounts, is_requested,
}
use ushbooknpay.Payment.Refunds.Transitions.{
  put_payment, on_booking, promise_points, check_unless_points, reject_found, reject, approve_found,
  approve, mark_processing_found, mark_processing,
}
use ushbooknpay.Payment.Refunds.Completion.{
  reverse, reverse_found, reversed_payment, reversed_booking, fail_found, fail,
}
use ushbooknpay.Payment.Refunds.Sums.{completed_total, committed_total_but}
use ushbooknpay.Payment.Refunds.Cap

create-IsCapping : (rid : ℕ) (o : Order) → Cap.IsCapping (create rid o)
unfolding create
create-IsCapping rid o = search Cap.capping depth 16

pub request-IsCapping : (rid : ℕ) (o : Order) → Cap.IsCapping (request rid o)
unfolding request Cap.IsCapping
request-IsCapping rid o d w = elim (Option-cases (existing o.key d.refunds)) [
  | inr (i, e) ↦ rw (request, e) w
  | inl e ↦ rw (request, e) (create-IsCapping rid o d w)
]

pub update-IsCapping : (rid : ℕ) (a f : ℤ) → Cap.IsCapping (update_requested_amounts rid a f)
unfolding update_requested_amounts update_found
update-IsCapping rid a f =
    Cap.bind-IsCapping (fetch rid) (update_found rid a f) (Cap.fetch-IsCapping rid) λ r.
      Cap.checked-IsCapping (not (is_requested r.status)) wrong_status _ λ h.
        Cap.then-IsCapping _ _ (Cap.raise_if-IsCapping _ _) (
          Cap.then-IsCapping _ _ (Cap.check_cap-IsCapping _ _ _)
            (Cap.store-IsCapping rid _ (ground arith)))

reject_found-IsCapping : (rid : ℕ) (r : Refund) → Cap.IsCapping (reject_found rid r)
unfolding reject_found
reject_found-IsCapping rid r = search (Cap.capping) depth 20

pub reject-IsCapping : (rid : ℕ) → Cap.IsCapping (reject rid)
unfolding reject
reject-IsCapping rid =
    Cap.bind-IsCapping (fetch rid) (reject_found rid) (Cap.fetch-IsCapping rid)
      (reject_found-IsCapping rid)

mark_processing_found-IsCapping :
    (rid : ℕ) (reference : Option ℕ) (r : Refund)
    → Cap.IsCapping (mark_processing_found rid reference r)
unfolding mark_processing_found
mark_processing_found-IsCapping rid reference r = search (Cap.capping) depth 20

pub mark_processing-IsCapping :
    (rid : ℕ) (reference : Option ℕ) → Cap.IsCapping (mark_processing rid reference)
unfolding mark_processing
mark_processing-IsCapping rid reference =
    Cap.bind-IsCapping (fetch rid) (mark_processing_found rid reference) (Cap.fetch-IsCapping rid)
      (mark_processing_found-IsCapping rid reference)

check_unless_points-IsCapping :
    (m : RefundMethod) (r : Refund) (rid net : ℕ) → Cap.IsCapping (check_unless_points m r rid net)
check_unless_points-IsCapping m r rid net =
    Cap.if-IsCapping (is_loyalty m) (pure tt) (check_cap (committed_total_but rid) r.payment_id net)
      (Cap.pure-IsCapping tt) (Cap.check_cap-IsCapping (committed_total_but rid) r.payment_id net)

promise_points-IsCapping : (m : RefundMethod) (r : Refund) → Cap.IsCapping (promise_points m r)
promise_points-IsCapping m r =
    Cap.if-IsCapping (is_loyalty m) (modify promised) (pure tt)
      (Cap.modify-IsCapping promised (Cap.on_booking-IsCapped r.booking_id _))
      (Cap.pure-IsCapping tt)
  where
    promised : Db → Db
    promised = on_booking r.booking_id λ b. record b { payment_status = refunded_with_points }

approve_found-IsCapping :
    (rid : ℕ) (m : RefundMethod) (a : ℤ) (r : Refund) → Cap.IsCapping (approve_found rid m a r)
unfolding approve_found
approve_found-IsCapping rid m a r =
    search (Cap.capping, check_unless_points-IsCapping, promise_points-IsCapping) depth 20

pub approve-IsCapping : (rid : ℕ) (m : RefundMethod) (a : ℤ) → Cap.IsCapping (approve rid m a)
unfolding approve
approve-IsCapping rid m a =
    Cap.bind-IsCapping (fetch rid) (approve_found rid m a) (Cap.fetch-IsCapping rid)
      (approve_found-IsCapping rid m a)

-- A new row for the payment that was found, of the same total.
pub put_payment-IsCapped :
    (p : ℕ) (old new : Payment) (d : Db)
    → lookup p d.payments ≡ some old
    → new.total_amount ≡ old.total_amount
    → Cap.IsCapped d
    → Cap.IsCapped (put_payment (some p) new d)
put_payment-IsCapped p old new d found same w =
    Cap.payment-IsWithin p old new d.refunds d.payments found same w

pub either-IsCapped :
    (c : Bool) (x y : Db) → Cap.IsCapped x → Cap.IsCapped y → Cap.IsCapped (if c then x else y)
either-IsCapped true x y h k = h
either-IsCapped false x y h k = k

reverse-IsCapped :
    (rid p : ℕ) (r : Refund) (pay : Payment) (d : Db)
    → lookup p d.payments ≡ some pay
    → Cap.IsCapped d
    → Cap.IsCapped (reverse rid p r pay d)
reverse-IsCapped rid p r pay d found w =
    let done = completed_total p d.refunds in
    let was_completed = is_completed r.status in
    let settled = put_payment (some p) (reversed_payment done was_completed pay) d in
    let audited = add_audit rid pay.status (some p) settled in
    let h =
      Cap.add_audit-IsCapped rid pay.status (some p) settled
        (put_payment-IsCapped p pay (reversed_payment done was_completed pay) d found refl w) in
    either-IsCapped was_completed _ audited
      (Cap.on_booking-IsCapped r.booking_id (reversed_booking done) audited h) h

reverse_found-IsCapped :
    (rid : ℕ) (r : Refund) (d : Db) → Cap.IsCapped d → Cap.IsCapped (reverse_found rid r d)
reverse_found-IsCapped rid r d w = elim (Option-cases r.payment_id) [
  | inl e ↦ rw (reverse_found, e) w
  | inr (p, e) ↦ elim (Option-cases (lookup p d.payments)) [
    | inl h ↦ rw (reverse_found, e, h) w
    | inr (pay, h) ↦ rw (reverse_found, e, h) (reverse-IsCapped rid p r pay d h w)
  ]
]

fail_found-IsCapping : (rid : ℕ) (r : Refund) → Cap.IsCapping (fail_found rid r)
unfolding fail_found
fail_found-IsCapping rid r =
    search (Cap.capping, Cap.modify-IsCapping, reverse_found-IsCapped) depth 20

pub fail-IsCapping : (rid : ℕ) → Cap.IsCapping (fail rid)
unfolding fail
fail-IsCapping rid =
    Cap.bind-IsCapping (fetch rid) (fail_found rid) (Cap.fetch-IsCapping rid)
      (fail_found-IsCapping rid)
