-- ===== src/Payment/Refunds/Lifecycle.antt =====
-- All calls of `RefundLifecycle` of app/payment/application/refund_lifecycle.py in any order, and
-- `complete` made twice.
use ushbooknpay.Base.{
  ℕ, ◌≡◌, inl, inr, Bool-cases, Option-cases, refl, Bool, true, false, ◌||◌, Option, none, some,
  ◌∷◌, arith, if◌then◌else◌,
}
use mathlib.Core.Path.{◌∙◌}
use ushbooknpay.Base.Int.{ℤ}
use ushbooknpay.Base.Dict.{Dict, lookup, insert, lookup-insert}
use ushbooknpay.Base.Session.{ok}
use ushbooknpay.Payment.Status.{PaymentTransactionStatus}
use ushbooknpay.Payment.Refunds.Tables.{
  Refund, RefundMethod, Booking, Payment, Db, is_completed, is_open, is_loyalty,
}
use ushbooknpay.Payment.Refunds.{row_of, add_audit, Order, request, update_requested_amounts}
use ushbooknpay.Payment.Refunds.Transitions.{
  put_payment, on_booking, reject, approve, mark_processing,
}
use ushbooknpay.Payment.Refunds.Completion.{
  completed_row, settle, settled_payment, id_of, settled_booking, is_missing, finish,
  complete_found, complete, fail,
}
use ushbooknpay.Payment.Refunds.Sums.{completed_total}
use ushbooknpay.Payment.Refunds.Cap
use ushbooknpay.Payment.Refunds.Cap.Steps as Steps
use ushbooknpay.Payment.Refunds.Cap.Complete as Complete

-- A call of the class, with the id of the refund; for `ask`, the id that a new row would get.
pub data Operation : Type 0 where
  ask : ℕ → Order → Operation
  amend : ℕ → ℤ → ℤ → Operation
  turn_down : ℕ → Operation
  allow : ℕ → RefundMethod → ℤ → Operation
  send : ℕ → Option ℕ → Operation
  confirm : ℕ → Option ℕ → Bool → Operation
  undo : ℕ → Operation

-- What a call leaves in the session, whether it raises or not.
abbrev pub apply : Operation → Db → Db
apply (ask rid o) d = (request rid o d).1
apply (amend rid a f) d = (update_requested_amounts rid a f d).1
apply (turn_down rid) d = (reject rid d).1
apply (allow rid m a) d = (approve rid m a d).1
apply (send rid reference) d = (mark_processing rid reference d).1
apply (confirm rid reference publish) d = (complete rid reference publish d).1
apply (undo rid) d = (fail rid d).1

-- The sessions that calls lead to, one after the other.
pub data Leads : Db → Db → Type 0 where
  start : (d : Db) → Leads d d
  next : (d e : Db) → Leads d e → (o : Operation) → Leads d (apply o e)

apply-IsCapped : (o : Operation) (d : Db) → Cap.IsCapped d → Cap.IsCapped (apply o d)
unfolding Cap.IsCapping
apply-IsCapped (ask rid o) d w = Steps.request-IsCapping rid o d w
apply-IsCapped (amend rid a f) d w = Steps.update-IsCapping rid a f d w
apply-IsCapped (turn_down rid) d w = Steps.reject-IsCapping rid d w
apply-IsCapped (allow rid m a) d w = Steps.approve-IsCapping rid m a d w
apply-IsCapped (send rid reference) d w = Steps.mark_processing-IsCapping rid reference d w
apply-IsCapped (confirm rid reference publish) d w =
    Complete.complete-IsCapping rid reference publish d w
apply-IsCapped (undo rid) d w = Steps.fail-IsCapping rid d w

-- Whatever calls are made on the refunds, in whatever order, with whatever amounts: if each refund has
-- one row and no payment's completed refunds, those as loyalty points aside, exceed its total at the
-- start, then so it is at the end.
pub Leads-IsCapped : (d e : Db) → Leads d e → Cap.IsCapped d → Cap.IsCapped e
Leads-IsCapped _ _ (start d) w = w
Leads-IsCapped _ _ (next d c before o) w = apply-IsCapped o c (Leads-IsCapped d c before w)

pub add_audit-refunds :
    (k : ℕ) (s : PaymentTransactionStatus) (p : Option ℕ) (d : Db)
    → (add_audit k s p d).refunds ≡ d.refunds
add_audit-refunds k s none d = refl
add_audit-refunds k s (some p) d = elim (Option-cases (lookup p d.payments)) [
  | inl e ↦ rw (add_audit, e) refl
  | inr (pay, e) ↦ rw (add_audit, e) refl
]

on_booking-refunds :
    (b : Option ℕ) (f : Booking → Booking) (d : Db) → (on_booking b f d).refunds ≡ d.refunds
on_booking-refunds none f d = refl
on_booking-refunds (some b) f d = elim (Option-cases (lookup b d.bookings)) [
  | inl e ↦ rw (on_booking, e) refl
  | inr (row, e) ↦ rw (on_booking, e) refl
]

put_payment-refunds :
    (p : Option ℕ) (pay : Payment) (d : Db) → (put_payment p pay d).refunds ≡ d.refunds
put_payment-refunds none pay d = refl
put_payment-refunds (some p) pay d = refl

settle-refunds : (rid : ℕ) (r : Refund) (d : Db) → (settle rid r d).1.refunds ≡ d.refunds
settle-refunds rid r d = elim (Option-cases (row_of r.payment_id d.payments)) [
  | inl e ↦ rw (settle, e) refl
  | inr (pay, e) ↦ elim (Bool-cases (is_loyalty r.refund_method)) [
    | inl points ↦ rw (settle, e, points) (add_audit-refunds rid pay.status r.payment_id d)
    | inr money ↦
        let settled =
          put_payment r.payment_id
            (settled_payment (completed_total (id_of r.payment_id) d.refunds) r pay) d in
        rw (settle, e, money)
          (add_audit-refunds rid pay.status r.payment_id settled
            ∙ put_payment-refunds r.payment_id _ d)
  ]
]

either-refunds :
    (c : Bool) (x y : Db) (rows : Dict Refund)
    → x.refunds ≡ rows
    → y.refunds ≡ rows
    → (if c then x else y).refunds ≡ rows
either-refunds true x y rows h k = h
either-refunds false x y rows h k = k

-- The row of the refund is the only one that a completion writes.
pub finish-refunds :
    (rid : ℕ) (reference : Option ℕ) (publish : Bool) (r : Refund) (d : Db)
    → (finish rid reference publish r d).refunds ≡ insert rid (completed_row reference r) d.refunds
finish-refunds rid reference publish r d =
    let row = completed_row reference r in
    let stored = record d { refunds = insert rid row d.refunds } in
    let (fully, settled) = settle rid row stored in
    let all_done = fully || is_missing (row_of r.payment_id d.payments) in
    let final =
      on_booking r.booking_id (settled_booking (is_loyalty r.refund_method) all_done) settled in
    let h : final.refunds ≡ insert rid row d.refunds =
      on_booking-refunds r.booking_id (settled_booking (is_loyalty r.refund_method) all_done)
        settled
      ∙ settle-refunds rid row stored in
    either-refunds publish (record final { events = (rid, fully) ∷ final.events }) final _ h h

complete-again :
    (rid : ℕ) (reference : Option ℕ) (publish : Bool) (r : Refund) (d : Db)
    → lookup rid d.refunds ≡ some r
    → is_completed r.status ≡ true
    → complete rid reference publish d ≡ (ok false, d)
unfolding complete complete_found
complete-again rid reference publish r d e h =
    rw (Complete.on_found rid r (complete_found rid reference publish) d e, h) refl

pub complete-finish :
    (rid : ℕ) (reference : Option ℕ) (publish : Bool) (r : Refund) (d : Db)
    → lookup rid d.refunds ≡ some r
    → is_open r.status ≡ true
    → Complete.IsPayable rid r d
    → complete rid reference publish d ≡ (ok true, finish rid reference publish r d)
unfolding complete
complete-finish rid reference publish r d found h payable =
    Complete.on_found rid r (complete_found rid reference publish) d found
    ∙ Complete.complete_found-finish rid reference publish r d (ground arith) h payable

pub finished_row :
    (rid : ℕ) (reference : Option ℕ) (publish : Bool) (r : Refund) (d : Db)
    → lookup rid (finish rid reference publish r d).refunds ≡ some (completed_row reference r)
finished_row rid reference publish r d =
    let row = completed_row reference r in
    rw (finish-refunds rid reference publish r d)
      (ground (arith, lookup-insert rid rid row d.refunds))

-- Made on an open refund that passes the cap (a refund as points passes it always), the call makes the
-- transition, and the refund is then completed; made again, whatever its other arguments, it reports
-- no transition and changes nothing: no second event, audit row or change of the payment's amounts.
pub complete-once :
    (rid : ℕ) (reference other : Option ℕ) (publish again : Bool) (r : Refund) (d : Db)
    → lookup rid d.refunds ≡ some r
    → is_open r.status ≡ true
    → Complete.IsPayable rid r d
    → let after = complete rid reference publish d in
      (after.0 ≡ ok true)
      × (lookup rid after.1.refunds ≡ some (completed_row reference r))
      × (complete rid other again after.1 ≡ (ok false, after.1))
complete-once rid reference other publish again r d found h payable =
    let row = finished_row rid reference publish r d in
    rw (complete-finish rid reference publish r d found h payable) (
      refl,
      row,
      complete-again rid other again (completed_row reference r) (finish rid reference publish r d)
          row refl,
    )
