-- ===== src/Payment/Refunds/Settled.antt =====
-- What a completion in `RefundLifecycle` of app/payment/application/refund_lifecycle.py leaves on the
-- payment.
use ushbooknpay.Base.{
  ℕ, max, ◌+◌, ◌*◌, ◌≤◌, ◌<◌, ◌≡◌, ◌∙◌, ◌⊎◌, inl, inr, ltb, Bool-cases, Option-cases, refl, Bool,
  true, false, ◌&&◌, ◌||◌, Option, none, some, ◌∷◌, arith, if◌then◌else◌,
}
use ushbooknpay.Base.Dict.{Dict, lookup, insert, lookup-insert}
use ushbooknpay.Payment.Status.{PaymentTransactionStatus, refunded, partially_refunded}
use ushbooknpay.Payment.Refunds.Tables.{
  Refund, Payment, Booking, Db, is_completed, is_open, is_loyalty,
}
use ushbooknpay.Payment.Refunds.Sums.{of_payment, completed_total, sum-insert}
use ushbooknpay.Payment.Refunds.{row_of, add_audit}
use ushbooknpay.Payment.Refunds.Transitions.{put_payment, on_booking}
use ushbooknpay.Payment.Refunds.Completion.{
  payment_status_for, completed_row, settled_payment, settle, settled_booking, is_missing, id_of,
  finish, complete,
}
use ushbooknpay.Payment.Refunds.Cap.Complete as Complete
use ushbooknpay.Payment.Refunds.Lifecycle.{complete-finish, finish-refunds}

add_audit-payments :
    (k : ℕ) (s : PaymentTransactionStatus) (p : Option ℕ) (d : Db)
    → (add_audit k s p d).payments ≡ d.payments
add_audit-payments k s none d = refl
add_audit-payments k s (some p) d = elim (Option-cases (lookup p d.payments)) [
  | inl e ↦ rw (add_audit, e) refl
  | inr (pay, e) ↦ rw (add_audit, e) refl
]

on_booking-payments :
    (b : Option ℕ) (f : Booking → Booking) (d : Db) → (on_booking b f d).payments ≡ d.payments
on_booking-payments none f d = refl
on_booking-payments (some b) f d = elim (Option-cases (lookup b d.bookings)) [
  | inl e ↦ rw (on_booking, e) refl
  | inr (row, e) ↦ rw (on_booking, e) refl
]

either-payments :
    (c : Bool) (x y : Db) (rows : Dict Payment)
    → x.payments ≡ rows
    → y.payments ≡ rows
    → (if c then x else y).payments ≡ rows
either-payments true x y rows h k = h
either-payments false x y rows h k = k

settle-put :
    (rid : ℕ) (r : Refund) (pay : Payment) (d : Db)
    → row_of r.payment_id d.payments ≡ some pay
    → is_loyalty r.refund_method ≡ false
    → (settle rid r d).1.payments
      ≡ (put_payment r.payment_id
          (settled_payment (completed_total (id_of r.payment_id) d.refunds) r pay)
          d).payments
settle-put rid r pay d found money =
    rw (settle, found, money)
      (add_audit-payments rid pay.status r.payment_id (
        put_payment r.payment_id
          (settled_payment (completed_total (id_of r.payment_id) d.refunds) r pay) d))

put-payments :
    (pid : Option ℕ) (p : ℕ) (r : Refund) (pay : Payment) (d : Db)
    → pid ≡ some p
    → (put_payment pid (settled_payment (completed_total (id_of pid) d.refunds) r pay) d).payments
      ≡ insert p (settled_payment (completed_total p d.refunds) r pay) d.payments
put-payments pid p r pay d named = rw (named) refl

found_row :
    (pid : Option ℕ) (p : ℕ) (pay : Payment) (rows : Dict Payment)
    → pid ≡ some p
    → lookup p rows ≡ some pay
    → row_of pid rows ≡ some pay
found_row pid p pay rows named found = rw named found

settle-payments :
    (rid p : ℕ) (r : Refund) (pay : Payment) (d : Db)
    → r.payment_id ≡ some p
    → lookup p d.payments ≡ some pay
    → is_loyalty r.refund_method ≡ false
    → (settle rid r d).1.payments
      ≡ insert p (settled_payment (completed_total p d.refunds) r pay) d.payments
settle-payments rid p r pay d named found money =
    settle-put rid r pay d (found_row r.payment_id p pay d.payments named found) money
    ∙ put-payments r.payment_id p r pay d named

-- The row of the payment after a completion.
finish-payment :
    (rid : ℕ) (reference : Option ℕ) (publish : Bool) (p : ℕ) (r : Refund) (pay : Payment) (d : Db)
    → r.payment_id ≡ some p
    → lookup p d.payments ≡ some pay
    → is_loyalty r.refund_method ≡ false
    → let row = completed_row reference r in
      (finish rid reference publish r d).payments
      ≡ insert p (settled_payment (completed_total p (insert rid row d.refunds)) row pay) d.payments
finish-payment rid reference publish p r pay d named found money =
    let row = completed_row reference r in
    let stored = record d { refunds = insert rid row d.refunds } in
    let (fully, settled) = settle rid row stored in
    let all_done = fully || is_missing (row_of r.payment_id d.payments) in
    let final =
      on_booking r.booking_id (settled_booking (is_loyalty r.refund_method) all_done) settled in
    let h =
      on_booking-payments r.booking_id (settled_booking (is_loyalty r.refund_method) all_done)
        settled
      ∙ settle-payments rid p row pay stored named found money in
    either-payments publish (record final { events = (rid, fully) ∷ final.events }) final _ h h

-- A completed refund adds its amount to what the payment's completed refunds come to.
completed_total-insert :
    (rid p : ℕ) (reference : Option ℕ) (r : Refund) (rows : Dict Refund)
    → lookup rid rows ≡ some r
    → is_completed r.status ≡ false
    → r.payment_id ≡ some p
    → completed_total p (insert rid (completed_row reference r) rows)
      ≡ completed_total p rows + r.refunded_amount
completed_total-insert rid p reference r rows found open_row named = ground (
  arith,
  named,
  sum-insert (λ i x. of_payment p x && is_completed x.status) rid r (completed_row reference r) rows
      found,
)

finished_payment :
    (rid : ℕ) (reference : Option ℕ) (publish : Bool) (p : ℕ) (r : Refund) (pay : Payment) (d : Db)
    → r.payment_id ≡ some p
    → lookup p d.payments ≡ some pay
    → is_loyalty r.refund_method ≡ false
    → let row = completed_row reference r in
      lookup p (finish rid reference publish r d).payments
      ≡ some (settled_payment (completed_total p (insert rid row d.refunds)) row pay)
finished_payment rid reference publish p r pay d named found money =
    let row = completed_row reference r in
    let settled = settled_payment (completed_total p (insert rid row d.refunds)) row pay in
    rw (finish-payment rid reference publish p r pay d named found money)
      (ground (arith, lookup-insert p p settled d.payments))

-- The payment's status after a refund: refunded from the total on, and before that partially refunded,
-- or as it was while nothing has come back.
abbrev pub IsReturned : Payment → Payment → Type 0
IsReturned old new =
    ((old.total_amount ≤ new.amount_refunded) × (new.status ≡ refunded))
    ⊎ ((new.amount_refunded < old.total_amount)
        × (0 < new.amount_refunded)
        × (new.status ≡ partially_refunded))
    ⊎ ((new.amount_refunded < old.total_amount)
        × (new.amount_refunded ≡ 0)
        × (new.status ≡ old.status))

IsReturned-settled :
    (n : ℕ) (pay : Payment)
    → IsReturned pay (record pay {
      amount_refunded = n;
      status = payment_status_for n pay.total_amount pay.status;
    })
IsReturned-settled n pay = elim (Bool-cases (ltb (2 * n + 1) (2 * pay.total_amount))) [
  | inr e ↦ inl (ground (arith, e), rw e refl)
  | inl e ↦ elim (Bool-cases (ltb 0 n)) [
    | inl f ↦ inr (inl (ground (arith, e), ground (arith, f), rw (e, f) refl))
    | inr f ↦ inr (inr (ground (arith, e), ground (arith, f), rw (e, f) refl))
  ]
]

-- If a payment's refunded amount is at most what its completed refunds come to, then completing an
-- open refund of it in money, one that passes the cap, makes the refunded amount exactly what the
-- completed refunds then come to, which is the refund's amount more than before; the payment's status
-- becomes refunded if that reaches the total, else partially refunded, and it is as before if nothing
-- has been refunded.
pub complete-amounts :
    (rid : ℕ) (reference : Option ℕ) (publish : Bool) (p : ℕ) (r : Refund) (pay : Payment) (d : Db)
    → lookup rid d.refunds ≡ some r
    → is_open r.status ≡ true
    → is_loyalty r.refund_method ≡ false
    → Complete.IsPayable rid r d
    → r.payment_id ≡ some p
    → lookup p d.payments ≡ some pay
    → pay.amount_refunded ≤ completed_total p d.refunds
    → let after = (complete rid reference publish d).1 in
      (new : Payment) × (lookup p after.payments ≡ some new)
      × (new.amount_refunded ≡ completed_total p after.refunds)
      × (new.amount_refunded ≡ completed_total p d.refunds + r.refunded_amount)
      × IsReturned pay new
complete-amounts rid reference publish p r pay d found h money payable named paid le =
    let row = completed_row reference r in
    let total = completed_total p (insert rid row d.refunds) in
    let grown = completed_total-insert rid p reference r d.refunds found (ground arith) named in
    let same : max total (pay.amount_refunded + r.refunded_amount) ≡ total =
      ground (arith, grown) in
    rw (complete-finish rid reference publish r d found h payable) (
      settled_payment total row pay,
      finished_payment rid reference publish p r pay d named paid money,
      rw (finish-refunds rid reference publish r d) same,
      same ∙ grown,
      IsReturned-settled (max total (pay.amount_refunded + r.refunded_amount)) pay,
    )
