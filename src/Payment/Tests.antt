-- ===== src/Payment/Tests.antt =====
-- A payment that is refunded in part, worked through.
use ushbooknpay.Base.{◌+◌, ℕ, ◌≤◌, ◌≡◌, refl, inr, true, false, none, some, [], ◌∷◌, arith}
use ushbooknpay.Base.Int.{ℤ, pos, ◌-ℤ◌, ◌+ℤ◌}
use ushbooknpay.Base.Dict.{insert, lookup}
use ushbooknpay.Base.Session.{ok}
use ushbooknpay.Booking.PaymentStatus.{not_initiated}
use ushbooknpay.Booking.Status as BookingStates
use ushbooknpay.Payment.Status.{success}
use ushbooknpay.Payment.Refunds.Tables.{manual, cash, processing, Refund, Payment, Booking, Db}
use ushbooknpay.Payment.Refunds.Sums.{sum_where, completed_total, paid_out}
use ushbooknpay.Payment.Refunds.{Order, with_key, create, request}
use ushbooknpay.Payment.Refunds.Request.{request-once}
use ushbooknpay.Payment.Refunds.Settled.{IsReturned, complete-amounts}
use ushbooknpay.Payment.Refunds.Completion.{completed_row, complete, complete_found, check_paid}
use ushbooknpay.Payment.Refunds.Cap.{IsCapped}
use ushbooknpay.Payment.Refunds.Transitions.{mark_processing, mark_processing_found}
use ushbooknpay.Payment.Service.{
  Desk, GatewayAnswer, accepted, RefundOrder, find_open_refund, request_new,
  resolve_refund_to_execute, submit, process_gateway_refund, record_manual_refund,
}
use ushbooknpay.Payment.Service.Manual.{IsAllowed, IsCompleted, record_manual_refund-IsCompleted}
use ushbooknpay.Payment.Refunds.Lifecycle.{
  confirm, start, next, apply, Leads-IsCapped, complete-once,
}

-- Of a payment of 30, 10 are on their way back in cash.
abbrev pay : Payment
pay = record {
  total_amount = 30000;
  amount_refunded = 0;
  status = success;
  needs_attention = false;
}

abbrev back : Refund
back = record {
  payment_id = some 1;
  booking_id = some 2;
  idempotency_key = some 9;
  refund_type = manual;
  refund_method = cash;
  status = processing;
  requested_amount = pos 12000;
  cancellation_fee = pos 2000;
  refunded_amount = 10000;
  gateway_refund_id = none;
  reference_number = none;
}

abbrev booking : Booking
booking = record { status = BookingStates.confirmed; payment_status = not_initiated }

abbrev db : Db
db = record {
  refunds = (5, back) ∷ [];
  payments = (1, pay) ∷ [];
  bookings = (2, booking) ∷ [];
  audit = [];
  events = [];
}

none_paid : (p : ℕ) (found : Payment) → paid_out p db.refunds ≤ found.total_amount
unfolding sum_where
none_paid p found = ground arith

db-IsCapped : IsCapped db
unfolding lookup sum_where
db-IsCapped = ((refl, tt), λ p found e. none_paid p found)

Leads-IsCapped_example : IsCapped (apply (confirm 5 (some 77) true) db)
Leads-IsCapped_example =
    Leads-IsCapped db (apply (confirm 5 (some 77) true) db)
      (next db db (start db) (confirm 5 (some 77) true)) db-IsCapped

complete-once_example :
    ((complete 5 (some 77) true db).0 ≡ ok true)
    × (lookup 5 (complete 5 (some 77) true db).1.refunds ≡ some (completed_row (some 77) back))
    × (complete 5 none false (complete 5 (some 77) true db).1
        ≡ (ok false, (complete 5 (some 77) true db).1))
unfolding lookup sum_where
complete-once_example = complete-once 5 (some 77) none true false back db refl refl (inr refl)

-- 5 are asked for, in two requests with one key.
abbrev order : ℤ → Order
order amount = record {
  booking = 2;
  payment = some 1;
  refund_amount = amount;
  fee = pos 0;
  kind = manual;
  method = cash;
  key = some 8;
}

request-once_example :
    request 7 (order (pos 9000)) (request 6 (order (pos 5000)) db).1
    ≡ (ok (6, false), (request 6 (order (pos 5000)) db).1)
unfolding request create with_key lookup sum_where insert
request-once_example =
    request-once 6 7 (order (pos 5000)) (order (pos 9000)) db 8 6 true refl refl refl refl

complete-amounts_example :
    let after = (complete 5 (some 77) true db).1 in
    (new : Payment) × (lookup 1 after.payments ≡ some new)
    × (new.amount_refunded ≡ completed_total 1 after.refunds)
    × (new.amount_refunded ≡ completed_total 1 db.refunds + back.refunded_amount)
    × IsReturned pay new
unfolding lookup sum_where
complete-amounts_example =
    complete-amounts 5 (some 77) true 1 back pay db refl refl refl (inr refl) refl refl
      (omega arith)

-- A payment of 30 without refunds, for the service.
abbrev desk : Desk
desk = record {
  db = record {
    refunds = [];
    payments = (1, pay) ∷ [];
    bookings = (2, booking) ∷ [];
    audit = [];
    events = [];
  };
  asked = [];
}

abbrev gateway : ℕ → ℕ → GatewayAnswer
gateway gid amount = accepted (some 5)

abbrev refund_order : RefundOrder
refund_order = record {
  booking = 2;
  payment = some 1;
  gateway_payment_id = some 77;
  refund_amount = none;
  cancellation_fee = pos 2000;
}

asks_for_the_rest : (process_gateway_refund gateway 6 refund_order desk).1.asked ≡ (6, 28000) ∷ []
unfolding process_gateway_refund resolve_refund_to_execute find_open_refund request_new request
    create submit mark_processing mark_processing_found lookup insert sum_where ◌-ℤ◌ ◌+ℤ◌
asks_for_the_rest = refl

by_hand : (record_manual_refund 6 2 (some 1) (pos 5000) (pos 0) cash none desk).0 ≡ ok 6
unfolding record_manual_refund resolve_refund_to_execute find_open_refund request_new request create
    complete complete_found check_paid lookup insert sum_where ◌-ℤ◌ ◌+ℤ◌
by_hand = refl

record_manual_refund-IsCompleted_example :
    IsAllowed (pos 5000) (pos 0)
    × IsCompleted 6 (record_manual_refund 6 2 (some 1) (pos 5000) (pos 0) cash none desk).1.db
record_manual_refund-IsCompleted_example =
    record_manual_refund-IsCompleted 6 none desk tt 2 (some 1) (pos 5000) (pos 0) cash 6 by_hand
