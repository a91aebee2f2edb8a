-- ===== src/Payment/Service.antt =====
-- `RefundService` of app/payment/application/refund_service.py: refunds through the gateway, refunds by
-- hand and confirmations, over the lifecycle of Payment/Refunds. The payment that was found for the
-- booking is given with its identifier at the gateway; the gateway is a parameter; texts, authors and
-- the event of a manual refund are left out.
pub mod Open
pub mod Recorded
pub mod Manual
use ushbooknpay.Base.{
  ℕ, ◌+◌, ◌≡◌, Bool, true, false, ◌&&◌, ◌||◌, not, Option, none, some, List, [], ◌∷◌, ltb, ◌==◌,
  if◌then◌else◌,
}
use ushbooknpay.Base.Int.{ℤ, pos, pos_part, neg_part, ◌-ℤ◌, ltb_ℤ, leb_ℤ, max_ℤ}
use ushbooknpay.Base.Dict.{Dict, lookup, insert}
use ushbooknpay.Base.Session.{Outcome, ok, err, Exec, ◌>>=◌, ◌>>◌, pure, raise, raise_if}
use ushbooknpay.Payment.Refunds.Tables.{
  RefundType, automated, manual, RefundMethod, payment_gateway, Refund, Payment, Db, RefundError,
  is_open, has_id,
}
use ushbooknpay.Payment.Refunds.Sums.{committed_total}
use ushbooknpay.Payment.Refunds.{Call, Order, fetch, store, request, update_requested_amounts}
use ushbooknpay.Payment.Refunds.Transitions.{is_processing, mark_processing}
use ushbooknpay.Payment.Refunds.Completion.{complete}

-- The session, and the refunds that a gateway was asked for with their amounts, newest first.
pub record Desk : Type 0 where
  pub db : Db
  pub asked : List (ℕ × ℕ)

pub data ServiceError : Type 0 where
  no_payment no_reference not_above_zero below_zero fee_too_large already_processing : ServiceError
  gateway_failed gateway_declined : ServiceError
  of_lifecycle : RefundError → ServiceError

abbrev pub Job : Type 0 → Type 0
Job A = Exec Desk ServiceError A

abbrev pub lifted : {A : Type 0} → Outcome RefundError A → Outcome ServiceError A
lifted (ok a) = ok a
lifted (err e) = err (of_lifecycle e)

-- A call of the lifecycle in the same session.
abbrev pub on_db : {A : Type 0} → Call A → Job A
on_db m s = let (r, d) = m s.db in (lifted r, record s { db = d })

-- `find_open_refund`; the rows are in the order in which they were made.
unfoldable pub find_open_refund : ℕ → Dict Refund → Option ℕ
find_open_refund booking [] = none
find_open_refund booking (e ∷ rows) =
    if has_id booking e.1.booking_id && is_open e.1.status
    then some e.0
    else find_open_refund booking rows

-- What `_resolve_refund_to_execute` is called with.
pub record Wanted : Type 0 where
  pub booking : ℕ
  pub payment : Option ℕ
  pub net_amount : Option ℤ
  pub cancellation_fee : ℤ
  pub refund_type : RefundType
  pub refund_method : RefundMethod

abbrev pub is_same : ℤ → ℤ → Bool
is_same a b = leb_ℤ a b && leb_ℤ b a

-- `net_amount is not None and (... or ...)`
abbrev pub is_changed : Wanted → Refund → Bool
is_changed w r = elim w.net_amount [
  | none ↦ false
  | some n ↦
      not (is_same (pos r.refunded_amount) n) || not (is_same r.cancellation_fee w.cancellation_fee)
]

abbrev pub or_nothing : Option ℤ → ℤ
or_nothing none = pos 0
or_nothing (some n) = n

abbrev pub amend_if : Bool → ℕ → Wanted → Call (Unit {0})
amend_if changed rid w =
    if changed
    then update_requested_amounts rid (or_nothing w.net_amount) w.cancellation_fee
    else pure tt

abbrev pub retyped : Wanted → Refund → Refund
retyped w r = record r { refund_type = w.refund_type; refund_method = w.refund_method }

unfoldable pub set_method : ℕ → Wanted → Call ℕ
set_method rid w = do r ← fetch rid; store rid (retyped w r); pure rid

unfoldable pub reuse : ℕ → Wanted → Refund → Job ℕ
unfolding set_method
reuse rid w r =
    if is_processing r.status
    then raise already_processing
    else on_db (amend_if (is_changed w r) rid w >> set_method rid w)

abbrev pub order_of : Wanted → ℤ → Order
order_of w n = record {
  booking = w.booking;
  payment = w.payment;
  refund_amount = n;
  fee = w.cancellation_fee;
  kind = w.refund_type;
  method = w.refund_method;
  key = none;
}

abbrev pub requested_id : ℕ → Order → Call ℕ
requested_id rid o = do answer ← request rid o; pure (answer.0)

-- What is left of the payment, less the fee.
abbrev pub rest_of : ℕ → Payment → ℤ → Db → ℤ
rest_of p pay fee d =
    max_ℤ (pos 0) (pos pay.total_amount -ℤ pos (committed_total p d.refunds) -ℤ fee)

abbrev pub rest_found : Option ℕ → ℤ → Db → Outcome ServiceError ℤ
rest_found none fee d = err no_payment
rest_found (some p) fee d = elim (lookup p d.payments) [
  | none ↦ err no_payment
  | some pay ↦ ok (rest_of p pay fee d)
]

abbrev pub amount_of : Wanted → Job ℤ
amount_of w s =
    (elim w.net_amount [ none ↦ rest_found w.payment w.cancellation_fee s.db | some n ↦ ok n ], s)

unfoldable pub request_new : ℕ → Wanted → Job ℕ
request_new rid w = amount_of w >>= λ n. on_db (requested_id rid (order_of w n))

-- `new_id` is the id of the row that a request makes.
abbrev pub resolve_found : ℕ → Wanted → Option ℕ → Job ℕ
resolve_found new_id w none = request_new new_id w
resolve_found new_id w (some rid) = on_db (fetch rid) >>= reuse rid w

unfoldable pub resolve_refund_to_execute : ℕ → Wanted → Job ℕ
unfolding find_open_refund reuse request_new
resolve_refund_to_execute new_id w s =
    resolve_found new_id w (find_open_refund w.booking s.db.refunds) s

-- A request to the service, with the payment that `_get_payment_for_booking` finds and the identifier
-- that it has at its gateway.
pub record RefundOrder : Type 0 where
  pub booking : ℕ
  pub payment : Option ℕ
  pub gateway_payment_id : Option ℕ
  pub refund_amount : Option ℤ
  pub cancellation_fee : ℤ

-- What a gateway answers to a refund: `failed` is an exception of the call.
pub data GatewayAnswer : Type 0 where
  failed declined : GatewayAnswer
  accepted : Option ℕ → GatewayAnswer

-- The checks of `process_gateway_refund`, in order, up to the look-up of the refund.
abbrev pub check_amount : ℤ → Option ℤ → Option ServiceError
check_amount fee none = none
check_amount fee (some a) =
    if leb_ℤ a (pos 0)
    then some not_above_zero
    else if ltb_ℤ a fee
    then some fee_too_large
    else if leb_ℤ (a -ℤ fee) (pos 0)
    then some not_above_zero
    else none

abbrev pub check_reference : Option ℕ → Option ServiceError
check_reference none = some no_reference
check_reference (some g) = none

abbrev pub then_check : Option ServiceError → Option ServiceError → Option ServiceError
then_check none e = e
then_check (some x) e = some x

abbrev pub check_order : RefundOrder → Option ServiceError
check_order o =
    then_check (elim o.payment [ none ↦ some no_payment | some p ↦ none ])
      (then_check (if ltb_ℤ o.cancellation_fee (pos 0) then some below_zero else none) (
        then_check (check_amount o.cancellation_fee o.refund_amount)
          (check_reference o.gateway_payment_id)))

abbrev pub net_of : ℤ → Option ℤ → Option ℤ
net_of fee none = none
net_of fee (some a) = some (a -ℤ fee)

abbrev pub automated_refund : RefundOrder → Wanted
automated_refund o = record {
  booking = o.booking;
  payment = o.payment;
  net_amount = net_of o.cancellation_fee o.refund_amount;
  cancellation_fee = o.cancellation_fee;
  refund_type = automated;
  refund_method = payment_gateway;
}

abbrev pub answered : ℕ → GatewayAnswer → Job ℕ
answered rid failed = raise gateway_failed
answered rid declined = raise gateway_declined
answered rid (accepted reference) = on_db (mark_processing rid reference) >> pure rid

abbrev pub asked_for : ℕ → ℕ → Desk → Desk
asked_for rid amount s = record s { asked = (rid, amount) ∷ s.asked }

-- The gateway, asked for the refund of an amount of the payment that the identifier names.
module _ (refund_payment : ℕ → ℕ → GatewayAnswer) where
  abbrev pub submit_row : ℕ → ℕ → Refund → Job ℕ
  submit_row gid rid r s =
      answered rid (refund_payment gid r.refunded_amount) (asked_for rid r.refunded_amount s)

  unfoldable pub submit : Option ℕ → ℕ → Job ℕ
  submit none rid = raise no_reference
  submit (some gid) rid = on_db (fetch rid) >>= submit_row gid rid

  abbrev pub process_checked : ℕ → RefundOrder → Option ServiceError → Job ℕ
  process_checked new_id o (some e) = raise e
  process_checked new_id o none =
      resolve_refund_to_execute new_id (automated_refund o) >>= submit o.gateway_payment_id

  unfoldable pub process_gateway_refund : ℕ → RefundOrder → Job ℕ
  unfolding resolve_refund_to_execute submit
  process_gateway_refund new_id o = process_checked new_id o (check_order o)

-- `record_manual_refund`, whose amount is always given.
abbrev pub check_manual : ℤ → ℤ → Option ServiceError
check_manual amount fee =
    if leb_ℤ amount (pos 0)
    then some not_above_zero
    else if ltb_ℤ fee (pos 0)
    then some below_zero
    else if ltb_ℤ amount fee
    then some fee_too_large
    else none

abbrev pub manual_refund : ℕ → Option ℕ → ℤ → ℤ → RefundMethod → Wanted
manual_refund booking payment amount fee method = record {
  booking = booking;
  payment = payment;
  net_amount = some (amount -ℤ fee);
  cancellation_fee = fee;
  refund_type = manual;
  refund_method = method;
}

abbrev pub complete_as : Option ℕ → ℕ → Job ℕ
complete_as reference rid = on_db (complete rid reference false) >> pure rid

abbrev pub record_checked : ℕ → Wanted → Option ℕ → Option ServiceError → Job ℕ
record_checked new_id w reference (some e) = raise e
record_checked new_id w reference none =
    resolve_refund_to_execute new_id w >>= complete_as reference

unfoldable pub record_manual_refund : ℕ → ℕ → Option ℕ → ℤ → ℤ → RefundMethod → Option ℕ → Job ℕ
unfolding resolve_refund_to_execute
record_manual_refund new_id booking payment amount fee method reference =
    record_checked new_id (manual_refund booking payment amount fee method) reference
      (check_manual amount fee)

unfoldable pub confirm_refund : ℕ → Option ℕ → Job ℕ
confirm_refund rid reference = on_db (complete rid reference true) >> pure rid
