-- ===== src/PaymentLinks/Settlement.antt =====
-- `_settle_booking` and `_settle_voucher` of app/payment_links/application/settlement.py.
pub mod Apply
pub mod Settling
pub mod Change
pub mod Once
pub mod Booked
use ushbooknpay.Base.{
  ℕ, ◌≡◌, Bool, true, false, ◌&&◌, ◌||◌, Option, none, some, List, [], ◌∷◌, ◌++◌, ◌-◌, ◌+◌, ◌==◌,
  leb, ltb, if◌then◌else◌,
}
use ushbooknpay.Base.Dict.{Dict, lookup, insert}
use ushbooknpay.Base.Session.{Outcome, ok, err, Exec, ◌>>=◌, ◌>>◌, pure, raise, modify, gets}
use ushbooknpay.Booking.Status.{
  confirmed, requested, payment_pending, draft, cancelled, no_show, is_in, BookingStatus,
}
use ushbooknpay.Booking.PaymentStatus.{success}
use ushbooknpay.Payment.Status as Payments
use ushbooknpay.Voucher.Status as Vouchers
use ushbooknpay.Voucher.Service.{GiftVoucher, VoucherError, StatusUpdate, given, update_status}
use ushbooknpay.PaymentLinks.Tables.{
  PaymentLinkStatus, PaymentLinkTarget, Attention, auto_refunded, auto_refund_error, booking,
  gift_voucher, product, PaymentLink, GatewayPaymentState, BookingRow, PaymentRow, Event,
  paid_event, failed_event, RefundRequest, Tables, Work, newest,
}
use ushbooknpay.PaymentLinks.Tables as T

-- `SettlementOutcome`
pub data SettlementOutcome : Type 0 where
  settled already_settled failure_recorded pending amount_mismatch : SettlementOutcome

-- The errors that `_apply_paid` catches.
pub data SettleError : Type 0 where
  no_booking no_voucher : SettleError
  not_payable : BookingStatus → SettleError
  not_activated : VoucherError → SettleError

-- `_SETTLED`
unfoldable pub is_settled : PaymentLinkStatus → Bool
is_settled T.paid = true
is_settled T.refunded = true
is_settled T.partially_refunded = true
is_settled T.created = false
is_settled T.pending = false
is_settled T.failed = false
is_settled T.expired = false
is_settled T.cancelled = false

-- `_NOT_PAYABLE_BOOKING`
abbrev pub not_payable_booking : List BookingStatus
not_payable_booking = cancelled ∷ no_show ∷ []

abbrev pub set_link : (PaymentLink → PaymentLink) → Work → Work
set_link f w = record w { link = f w.link }

abbrev pub set_tables : (Tables → Tables) → Work → Work
set_tables f w = record w { tables = f w.tables }

abbrev pub is_for : ℕ → Option ℕ → Bool
is_for i none = false
is_for i (some j) = j == i

-- A booking that waits for its payment is confirmed; another keeps its status.
abbrev pub is_waiting : BookingStatus → Bool
is_waiting s = is_in s (requested ∷ payment_pending ∷ draft ∷ [])

abbrev pub or_else : Option ℕ → Option ℕ → Option ℕ
or_else none y = y
or_else (some x) y = some x

unfoldable pub paid_booking : PaymentLink → BookingRow → BookingRow
paid_booking l b = record b {
  status = if is_waiting b.status then confirmed else b.status;
  payment_status = success;
  payment_id = given l.gateway_payment_id b.payment_id;
  payment_link_id = some l.id;
  payment_method = given l.payment_method b.payment_method;
  invoice_number = or_else b.invoice_number l.invoice_number;
}

abbrev pub confirm_history :
    ℕ
    → BookingStatus
    → List (ℕ × BookingStatus × BookingStatus)
    → List (ℕ × BookingStatus × BookingStatus)
confirm_history bid s rows = if is_waiting s then rows ++ ((bid, s, confirmed) ∷ []) else rows

-- The row that is created when there is none yet.
abbrev pub new_payment : ℕ → PaymentLink → Option ℕ → Option ℕ → Option ℕ → Option ℕ → PaymentRow
new_payment now l bid vid invoice method = record {
  booking_id = bid;
  voucher_id = vid;
  created_at = now;
  status = Payments.success;
  total_amount = l.amount;
  paid_at = some now;
  payment_id = l.gateway_payment_id;
  transaction_id = l.transaction_id;
  track_id = l.track_id;
  reference_id = l.reference_id;
  invoice_id = l.gateway_invoice_id;
  invoice_number = invoice;
  payment_link_id = some l.id;
  payment_method = method;
}

-- The texts "card" and "payment_link".
abbrev pub card : ℕ
card = 0

abbrev pub payment_link : ℕ
payment_link = 1

abbrev pub paid_again : ℕ → PaymentLink → PaymentRow → PaymentRow
paid_again now l p = record p {
  status = Payments.success;
  paid_at = some now;
  payment_id = given l.gateway_payment_id p.payment_id;
  transaction_id = given l.transaction_id p.transaction_id;
  payment_link_id = some l.id;
  payment_method = given l.payment_method p.payment_method;
}

abbrev pub booking_payment : ℕ → PaymentLink → PaymentRow → PaymentRow
booking_payment now l p = record (paid_again now l p) {
  invoice_id = given l.gateway_invoice_id p.invoice_id;
}

abbrev pub voucher_payment : ℕ → PaymentLink → PaymentRow → PaymentRow
voucher_payment now l p = record (paid_again now l p) {
  track_id = given l.track_id p.track_id;
  reference_id = given l.reference_id p.reference_id;
  invoice_number = or_else p.invoice_number l.invoice_number;
}

-- The row to write, from the newest that there is: its id, and whether it is a new one.
abbrev pub written :
    ℕ → (PaymentRow → PaymentRow) → PaymentRow → Option (ℕ × PaymentRow) → ℕ × PaymentRow × Bool
written new_id change fresh none = (new_id, fresh, true)
written new_id change fresh (some (i, p)) = (i, change p, false)

abbrev pub put_payment : ℕ × PaymentRow × Bool → Work → Work
put_payment (i, p, is_new) w = record w {
  link = record w.link { payment_row_id = some i };
  tables = record w.tables {
    payments = insert i p w.tables.payments;
    payment_history =
        if is_new
        then w.tables.payment_history ++ ((i, Payments.success) ∷ [])
        else w.tables.payment_history;
  };
}

abbrev pub queue : Event → Work → Work
queue e w = set_tables (λ t. record t { pending_events = t.pending_events ++ (e ∷ []) }) w

abbrev pub put_booking : BookingRow → Work → Work
put_booking b w =
    set_tables
      (λ t. record t {
        bookings = insert w.link.target_id (paid_booking w.link b) t.bookings;
        booking_history = confirm_history w.link.target_id b.status t.booking_history;
      })
      w

-- What a payable booking's settlement writes: the booking, its payment, and then the event.
unfoldable pub settle_payable : ℕ → ℕ → BookingRow → Work → Work
unfolding newest
settle_payable now new_id b w =
    let fresh =
      new_payment now w.link (some w.link.target_id) none
        (or_else w.link.invoice_number b.invoice_number)
        (or_else w.link.payment_method (some card)) in
    let row =
      written new_id (booking_payment now w.link) fresh
        (newest (λ p. is_for w.link.target_id p.booking_id) w.tables.payments) in
    queue (paid_event w.link.id) (put_payment row (put_booking b w))

abbrev pub settle_found : ℕ → ℕ → Option BookingRow → Exec Work SettleError Unit
settle_found now new_id none w = (err no_booking, w)
settle_found now new_id (some b) w =
    if is_in b.status not_payable_booking
    then (err (not_payable b.status), w)
    else (ok tt, settle_payable now new_id b w)

unfoldable pub settle_booking : ℕ → ℕ → Exec Work SettleError Unit
unfolding settle_payable
settle_booking now new_id w = settle_found now new_id (lookup w.link.target_id w.tables.bookings) w

unfoldable pub pay_voucher : ℕ → ℕ → Work → Work
unfolding newest
pay_voucher now new_id w =
    let fresh =
      new_payment now w.link none (some w.link.target_id) w.link.invoice_number
        (or_else w.link.payment_method (some payment_link)) in
    put_payment
      (written new_id (voucher_payment now w.link) fresh
        (newest (λ p. is_for w.link.target_id p.voucher_id) w.tables.payments))
      w

abbrev pub activated : Outcome VoucherError GiftVoucher → Exec Work SettleError Unit
activated (err e) w = (err (not_activated e), w)
activated (ok v) w =
    (ok tt, set_tables (λ t. record t { vouchers = insert w.link.target_id v t.vouchers }) w)

-- The gateway's answer to a refund, and the scheduler's client.
module _ (accepts_refund : RefundRequest → Bool) (create_voucher_schedule : ℕ → Option ℕ) where
  -- The payment is written first, then the voucher's status is asked to change.
  abbrev pub settle_voucher_found : ℕ → ℕ → Option GiftVoucher → Exec Work SettleError Unit
  settle_voucher_found now new_id none w = (err no_voucher, w)
  settle_voucher_found now new_id (some v) w =
      let w' = pay_voucher now new_id w in
      activated
        (update_status create_voucher_schedule
          (record {
            now = now;
            payment_id =
                or_else (or_else w.link.gateway_payment_id w.link.gateway_invoice_id)
                  w'.link.payment_row_id;
            booking_id = none;
            redeemed_by = none;
          })
          Vouchers.active v)
        w'

  unfoldable pub settle_voucher : ℕ → ℕ → Exec Work SettleError Unit
  unfolding pay_voucher update_status
  settle_voucher now new_id w =
      settle_voucher_found now new_id (lookup w.link.target_id w.tables.vouchers) w

  abbrev pub settle_target : PaymentLinkTarget → ℕ → ℕ → Exec Work SettleError Unit
  settle_target booking now new_id w = settle_booking now new_id w
  settle_target gift_voucher now new_id w = settle_voucher now new_id w
  settle_target product now new_id w = (ok tt, w)
