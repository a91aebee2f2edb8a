-- ===== src/PaymentLinks/Refunds.antt =====
-- Refunds of the payment of a gift voucher's link: `PaymentLinkRefundService` of
-- app/payment_links/application/refund_service.py, and the gateway's word on a refund,
-- `_handle_refund_event` of app/payment_links/application/webhook_service.py. Amounts are thousandths
-- and not negative.
pub mod Balance
pub mod Events
use ushbooknpay.Base.{
  ℕ, ◌+◌, ◌-◌, Bool, true, false, ◌&&◌, ◌||◌, Option, none, some, List, [], ◌∷◌, ◌++◌, ◌==◌, leb,
  ltb, total, if◌then◌else◌,
}
use ushbooknpay.Base.Session.{Outcome, ok, err, Exec}
use ushbooknpay.Payment.Refunds.Tables.{RefundStatus}
use ushbooknpay.Payment.Refunds.Tables as R
use ushbooknpay.Payment.Status.{PaymentTransactionStatus, is_in}
use ushbooknpay.Payment.Status as P
use ushbooknpay.Voucher.Status as V
use ushbooknpay.Voucher.Service.{GiftVoucher, VoucherError, StatusUpdate, update_status}
use ushbooknpay.PaymentLinks.Tables.{PaymentLinkStatus}
use ushbooknpay.PaymentLinks.Tables as T

pub record RefundRow : Type 0 where
  pub gateway_refund_id : Option ℕ
  pub refunded_amount : ℕ
  pub status : RefundStatus

-- The link, its payment, the payment's refunds, and the voucher, if it is still there.
pub record PaidVoucherLink : Type 0 where
  pub link_status : PaymentLinkStatus
  pub link_amount : ℕ
  pub link_refunded : ℕ
  pub total_amount : ℕ
  pub amount_refunded : ℕ
  pub payment_status : PaymentTransactionStatus
  pub gateway_reference : Option ℕ
  pub refunds : List RefundRow
  pub voucher : Option GiftVoucher

pub data LinkRefundError : Type 0 where
  link_not_paid payment_not_paid voucher_redeemed wrong_amount no_reference gateway_error :
      LinkRefundError
  not_cancelled : VoucherError → LinkRefundError

-- `_REFUNDABLE_LINK`
abbrev pub is_refundable_link : PaymentLinkStatus → Bool
is_refundable_link T.PaymentLinkStatus.paid = true
is_refundable_link T.partially_refunded = true
is_refundable_link _ = false

-- `_REFUNDABLE`
abbrev pub is_refundable : PaymentTransactionStatus → Bool
is_refundable s = is_in s (P.success ∷ P.partially_refunded ∷ [])

abbrev pub is_used : Option GiftVoucher → Bool
is_used none = false
is_used (some v) = V.is_in v.status (V.redeemed ∷ V.partially_redeemed ∷ V.fulfilled ∷ [])

-- Without an amount, all that is left.
abbrev pub asked_amount : Option ℕ → PaidVoucherLink → ℕ
asked_amount none s = s.total_amount - s.amount_refunded
asked_amount (some x) s = x

abbrev pub add_refund : RefundRow → PaidVoucherLink → PaidVoucherLink
add_refund r s = record s { refunds = s.refunds ++ (r ∷ []) }

-- The gateway has taken the refund.
unfoldable pub refunded_payment : ℕ → ℕ → PaidVoucherLink → PaidVoucherLink
refunded_payment amount refund_id s =
    let done = s.amount_refunded + amount in
    add_refund
      (record {
        gateway_refund_id = some refund_id;
        refunded_amount = amount;
        status = R.RefundStatus.completed;
      })
      (record s {
        amount_refunded = done;
        payment_status = if leb s.total_amount done then P.refunded else P.partially_refunded;
      })

-- `_sync_link_refund`
unfoldable pub sync_link_refund : ℕ → PaidVoucherLink → PaidVoucherLink
sync_link_refund amount s =
    let done = s.link_refunded + amount in
    record s {
      link_refunded = done;
      link_status = if leb s.link_amount done then T.refunded else T.partially_refunded;
    }

abbrev pub is_returned : PaymentTransactionStatus → Bool
is_returned s = P.index s == P.index P.refunded

abbrev pub put_voucher :
    Outcome VoucherError GiftVoucher → Exec PaidVoucherLink LinkRefundError Unit
put_voucher (err e) s = (err (not_cancelled e), s)
put_voucher (ok v) s = (ok tt, record s { voucher = some v })

abbrev pub no_update : StatusUpdate
no_update = record { now = 0; payment_id = none; booking_id = none; redeemed_by = none }

module _ (create_voucher_schedule : ℕ → Option ℕ) where
  -- A full refund of an active voucher cancels it.
  abbrev pub cancel_voucher : Option GiftVoucher → Exec PaidVoucherLink LinkRefundError Unit
  cancel_voucher none s = (ok tt, s)
  cancel_voucher (some v) s =
      if is_returned s.payment_status && (V.index v.status == V.index V.active)
      then put_voucher (update_status create_voucher_schedule no_update V.cancelled v) s
      else (ok tt, s)

  abbrev pub then_sync :
      ℕ
      → Outcome LinkRefundError Unit × PaidVoucherLink
      → Outcome LinkRefundError Unit × PaidVoucherLink
  then_sync amount (err e, s) = (err e, s)
  then_sync amount (ok x, s) = (ok tt, sync_link_refund amount s)

  -- The gateway's answer: the id of the refund, or its exception.
  abbrev pub refund_answered : ℕ → Option ℕ → Exec PaidVoucherLink LinkRefundError Unit
  refund_answered amount none s = (
    err gateway_error,
    add_refund
        (record {
          gateway_refund_id = none;
          refunded_amount = amount;
          status = R.RefundStatus.failed;
        })
        s,
  )
  refund_answered amount (some refund_id) s =
      let s' = refunded_payment amount refund_id s in
      then_sync amount (cancel_voucher s'.voucher s')

  abbrev pub refund_through : ℕ → Option ℕ → Option ℕ → Exec PaidVoucherLink LinkRefundError Unit
  refund_through amount answer none s = (err no_reference, s)
  refund_through amount answer (some reference) s = refund_answered amount answer s

  -- `refund` for a voucher's link, with `_refund_voucher_payment`.
  unfoldable pub refund_voucher_link :
      Option ℕ → Option ℕ → Exec PaidVoucherLink LinkRefundError Unit
  unfolding refunded_payment sync_link_refund
  refund_voucher_link asked answer s =
      let amount = asked_amount asked s in
      if is_refundable_link s.link_status
      then if is_refundable s.payment_status
        then if is_used s.voucher
          then (err voucher_redeemed, s)
          else if amount == 0 || ltb (s.total_amount - s.amount_refunded) amount
          then (err wrong_amount, s)
          else refund_through amount answer s.gateway_reference s
        else (err payment_not_paid, s)
      else (err link_not_paid, s)

abbrev pub is_refund : ℕ → RefundRow → Bool
is_refund i r = elim r.gateway_refund_id [ none ↦ false | some j ↦ j == i ]

unfoldable pub find_refund : ℕ → List RefundRow → Option RefundRow
find_refund i [] = none
find_refund i (r ∷ rest) = if is_refund i r then some r else find_refund i rest

unfoldable pub set_refund : ℕ → RefundStatus → List RefundRow → List RefundRow
set_refund i status [] = []
set_refund i status (r ∷ rest) =
    if is_refund i r then record r { status = status } ∷ rest else r ∷ set_refund i status rest

abbrev pub is_failed : RefundStatus → Bool
is_failed s = elim s as (λ _. Bool) [ R.RefundStatus.failed ↦ true | _ ↦ false ]

-- The gateway has cancelled the refund: the money is the payment's again.
unfoldable pub cancel_refund : ℕ → RefundRow → PaidVoucherLink → PaidVoucherLink
unfolding set_refund
cancel_refund i r s =
    let left = s.amount_refunded - r.refunded_amount in
    record s {
      refunds = set_refund i R.RefundStatus.failed s.refunds;
      amount_refunded = left;
      payment_status = if left == 0 then P.success else P.partially_refunded;
    }

abbrev pub cancelled_refund : ℕ → Option RefundRow → PaidVoucherLink → PaidVoucherLink
cancelled_refund i none s = s
cancelled_refund i (some r) s = if is_failed r.status then s else cancel_refund i r s

abbrev pub confirmed_refund : ℕ → Option RefundRow → PaidVoucherLink → PaidVoucherLink
confirmed_refund i none s = s
confirmed_refund i (some r) s = record s {
  refunds = set_refund i R.RefundStatus.completed s.refunds;
}

-- `_handle_refund_event`, for the statuses REFUNDED and CANCELED.
pub data RefundEvent : Type 0 where
  confirms cancels : ℕ → RefundEvent

unfoldable pub handle_refund_event : RefundEvent → PaidVoucherLink → PaidVoucherLink
unfolding find_refund cancel_refund
handle_refund_event (confirms i) s = confirmed_refund i (find_refund i s.refunds) s
handle_refund_event (cancels i) s = cancelled_refund i (find_refund i s.refunds) s
