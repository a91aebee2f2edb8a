-- ===== src/PaymentLinks/Refunds/Balance.antt =====
-- The balance of a refunded payment: app/payment_links/application/refund_service.py.
use ushbooknpay.Base.{
  ℕ, ◌+◌, ◌-◌, ◌≤◌, ◌<◌, ◌≡◌, ◌⊎◌, inl, inr, refl, Bool, true, false, ◌&&◌, ◌||◌, Option, none,
  some, [], ◌∷◌, arith, ◌==◌, leb, ltb, total, total-append, All, All-append, Bool-cases,
  if◌then◌else◌,
}
use ushbooknpay.Base.Session.{Outcome, ok, err}
use ushbooknpay.Payment.Refunds.Tables.{RefundStatus}
use ushbooknpay.Payment.Refunds.Tables as R
use ushbooknpay.Payment.Status.{PaymentTransactionStatus}
use ushbooknpay.Payment.Status as P
use ushbooknpay.Voucher.Status as V
use ushbooknpay.Voucher.Service.{GiftVoucher, VoucherError}
use ushbooknpay.PaymentLinks.Refunds.{
  RefundRow, PaidVoucherLink, LinkRefundError, is_refundable_link, is_refundable, is_used,
  asked_amount, add_refund, refunded_payment, sync_link_refund, is_returned, put_voucher,
  cancel_voucher, then_sync, refund_through, refund_voucher_link, is_failed,
}

abbrev pub is_completed : RefundStatus → Bool
is_completed s = elim s as (λ _. Bool) [ R.RefundStatus.completed ↦ true | _ ↦ false ]

-- What a refund has given back.
abbrev pub returned_by : RefundRow → ℕ
returned_by r = if is_completed r.status then r.refunded_amount else 0

-- A refund of these calls: completed or failed, and of something.
abbrev pub IsDecided : RefundRow → Type 0
IsDecided r = (is_completed r.status ≡ true ⊎ is_failed r.status ≡ true) × (0 < r.refunded_amount)

abbrev pub status_of : ℕ → ℕ → PaymentTransactionStatus
status_of done total_amount =
    if done == 0
    then P.success
    else if leb total_amount done
    then P.refunded
    else P.partially_refunded

-- The refunded amount is what the completed refunds have given back, at most the payment's total, and
-- the payment's status says whether that is nothing, a part, or all.
abbrev pub IsBalanced : PaidVoucherLink → Type 0
IsBalanced s =
    All IsDecided s.refunds
    × (s.amount_refunded ≡ total returned_by s.refunds)
    × (s.amount_refunded ≤ s.total_amount)
    × (s.payment_status ≡ status_of s.amount_refunded s.total_amount)

refunded_payment-IsBalanced :
    (amount refund_id : ℕ) (s : PaidVoucherLink)
    → 0 < amount
    → amount ≤ s.total_amount - s.amount_refunded
    → IsBalanced s
    → IsBalanced (refunded_payment amount refund_id s)
unfolding refunded_payment
refunded_payment-IsBalanced amount refund_id s pos le (decided, sum, capped, status) = (
  All-append IsDecided s.refunds (_ ∷ []) decided ((inl refl, pos), tt),
  omega (
    arith,
    sum,
    total-append returned_by s.refunds (
        record {
          gateway_refund_id = some refund_id;
          refunded_amount = amount;
          status = R.RefundStatus.completed;
        }
        ∷ []),
  ),
  omega arith,
  (let some_done : (s.amount_refunded + amount == 0) ≡ false = ground arith in rw some_done refl),
)

failed_refund-IsBalanced :
    (amount : ℕ) (s : PaidVoucherLink)
    → 0 < amount
    → IsBalanced s
    → IsBalanced (
        add_refund
          (record {
            gateway_refund_id = none;
            refunded_amount = amount;
            status = R.RefundStatus.failed;
          })
          s)
failed_refund-IsBalanced amount s pos (decided, sum, capped, status) = (
  All-append IsDecided s.refunds (_ ∷ []) decided ((inr refl, pos), tt),
  omega (
    arith,
    sum,
    total-append returned_by s.refunds (
        record {
          gateway_refund_id = none;
          refunded_amount = amount;
          status = R.RefundStatus.failed;
        }
        ∷ []),
  ),
  capped,
  status,
)

module _ (create_voucher_schedule : ℕ → Option ℕ) where
  put_voucher-IsBalanced :
      (r : Outcome VoucherError GiftVoucher) (s : PaidVoucherLink)
      → IsBalanced s
      → IsBalanced (put_voucher r s).1
  put_voucher-IsBalanced (ok v) s h = h
  put_voucher-IsBalanced (err e) s h = h

  cancel_voucher-IsBalanced :
      (v : Option GiftVoucher) (s : PaidVoucherLink)
      → IsBalanced s
      → IsBalanced (cancel_voucher create_voucher_schedule v s).1
  cancel_voucher-IsBalanced none s h = h
  cancel_voucher-IsBalanced (some v) s h =
      elim (Bool-cases (is_returned s.payment_status && (V.index v.status == V.index V.active))) [
        | inl e ↦ rw e (put_voucher-IsBalanced _ s h)
        | inr e ↦ rw e h
      ]

  then_sync-IsBalanced :
      (amount : ℕ) (r : Outcome LinkRefundError Unit × PaidVoucherLink)
      → IsBalanced r.1
      → IsBalanced (then_sync create_voucher_schedule amount r).1
  unfolding sync_link_refund
  then_sync-IsBalanced amount (ok x, s) h = h
  then_sync-IsBalanced amount (err e, s) h = h

  refund_through-IsBalanced :
      (amount : ℕ) (answer reference : Option ℕ) (s : PaidVoucherLink)
      → 0 < amount
      → amount ≤ s.total_amount - s.amount_refunded
      → IsBalanced s
      → IsBalanced (refund_through create_voucher_schedule amount answer reference s).1
  refund_through-IsBalanced amount answer none s pos le h = h
  refund_through-IsBalanced amount none (some reference) s pos le h =
      failed_refund-IsBalanced amount s pos h
  refund_through-IsBalanced amount (some refund_id) (some reference) s pos le h =
      let s' = refunded_payment amount refund_id s in
      then_sync-IsBalanced amount (cancel_voucher create_voucher_schedule s'.voucher s') (
        cancel_voucher-IsBalanced s'.voucher s'
          (refunded_payment-IsBalanced amount refund_id s pos le h))

  pub refund-IsBalanced :
      (asked answer : Option ℕ) (s : PaidVoucherLink)
      → IsBalanced s
      → IsBalanced (refund_voucher_link create_voucher_schedule asked answer s).1
  unfolding refund_voucher_link
  refund-IsBalanced asked answer s h = elim (Bool-cases (is_refundable_link s.link_status)) [
    | inr a ↦ rw a h
    | inl a ↦ elim (Bool-cases (is_refundable s.payment_status)) [
      | inr b ↦ rw (a, b) h
      | inl b ↦ elim (Bool-cases (is_used s.voucher)) [
        | inl c ↦ rw (a, b, c) h
        | inr c ↦
            elim (Bool-cases (
              asked_amount asked s == 0
              || ltb (s.total_amount - s.amount_refunded) (asked_amount asked s))) [
                | inl d ↦ rw (a, b, c, d) h
                | inr d ↦
                    rw (a, b, c, d)
                      (refund_through-IsBalanced (asked_amount asked s) answer s.gateway_reference s
                        (ground (arith, d)) (ground (arith, d)) h)
              ]
      ]
    ]
  ]
