-- ===== src/PaymentLinks/Refunds/Events.antt =====
-- Refunds and the gateway's later word on them, `_handle_refund_event` of
-- app/payment_links/application/webhook_service.py.
use ushbooknpay.Base.{
  ℕ, ◌+◌, ◌-◌, ◌<◌, ◌≡◌, inl, inr, refl, ap, ◌∙◌, false, Option, none, some, List, [], ◌∷◌, arith,
  leb, total, All, Bool-cases,
}
use ushbooknpay.Payment.Refunds.Tables as R
use ushbooknpay.PaymentLinks.Refunds.{
  RefundRow, PaidVoucherLink, refund_voucher_link, is_refund, find_refund, set_refund, is_failed,
  cancel_refund, cancelled_refund, cancels, handle_refund_event,
}
use ushbooknpay.PaymentLinks.Refunds.Balance.{returned_by, IsDecided, IsBalanced, refund-IsBalanced}

decided_returned :
    (r : RefundRow) → IsDecided r → is_failed r.status ≡ false → returned_by r ≡ r.refunded_amount
decided_returned r (inl e, pos) live = rw e refl
decided_returned r (inr e, pos) live = absurd (ground (arith, e, live))

-- What a refund that is found and has not failed has given back is taken from the total.
set_refund-failed :
    (i : ℕ) (rows : List RefundRow) (r : RefundRow)
    → find_refund i rows ≡ some r
    → is_failed r.status ≡ false
    → All IsDecided rows
    → All IsDecided (set_refund i R.RefundStatus.failed rows)
      × (total returned_by rows
          ≡ total returned_by (set_refund i R.RefundStatus.failed rows) + r.refunded_amount)
      × (0 < r.refunded_amount)
unfolding find_refund set_refund
set_refund-failed i [] r found live h = absurd (ground arith)
set_refund-failed i (x ∷ rest) r found live h = elim (Bool-cases (is_refund i x)) [
  | inl e ↦
      let here : some x ≡ some r = rw e at found in
      let same : x ≡ r = cc in
      let live_x : is_failed x.status ≡ false = ap (λ y. is_failed y.status) same ∙ live in
      let size : x.refunded_amount ≡ r.refunded_amount = ap (λ y. y.refunded_amount) same in
      let full = decided_returned x h.0 live_x in
      rw e (((inr refl, h.0.1), h.1), omega (arith, size, full), omega (arith, size, h.0.1))
  | inr e ↦
      let (decided, sum, pos) = set_refund-failed i rest r (rw e at found) live h.1 in
      rw e ((h.0, decided), omega (arith, sum), pos)
]

cancel_refund-IsBalanced :
    (i : ℕ) (r : RefundRow) (s : PaidVoucherLink)
    → find_refund i s.refunds ≡ some r
    → is_failed r.status ≡ false
    → IsBalanced s
    → IsBalanced (cancel_refund i r s)
unfolding cancel_refund
cancel_refund-IsBalanced i r s found live (decided, sum, capped, status) =
    let (still, split, pos) = set_refund-failed i s.refunds r found live decided in
    let part : leb s.total_amount (s.amount_refunded - r.refunded_amount) ≡ false =
      ground (arith, sum, split, pos, capped) in
    (still, omega (arith, sum, split), omega arith, rw part refl)

cancelled_refund-IsBalanced :
    (i : ℕ) (found : Option RefundRow) (s : PaidVoucherLink)
    → find_refund i s.refunds ≡ found
    → IsBalanced s
    → IsBalanced (cancelled_refund i found s)
cancelled_refund-IsBalanced i none s e h = h
cancelled_refund-IsBalanced i (some r) s e h = elim (Bool-cases (is_failed r.status)) [
  | inl f ↦ rw f h
  | inr f ↦ rw f (cancel_refund-IsBalanced i r s e f h)
]

-- A refund that is asked for, with the gateway's answer, or one that the gateway cancels later.
pub data RefundStep : Type 0 where
  asks : Option ℕ → Option ℕ → RefundStep
  revokes : ℕ → RefundStep

module _ (create_voucher_schedule : ℕ → Option ℕ) where
  abbrev pub refund_step : RefundStep → PaidVoucherLink → PaidVoucherLink
  refund_step (asks amount answer) s =
      (refund_voucher_link create_voucher_schedule amount answer s).1
  refund_step (revokes i) s = handle_refund_event (cancels i) s

  unfoldable pub run_refunds : List RefundStep → PaidVoucherLink → PaidVoucherLink
  run_refunds [] s = s
  run_refunds (e ∷ rest) s = run_refunds rest (refund_step e s)

  -- Over any sequence of refunds through the link of a gift voucher, whose payment starts balanced, as
  -- one that nothing of has been refunded does, accepted or refused, answered by the gateway or not, and of refunds that the gateway
  -- cancels later, repeated or not: the payment's refunded amount is exactly what its completed refunds
  -- have given back, it is never more than the payment's total, and the payment's status says whether
  -- it is nothing, a part, or all of it.
  pub run_refunds-IsBalanced :
      (steps : List RefundStep) (s : PaidVoucherLink)
      → IsBalanced s
      → IsBalanced (run_refunds steps s)
  unfolding run_refunds handle_refund_event
  run_refunds-IsBalanced [] s h = h
  run_refunds-IsBalanced (asks amount answer ∷ rest) s h =
      run_refunds-IsBalanced rest _ (refund-IsBalanced create_voucher_schedule amount answer s h)
  run_refunds-IsBalanced (revokes i ∷ rest) s h =
      run_refunds-IsBalanced rest _
        (cancelled_refund-IsBalanced i (find_refund i s.refunds) s refl h)
