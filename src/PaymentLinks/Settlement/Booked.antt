-- ===== src/PaymentLinks/Settlement/Booked.antt =====
-- What a paid link makes of its booking and of the booking's payment, in `_apply_paid` of
-- app/payment_links/application/settlement.py.
use ushbooknpay.Base.{
  ℕ, ◌≡◌, ◌≢◌, ◌⊎◌, inl, inr, refl, sym, ap, ◌∙◌, Bool, true, false, Option, none, some, [], ◌∷◌,
  arith, ◌==◌, ltb, Bool-cases, if◌then◌else◌,
}
use mathlib.Core.Path.{subst}
use ushbooknpay.Base.Dict.{Dict, lookup, insert, lookup-insert}
use ushbooknpay.Booking.Status as Bookings
use ushbooknpay.Booking.Status.{BookingStatus, can_transition_to, is_in}
use ushbooknpay.Booking.PaymentStatus.{success}
use ushbooknpay.Payment.Status as Payments
use ushbooknpay.PaymentLinks.Tables.{
  booking, PaymentLink, GatewayPaymentState, BookingRow, PaymentRow, RefundRequest, Tables, Work,
  newer, newest,
}
use ushbooknpay.PaymentLinks.Tables as T
use ushbooknpay.PaymentLinks.Settlement.{
  SettlementOutcome, settled, failure_recorded, is_settled, is_waiting, is_for, not_payable_booking,
  settle_payable, settle_found, settle_booking, settle_target, paid_booking, new_payment,
  booking_payment, written, set_link,
}
use ushbooknpay.PaymentLinks.Settlement.Apply.{
  is_mismatch, mark_paid, refund_key, refund_through, auto_refund, settle_or_refund, settle_paid,
  apply_paid,
}

-- The row that the query finds is one that it selects.
abbrev IsChosen : (PaymentRow → Bool) → Option (ℕ × PaymentRow) → Type 0
IsChosen chosen none = Unit
IsChosen chosen (some q) = chosen q.1 ≡ true

newer-IsChosen :
    (chosen : PaymentRow → Bool) (e : ℕ × PaymentRow) (o : Option (ℕ × PaymentRow))
    → chosen e.1 ≡ true
    → IsChosen chosen o
    → IsChosen chosen (some (newer e o))
newer-IsChosen chosen e none h k = h
newer-IsChosen chosen e (some q) h k = elim (Bool-cases (ltb e.1.created_at q.1.created_at)) [
  | inl f ↦ rw f k
  | inr f ↦ rw f h
]

newest-IsChosen :
    (chosen : PaymentRow → Bool) (rows : Dict PaymentRow) → IsChosen chosen (newest chosen rows)
unfolding newest
newest-IsChosen chosen [] = tt
newest-IsChosen chosen (e ∷ rest) = elim (Bool-cases (chosen e.1)) [
  | inl f ↦ rw f (newer-IsChosen chosen e (newest chosen rest) f (newest-IsChosen chosen rest))
  | inr f ↦ rw f (newest-IsChosen chosen rest)
]

is_for-same : (i : ℕ) (o : Option ℕ) → is_for i o ≡ true → o ≡ some i
is_for-same i none h = absurd (ground arith)
is_for-same i (some j) h = ap some (ground (arith, h))

-- A booking that waits may be confirmed.
waiting_confirmed :
    (s : BookingStatus) → is_waiting s ≡ true → can_transition_to s Bookings.confirmed ≡ true
unfolding can_transition_to Bookings.valid_transitions
waiting_confirmed Bookings.requested h = refl
waiting_confirmed Bookings.payment_pending h = refl
waiting_confirmed Bookings.draft h = refl
waiting_confirmed Bookings.confirmed h = absurd (ground arith)
waiting_confirmed Bookings.checked_in h = absurd (ground arith)
waiting_confirmed Bookings.in_progress h = absurd (ground arith)
waiting_confirmed Bookings.payment_failed h = absurd (ground arith)
waiting_confirmed Bookings.reschedule_requested h = absurd (ground arith)
waiting_confirmed Bookings.reschedule_approved h = absurd (ground arith)
waiting_confirmed Bookings.cancelled h = absurd (ground arith)
waiting_confirmed Bookings.refunded h = absurd (ground arith)
waiting_confirmed Bookings.completed h = absurd (ground arith)
waiting_confirmed Bookings.no_show h = absurd (ground arith)
waiting_confirmed Bookings.parked h = absurd (ground arith)

abbrev IsConfirming : BookingStatus → BookingStatus → Type 0
IsConfirming old new =
    (new ≡ old) ⊎ ((new ≡ Bookings.confirmed) × (can_transition_to old new ≡ true))

confirming : (s : BookingStatus) → IsConfirming s (if is_waiting s then Bookings.confirmed else s)
confirming s = elim (Bool-cases (is_waiting s)) [
  | inl e ↦ inr (rw e (refl, waiting_confirmed s e))
  | inr e ↦ inl (rw e refl)
]

-- The payment row of a booking that the link has paid.
abbrev IsPaymentOf : PaymentLink → PaymentRow → Type 0
IsPaymentOf l p =
    (p.status ≡ Payments.success)
    × (p.booking_id ≡ some l.target_id)
    × (p.payment_link_id ≡ some l.id)

written-IsPaymentOf :
    (now new_id : ℕ) (l : PaymentLink) (invoice method : Option ℕ) (o : Option (ℕ × PaymentRow))
    → IsChosen (λ p. is_for l.target_id p.booking_id) o
    → IsPaymentOf l
        (written new_id
          (booking_payment now l)
          (new_payment now l (some l.target_id) none invoice method)
          o).1
written-IsPaymentOf now new_id l invoice method none h = (refl, refl, refl)
written-IsPaymentOf now new_id l invoice method (some q) h =
    (refl, is_for-same l.target_id q.1.booking_id h, refl)

-- The booking after its payment, and the payment's row.
abbrev pub IsPaid : Work → Work → Type 0
IsPaid w w' =
    (b b' : BookingRow) × (i : ℕ) × (p : PaymentRow) × (lookup w.link.target_id w.tables.bookings
      ≡ some b)
    × (lookup w.link.target_id w'.tables.bookings ≡ some b')
    × (b'.payment_status ≡ success)
    × IsConfirming b.status b'.status
    × (w'.link.payment_row_id ≡ some i)
    × (lookup i w'.tables.payments ≡ some p)
    × IsPaymentOf w.link p

lookup-inserted : {V : Type 0} → (k : ℕ) (v : V) (d : Dict V) → lookup k (insert k v d) ≡ some v
lookup-inserted k v d =
    lookup-insert k k v d ∙ (let same : (k == k) ≡ true = ground arith in rw same refl)

settle_payable-IsPaid :
    (now new_id : ℕ) (b : BookingRow) (w : Work)
    → lookup w.link.target_id w.tables.bookings ≡ some b
    → IsPaid w (settle_payable now new_id b w)
unfolding settle_payable paid_booking
settle_payable-IsPaid now new_id b w h = (
  b,
  paid_booking w.link b,
  _,
  _,
  h,
  lookup-inserted w.link.target_id (paid_booking w.link b) w.tables.bookings,
  refl,
  confirming b.status,
  refl,
  lookup-inserted _ _ w.tables.payments,
  written-IsPaymentOf now new_id w.link _ _
      (newest (λ p. is_for w.link.target_id p.booking_id) w.tables.payments)
      (newest-IsChosen (λ p. is_for w.link.target_id p.booking_id) w.tables.payments),
)

-- Bookings, payments, vouchers and events are as before; a refund may have been asked for.
abbrev pub IsUntouched : Tables → Tables → Type 0
IsUntouched t t' =
    (t'.bookings ≡ t.bookings)
    × (t'.payments ≡ t.payments)
    × (t'.vouchers ≡ t.vouchers)
    × (t'.booking_history ≡ t.booking_history)
    × (t'.pending_events ≡ t.pending_events)

-- The link's booking is there, and is neither cancelled nor missed by its customer.
abbrev pub IsPayable : Option BookingRow → Type 0
IsPayable none = ⊥
IsPayable (some b) = (b.status ≢ Bookings.cancelled) × (b.status ≢ Bookings.no_show)

-- There is no such booking, or it is cancelled, or its customer did not come.
abbrev pub IsUnpayable : Option BookingRow → Type 0
IsUnpayable none = Unit
IsUnpayable (some b) = (b.status ≡ Bookings.cancelled) ⊎ (b.status ≡ Bookings.no_show)

abbrev pub IsPaidOrRefunded : Option BookingRow → Work → SettlementOutcome × Work → Type 0
IsPaidOrRefunded b w (o, w') =
    (IsPayable b × (o ≡ settled) × (w'.link.status ≡ T.PaymentLinkStatus.paid) × IsPaid w w')
    ⊎ (IsUnpayable b
        × (o ≡ failure_recorded)
        × (w'.link.status ≡ T.refunded)
        × IsUntouched w.tables w'.tables)

-- The list of the code against the two statuses.
not_payable_lem :
    (s : BookingStatus)
    → is_in s not_payable_booking ≡ true
    → (s ≡ Bookings.cancelled) ⊎ (s ≡ Bookings.no_show)
not_payable_lem Bookings.cancelled h = inl refl
not_payable_lem Bookings.no_show h = inr refl
not_payable_lem Bookings.requested h = absurd (ground arith)
not_payable_lem Bookings.payment_pending h = absurd (ground arith)
not_payable_lem Bookings.draft h = absurd (ground arith)
not_payable_lem Bookings.confirmed h = absurd (ground arith)
not_payable_lem Bookings.checked_in h = absurd (ground arith)
not_payable_lem Bookings.in_progress h = absurd (ground arith)
not_payable_lem Bookings.payment_failed h = absurd (ground arith)
not_payable_lem Bookings.reschedule_requested h = absurd (ground arith)
not_payable_lem Bookings.reschedule_approved h = absurd (ground arith)
not_payable_lem Bookings.refunded h = absurd (ground arith)
not_payable_lem Bookings.completed h = absurd (ground arith)
not_payable_lem Bookings.parked h = absurd (ground arith)

payable_lem : (b : BookingRow) → is_in b.status not_payable_booking ≡ false → IsPayable (some b)
payable_lem b h = (
  λ e. let listed : is_in b.status not_payable_booking ≡ true = rw e refl in absurd (cc),
  λ e. let listed : is_in b.status not_payable_booking ≡ true = rw e refl in absurd (cc),
)

refund_through-IsUntouched :
    (accepts_refund : RefundRequest → Bool) (state : GatewayPaymentState) (key : Option ℕ)
    (w : Work)
    → ((refund_through accepts_refund state key w).link.status ≡ w.link.status)
      × IsUntouched w.tables (refund_through accepts_refund state key w).tables
refund_through-IsUntouched accepts_refund state none w = (refl, (refl, refl, refl, refl, refl))
refund_through-IsUntouched accepts_refund state (some key) w =
    (refl, (refl, refl, refl, refl, refl))

module _ (accepts_refund : RefundRequest → Bool) (create_voucher_schedule : ℕ → Option ℕ)
    (now new_id : ℕ) (state : GatewayPaymentState) where
  abbrev refunded_work : Work → Work
  refunded_work w =
      set_link (λ l. record l { status = T.refunded }) (set_link (mark_paid now state) w)

  settle_found-paid :
      (found : Option BookingRow) (w : Work)
      → lookup w.link.target_id w.tables.bookings ≡ found
      → IsPaidOrRefunded found w (
          settle_or_refund accepts_refund create_voucher_schedule state
            (settle_found now new_id found (set_link (mark_paid now state) w)))
  unfolding settle_payable auto_refund mark_paid
  settle_found-paid none w h =
      let (status, untouched) =
        refund_through-IsUntouched accepts_refund state (refund_key state (refunded_work w).link)
          (refunded_work w) in
      inr (tt, refl, status, untouched)
  settle_found-paid (some b) w h = elim (Bool-cases (is_in b.status not_payable_booking)) [
    | inl e ↦
        let (status, untouched) =
          refund_through-IsUntouched accepts_refund state (refund_key state (refunded_work w).link)
            (refunded_work w) in
        rw e (inr (not_payable_lem b.status e, refl, status, untouched))
    | inr e ↦ rw e (
        inl (
          payable_lem b e,
          refl,
          refl,
          settle_payable-IsPaid now new_id b (set_link (mark_paid now state) w) h,
        ))
  ]

  settle_booking_target :
      (t : T.PaymentLinkTarget) (v : Work)
      → t ≡ booking
      → settle_target accepts_refund create_voucher_schedule t now new_id v
        ≡ settle_found now new_id (lookup v.link.target_id v.tables.bookings) v
  unfolding settle_booking
  settle_booking_target t v h = rw h refl

  apply_paid-unsettled :
      (w : Work)
      → is_settled w.link.status ≡ false
      → is_mismatch state.amount w.link.amount ≡ false
      → apply_paid accepts_refund create_voucher_schedule now new_id state w
        ≡ settle_paid accepts_refund create_voucher_schedule now new_id state w
  unfolding apply_paid
  apply_paid-unsettled w live same = rw (live, same) refl

  -- The first payment of a booking's link, of the amount that was asked for, ends in one of two ways. If
  -- the booking is there and is neither cancelled nor a no-show, it is settled: the link is paid, the booking's payment status is success, its status is as before or
  -- has become confirmed, by a transition that the booking's state machine allows, and the link's
  -- payment row is a successful payment of this booking by this link. Otherwise it is recorded as a
  -- failure: the link is refunded, and bookings, payments, vouchers and events are untouched.
  pub apply_paid-booking :
      (w : Work)
      → is_settled w.link.status ≡ false
      → w.link.target_type ≡ booking
      → is_mismatch state.amount w.link.amount ≡ false
      → IsPaidOrRefunded
          (lookup w.link.target_id w.tables.bookings)
          w
          (apply_paid accepts_refund create_voucher_schedule now new_id state w)
  unfolding mark_paid
  apply_paid-booking w live target same =
      subst (IsPaidOrRefunded (lookup w.link.target_id w.tables.bookings) w)
        (sym (
          apply_paid-unsettled w live same
          ∙ ap (settle_or_refund accepts_refund create_voucher_schedule state)
              (settle_booking_target w.link.target_type (set_link (mark_paid now state) w) target)))
        (settle_found-paid (lookup w.link.target_id w.tables.bookings) w refl)
