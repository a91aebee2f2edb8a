-- ===== src/PaymentLinks/Settlement/Settling.antt =====
-- What the settlement of a link's target, in app/payment_links/application/settlement.py, does to the
-- link, the events and the refunds.
use ushbooknpay.Base.{
  ℕ, ◌≡◌, inl, inr, refl, sym, Bool, Option, none, some, List, [], ◌∷◌, ◌++◌, Bool-cases,
  if◌then◌else◌,
}
use mathlib.Core.List.{append-nil}
use ushbooknpay.Base.Dict.{lookup}
use ushbooknpay.Base.Session.{Outcome, ok, err}
use ushbooknpay.Booking.Status.{is_in}
use ushbooknpay.Voucher.Service.{GiftVoucher, VoucherError}
use ushbooknpay.PaymentLinks.Tables.{
  PaymentLinkTarget, booking, gift_voucher, product, PaymentLink, BookingRow, Event, paid_event,
  RefundRequest, Work,
}
use ushbooknpay.PaymentLinks.Settlement.{
  SettleError, not_payable_booking, settle_payable, settle_found, settle_booking, pay_voucher,
  activated, settle_voucher_found, settle_voucher, settle_target,
}
use ushbooknpay.PaymentLinks.Settlement.Apply.{is_booking}

-- The event of a settled link.
abbrev pub paid_events_of : PaymentLink → List Event
paid_events_of l = if is_booking l.target_type then paid_event l.id ∷ [] else []

pub paid_events_same :
    (l m : PaymentLink)
    → l.id ≡ m.id
    → l.target_type ≡ m.target_type
    → paid_events_of l ≡ paid_events_of m
paid_events_same l m id type = rw (id, type) refl

-- The link is the same one, in the same status.
abbrev pub IsSame : PaymentLink → PaymentLink → Type 0
IsSame l m = (m.id ≡ l.id) × (m.target_type ≡ l.target_type) × (m.status ≡ l.status)

abbrev events_after : Outcome SettleError Unit → PaymentLink → List Event
events_after (ok x) l = paid_events_of l
events_after (err e) l = []

-- A settlement of the target queues the paid event if it goes through, and asks for no refund.
abbrev pub IsSettling : Work → Outcome SettleError Unit × Work → Type 0
IsSettling w (r, w') =
    IsSame w.link w'.link
    × (w'.tables.refund_requests ≡ w.tables.refund_requests)
    × (w'.tables.pending_events ≡ w.tables.pending_events ++ events_after r w.link)

module _ (now new_id : ℕ) where
  settle_found-IsSettling :
      (b : Option BookingRow) (w : Work)
      → w.link.target_type ≡ booking
      → IsSettling w (settle_found now new_id b w)
  unfolding settle_payable
  settle_found-IsSettling none w h =
      ((refl, refl, refl), refl, sym (append-nil w.tables.pending_events))
  settle_found-IsSettling (some b) w h = elim (Bool-cases (is_in b.status not_payable_booking)) [
    | inl e ↦ rw e ((refl, refl, refl), refl, sym (append-nil w.tables.pending_events))
    | inr e ↦ rw (e, h) ((refl, refl, refl), refl, refl)
  ]

  pay_voucher-IsSettling :
      (w : Work)
      → IsSame w.link (pay_voucher now new_id w).link
        × ((pay_voucher now new_id w).tables.refund_requests ≡ w.tables.refund_requests)
        × ((pay_voucher now new_id w).tables.pending_events ≡ w.tables.pending_events)
  unfolding pay_voucher
  pay_voucher-IsSettling w = ((refl, refl, refl), refl, refl)

  activated-IsSettling :
      (r : Outcome VoucherError GiftVoucher) (w : Work)
      → w.link.target_type ≡ gift_voucher
      → IsSettling w (activated r (pay_voucher now new_id w))
  unfolding pay_voucher
  activated-IsSettling (ok v) w h =
      rw h ((refl, refl, refl), refl, sym (append-nil w.tables.pending_events))
  activated-IsSettling (err e) w h =
      ((refl, refl, refl), refl, sym (append-nil w.tables.pending_events))

module _ (accepts_refund : RefundRequest → Bool) (create_voucher_schedule : ℕ → Option ℕ)
    (now new_id : ℕ) where
  settle_voucher_found-IsSettling :
      (v : Option GiftVoucher) (w : Work)
      → w.link.target_type ≡ gift_voucher
      → IsSettling w (settle_voucher_found accepts_refund create_voucher_schedule now new_id v w)
  settle_voucher_found-IsSettling none w h =
      ((refl, refl, refl), refl, sym (append-nil w.tables.pending_events))
  settle_voucher_found-IsSettling (some v) w h = activated-IsSettling now new_id _ w h

  pub settle_target-IsSettling :
      (t : PaymentLinkTarget) (w : Work)
      → w.link.target_type ≡ t
      → IsSettling w (settle_target accepts_refund create_voucher_schedule t now new_id w)
  unfolding settle_booking settle_voucher
  settle_target-IsSettling booking w h =
      settle_found-IsSettling now new_id (lookup w.link.target_id w.tables.bookings) w h
  settle_target-IsSettling gift_voucher w h =
      settle_voucher_found-IsSettling (lookup w.link.target_id w.tables.vouchers) w h
  settle_target-IsSettling product w h =
      rw h ((refl, refl, refl), refl, sym (append-nil w.tables.pending_events))
