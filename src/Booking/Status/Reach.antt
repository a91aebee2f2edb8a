-- ===== src/Booking/Status/Reach.antt =====
-- Which statuses a booking can come to.
use mathlib.Core.List.{Memᴰ}
use ushbooknpay.Base.{◌≡◌, ◌⊎◌, inl, inr, sym, Bool, true, false, List, [], ◌∷◌, arith}
use ushbooknpay.Booking.Status.{
  BookingStatus, draft, requested, payment_pending, confirmed, payment_failed, cancelled, refunded,
  is_in, can_transition_to, is_terminal,
}

-- A path of permitted transitions.
pub data Reaches : BookingStatus → BookingStatus → Type 0 where
  here : {s : BookingStatus} → Reaches s s
  step :
      {s u : BookingStatus} (t : BookingStatus)
      → can_transition_to s t ≡ true
      → Reaches t u
      → Reaches s u

-- Every status that the code calls terminal is left by no transition, but for a cancelled booking,
-- which can still become refunded.
pub terminal_left :
    (s t : BookingStatus)
    → is_terminal s ≡ true
    → can_transition_to s t ≡ true
    → (s ≡ cancelled) × (t ≡ refunded)
unfolding is_terminal can_transition_to
terminal_left s t h k = ground arith

-- The statuses in which no confirmation has happened yet.
abbrev pub unconfirmed : BookingStatus → Bool
unconfirmed s =
    is_in s (draft ∷ requested ∷ payment_pending ∷ payment_failed ∷ cancelled ∷ refunded ∷ [])

next-unconfirmed :
    (s t : BookingStatus)
    → unconfirmed s ≡ true
    → can_transition_to s t ≡ true
    → (t ≡ confirmed) ⊎ (unconfirmed t ≡ true)
unfolding can_transition_to
next-unconfirmed s t h k = ground arith

-- The statuses that a path comes to, its end included.
abbrev pub stops : {s u : BookingStatus} → Reaches s u → List BookingStatus
stops here = []
stops (step t e rest) = t ∷ stops rest

-- Every path of permitted transitions from a status in which no confirmation has happened (draft,
-- requested, payment pending or failed, cancelled, refunded) to one beyond confirmation (checked in, in
-- progress, completed, no-show, parked, or a reschedule) comes to confirmed on its way.
pub confirmation_needed :
    {s u : BookingStatus} (path : Reaches s u)
    → unconfirmed s ≡ true
    → unconfirmed u ≡ false
    → Memᴰ confirmed (stops path)
confirmation_needed here h k = absurd (cc)
confirmation_needed (step t e rest) h k = elim (next-unconfirmed _ t h e) [
  | inl f ↦ Memᴰ.head (sym f)
  | inr f ↦ Memᴰ.tail (confirmation_needed rest f k)
]
