-- ===== src/Booking/Status.antt =====
-- `BookingStatus` of app/booking/domain/value_objects.py and the state machine of state_machine.py.
pub mod Reach
use ushbooknpay.Base.{
  ℕ, ◌≡◌, refl, Bool, true, false, not, Option, none, some, List, [], ◌∷◌, arith, ◌==◌, any,
  if◌then◌else◌,
}

pub data BookingStatus : Type 0 where
  draft requested payment_pending confirmed checked_in in_progress payment_failed : BookingStatus
  reschedule_requested reschedule_approved cancelled refunded completed no_show parked :
      BookingStatus

abbrev pub index : BookingStatus → ℕ
index draft = 0
index requested = 1
index payment_pending = 2
index confirmed = 3
index checked_in = 4
index in_progress = 5
index payment_failed = 6
index reschedule_requested = 7
index reschedule_approved = 8
index cancelled = 9
index refunded = 10
index completed = 11
index no_show = 12
index parked = 13

abbrev pub is_in : BookingStatus → List BookingStatus → Bool
is_in s l = any (λ x. index x == index s) l

abbrev pub non_blocking_booking_statuses : List BookingStatus
non_blocking_booking_statuses = cancelled ∷ no_show ∷ refunded ∷ payment_failed ∷ parked ∷ []

-- `VALID_TRANSITIONS`
unfoldable pub valid_transitions : BookingStatus → List BookingStatus
valid_transitions draft = confirmed ∷ payment_pending ∷ requested ∷ cancelled ∷ payment_failed ∷ []
valid_transitions requested = draft ∷ payment_pending ∷ confirmed ∷ payment_failed ∷ cancelled ∷ []
valid_transitions payment_pending = confirmed ∷ payment_failed ∷ cancelled ∷ []
valid_transitions confirmed =
    checked_in ∷ in_progress ∷ reschedule_requested ∷ cancelled ∷ refunded ∷ completed ∷ no_show
    ∷ parked ∷ []
valid_transitions checked_in = in_progress ∷ completed ∷ cancelled ∷ no_show ∷ []
valid_transitions in_progress = completed ∷ cancelled ∷ []
valid_transitions payment_failed = payment_pending ∷ cancelled ∷ []
valid_transitions reschedule_requested = reschedule_approved ∷ confirmed ∷ cancelled ∷ refunded ∷ []
valid_transitions reschedule_approved = confirmed ∷ cancelled ∷ refunded ∷ []
valid_transitions parked = confirmed ∷ cancelled ∷ refunded ∷ []
valid_transitions cancelled = refunded ∷ []
valid_transitions refunded = []
valid_transitions completed = []
valid_transitions no_show = []

abbrev pub terminal_statuses : List BookingStatus
terminal_statuses = cancelled ∷ refunded ∷ completed ∷ no_show ∷ []

unfoldable pub can_transition_to : BookingStatus → BookingStatus → Bool
unfolding valid_transitions
can_transition_to current target = is_in target (valid_transitions current)

-- `none` is BookingStateError; the machine's status is then as before.
unfoldable pub transition_to : BookingStatus → BookingStatus → Option BookingStatus
unfolding can_transition_to
transition_to current target = if can_transition_to current target then some target else none

unfoldable pub is_terminal : BookingStatus → Bool
is_terminal s = is_in s terminal_statuses
