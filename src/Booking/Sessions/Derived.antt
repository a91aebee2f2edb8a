-- ===== src/Booking/Sessions/Derived.antt =====
-- What app/booking/domain/sessions.py derives from the sessions: totals, the mirror of the single
-- session's columns, and the windows in which a therapist is busy.
use ushbooknpay.Base.{
  ℕ, suc, ◌+◌, Bool, false, ◌||◌, Option, none, some, List, [], ◌∷◌, ◌++◌, length, total, ◌==◌,
  if◌then◌else◌,
}
use ushbooknpay.Availability.Intervals.{Interval, interval}
use ushbooknpay.Booking.Sessions.{ServiceEntry, Session}

-- `booking_totals`, less the prices of extra minutes and of whole sessions.
pub record Totals : Type 0 where
  pub services_price : ℕ
  pub addons_price : ℕ
  pub services_duration : ℕ
  pub addons_duration : ℕ
  pub extra_minutes : ℕ
  pub total_duration : ℕ

abbrev pub booking_totals : List Session → Totals
booking_totals sessions = record {
  services_price = total (λ s. s.services_price) sessions;
  addons_price = total (λ s. s.addons_price) sessions;
  services_duration = total (λ s. s.services_duration) sessions;
  addons_duration = total (λ s. s.addons_duration) sessions;
  extra_minutes = total (λ s. s.extra_minutes) sessions;
  total_duration = total (λ s. s.total_session_duration) sessions;
}

-- The services of one session, from the position `len(out)` on.
unfoldable pub tag_services : ℕ → ℕ → List ServiceEntry → List ServiceEntry
tag_services id i [] = []
tag_services id i (e ∷ es) =
    record e { session_id = some id; position = i } ∷ tag_services id (suc i) es

unfoldable pub flatten_from : ℕ → List Session → List ServiceEntry
unfolding tag_services
flatten_from i [] = []
flatten_from i (s ∷ rest) =
    tag_services s.session_id i s.services ++ flatten_from (i + length s.services) rest

unfoldable pub flatten_services : List Session → List ServiceEntry
unfolding flatten_from
flatten_services sessions = flatten_from 0 sessions

unfoldable pub last_end : Session → List Session → Option ℕ
last_end s [] = s.appointment_end
last_end s (t ∷ rest) = last_end t rest

pub record Mirror : Type 0 where
  pub therapist_id : Option ℕ
  pub secondary_therapist_id : Option ℕ
  pub services : List ServiceEntry
  pub appointment_start : Option ℕ
  pub appointment_end : Option ℕ
  pub duration_minutes : ℕ
  pub extra_minutes : ℕ
  pub addons_duration : ℕ
  pub total_duration : ℕ
  pub services_price : ℕ
  pub addons_price : ℕ

-- `none` is the IndexError of `sessions[0]`.
unfoldable pub legacy_mirror : List Session → Option Mirror
unfolding flatten_services last_end
legacy_mirror [] = none
legacy_mirror (first ∷ rest) =
    let totals = booking_totals (first ∷ rest) in
    some (record {
      therapist_id = first.therapist_id;
      secondary_therapist_id = first.secondary_therapist_id;
      services = flatten_services (first ∷ rest);
      appointment_start = first.appointment_start;
      appointment_end = last_end first rest;
      duration_minutes = totals.services_duration;
      extra_minutes = totals.extra_minutes;
      addons_duration = totals.addons_duration;
      total_duration = totals.total_duration;
      services_price = totals.services_price;
      addons_price = totals.addons_price;
    })

-- The columns of a booking that tell when its therapists are busy; no stored sessions is `[]`.
pub record BookingRow : Type 0 where
  pub sessions : List Session
  pub therapist_id : Option ℕ
  pub secondary_therapist_id : Option ℕ
  pub appointment_start : Option ℕ
  pub appointment_end : Option ℕ

abbrev pub is_id : ℕ → Option ℕ → Bool
is_id t none = false
is_id t (some x) = x == t

abbrev pub serves : ℕ → Session → Bool
serves t s = is_id t s.therapist_id || is_id t s.secondary_therapist_id

-- `if s_start and s_end`
abbrev pub window_of : Option ℕ → Option ℕ → List Interval
window_of none e = []
window_of (some s) none = []
window_of (some s) (some e) = interval s e ∷ []

unfoldable pub session_windows : ℕ → List Session → List Interval
session_windows t [] = []
session_windows t (s ∷ rest) =
    (if serves t s then window_of s.appointment_start s.appointment_end else [])
    ++ session_windows t rest

unfoldable pub busy_windows : ℕ → List Session → BookingRow → List Interval
unfolding session_windows
busy_windows t [] b =
    if is_id t b.therapist_id || is_id t b.secondary_therapist_id
    then window_of b.appointment_start b.appointment_end
    else []
busy_windows t (s ∷ rest) b = session_windows t (s ∷ rest)

-- For no therapist there is no window.
unfoldable pub therapist_busy_windows : BookingRow → Option ℕ → List Interval
unfolding busy_windows
therapist_busy_windows b none = []
therapist_busy_windows b (some t) = busy_windows t b.sessions b
