-- ===== src/Booking/Sessions/Busy.antt =====
-- When the therapists of accepted sessions are busy: `therapist_busy_windows` of
-- app/booking/domain/sessions.py.
use ushbooknpay.Base.{ℕ, ◌≤◌, ◌<◌, Bool, ◌&&◌, List, [], ◌∷◌}
use ushbooknpay.Availability.Intervals.{Interval, interval, contains}
use ushbooknpay.Booking.Sessions.{Session, starts, ends}
use ushbooknpay.Booking.Sessions.Derived.{serves}

-- The session keeps the therapist at the instant.
abbrev pub is_serving : ℕ → ℕ → Session → Bool
is_serving t x s = serves t s && contains x (interval (starts s) (ends s))

-- Busy windows from an instant on, each proper and none before the end of the one before it.
abbrev pub IsQueue : ℕ → List Interval → Type 0
IsQueue a [] = Unit
IsQueue a (w ∷ rest) = (a ≤ w.start) × (w.start < w.end) × IsQueue w.end rest
