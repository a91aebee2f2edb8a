-- ===== src/Booking/Tests.antt =====
-- The life of a booking, worked through.
use mathlib.Core.List.{Memᴰ}
use ushbooknpay.Base.{
  ℕ, ◌+◌, ◌*◌, ◌/◌, ◌≤◌, ◌≡◌, refl, ◌↔◌, false, none, some, List, [], ◌∷◌, arith, All, ◌==◌,
  if◌then◌else◌,
}
use ushbooknpay.Base.Session.{ok}
use ushbooknpay.Base.Sorting.{sort_by, insert_by}
use ushbooknpay.Booking.Sessions.{
  Session, minutes, instant, validate_sessions, check_each, check_order, sort_sessions, renumber,
}
use ushbooknpay.Booking.Sessions.Derived.{Mirror, legacy_mirror, BookingRow}
use ushbooknpay.Booking.Sessions.Validity.{IsBookable, validate_sessions_iff}
use ushbooknpay.Booking.Sessions.Windows.{IsWithin, mirror_window}
use ushbooknpay.Booking.Outbox.{empty_outbox, OutboxRow, Reply, accepted, retryable}
use ushbooknpay.Booking.Outbox.Runs.{Action, enqueues, passes, run_actions}
use ushbooknpay.Booking.Outbox.Calls.{times}
use ushbooknpay.Booking.Outbox.Calls.Passes.{run_actions-calls}
use ushbooknpay.Booking.Status.{
  requested, confirmed, checked_in, valid_transitions, can_transition_to,
}
use ushbooknpay.Booking.Status.Reach.{Reaches, stops, confirmation_needed}

abbrev arrival : Reaches requested checked_in
unfolding can_transition_to valid_transitions
arrival = Reaches.step confirmed refl (Reaches.step checked_in refl Reaches.here)

confirmation_needed_example : Memᴰ confirmed (stops arrival)
confirmation_needed_example = confirmation_needed arrival refl refl

-- Two sessions of an hour, given in the wrong order, for two therapists.
abbrev hour : ℕ
hour = 3600000000

abbrev calendar : ℕ → ℕ
calendar t = t / (24 * hour)

abbrev hour_of : ℕ → ℕ → ℕ → Session
hour_of id therapist start = record {
  session_id = id;
  position = 0;
  therapist_id = some therapist;
  secondary_therapist_id = none;
  services =
      record {
        service_id = 5;
        duration_minutes = 60;
        position = 0;
        session_id = none;
        base_price = 15000;
        package_id = none;
        is_packaged_services = false;
      }
      ∷ [];
  addons = [];
  extra_minutes = 0;
  services_duration = 60;
  addons_duration = 0;
  total_session_duration = 60;
  services_price = 15000;
  addons_price = 0;
  appointment_start = some start;
  appointment_end = some (start + hour);
}

abbrev visits : List Session
visits = hour_of 2 8 (12 * hour) ∷ hour_of 1 7 (10 * hour) ∷ []

abbrev stored : BookingRow
stored = record {
  sessions = sort_sessions visits;
  therapist_id = some 7;
  secondary_therapist_id = none;
  appointment_start = some (10 * hour);
  appointment_end = some (13 * hour);
}

visits_accepted : validate_sessions calendar 10 visits ≡ ok (sort_sessions visits)
unfolding validate_sessions check_each check_order sort_sessions renumber sort_by insert_by
visits_accepted = refl

validate_sessions_iff_example :
    ((ys : List Session) × (validate_sessions calendar 10 visits ≡ ok ys))
    ↔ IsBookable calendar 10 visits
validate_sessions_iff_example = validate_sessions_iff calendar 10 visits

mirror_window_example :
    (m : Mirror) × (legacy_mirror (sort_sessions visits) ≡ some m)
    × All (IsWithin m) visits
    × (m.total_duration ≡ 120)
    × (instant m.appointment_start + minutes m.total_duration ≤ instant m.appointment_end)
mirror_window_example =
    mirror_window calendar 10 visits (sort_sessions visits) visits_accepted (refl, (refl, tt))

-- A request that is refused once and then accepted, and one behind it.
abbrev replies : ℕ → OutboxRow → Reply
replies n r = if r.attempts == n then retryable else accepted

abbrev requests : List Action
requests =
    enqueues 1 4 3
    ∷ enqueues 2 4 5
    ∷ passes 50 20000000 (replies 1) (λ _. 20000000)
    ∷ passes 50 60000000 (replies 1) (λ _. 60000000)
    ∷ []

run_actions-calls_example :
    All
      (λ r. times r.id (run_actions 12 requests empty_outbox).calls + 1 ≤ 12)
      (run_actions 12 requests empty_outbox).rows
run_actions-calls_example = run_actions-calls 12 (omega arith) requests (refl, (refl, tt))
