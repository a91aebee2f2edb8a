-- ===== src/Booking/Sessions.antt =====
-- app/booking/domain/sessions.py: the sessions of a booking, their validation and what is derived from
-- them. Instants are microseconds; a text that is no instant is `none`. Prices are in thousandths of a
-- dinar, which is how they are stored; `is_packaged_services` is the flag in a service's data. Names,
-- snapshots, arrangements and the price of extra minutes are left out; ids are numbers, and durations
-- and prices are not negative.
pub mod Chain
pub mod Validity
pub mod Derived
pub mod Windows
pub mod Busy
pub mod Build
pub mod Packages
pub mod Planner
mod Tests
use ushbooknpay.Base.{
  ℕ, suc, ◌+◌, ◌*◌, ◌≤◌, ◌<◌, ◌≡◌, Bool, true, false, ◌&&◌, ◌||◌, Option, none, some, List, [], ◌∷◌,
  ◌++◌, ltb, leb, ◌==◌, length, total, if◌then◌else◌,
}
use ushbooknpay.Base.Int.{ℤ, pos_part}
use ushbooknpay.Base.Sorting.{sort_by}
use ushbooknpay.Base.Session.{Outcome, ok, err}

pub record ServiceEntry : Type 0 where
  pub service_id : ℕ
  pub duration_minutes : ℕ
  pub position : ℕ
  pub session_id : Option ℕ
  pub base_price : ℕ
  pub package_id : Option ℕ
  pub is_packaged_services : Bool

pub record Addon : Type 0 where
  pub addon_id : ℕ
  pub duration_minutes : ℕ
  pub price : ℕ

pub record Session : Type 0 where
  pub session_id : ℕ
  pub position : ℕ
  pub therapist_id : Option ℕ
  pub secondary_therapist_id : Option ℕ
  pub services : List ServiceEntry
  pub addons : List Addon
  pub extra_minutes : ℕ
  pub services_duration : ℕ
  pub addons_duration : ℕ
  pub total_session_duration : ℕ
  pub services_price : ℕ
  pub addons_price : ℕ
  pub appointment_start : Option ℕ
  pub appointment_end : Option ℕ

-- `SessionValidationError`s, with the index that their text names.
pub data SessionError : Type 0 where
  no_session too_many_sessions no_service : SessionError
  package_unavailable not_a_package nothing_included not_exactly_once : ℕ → SessionError
  several_packages mixed_with_package no_time invalid_text other_day several_branches : SessionError
  not_offered : ℕ → SessionError
  therapist_required service_required invalid_time other_date overlap : ℕ → SessionError

-- `timedelta(minutes=n)`
abbrev pub minutes : ℕ → ℕ
minutes n = n * 60000000

-- `e["position"] = i`, from `i` on
unfoldable pub number_services : ℕ → List ServiceEntry → List ServiceEntry
number_services i [] = []
number_services i (e ∷ es) = record e { position = i } ∷ number_services (suc i) es

unfoldable pub build_session :
    ℕ
    → ℕ
    → Option ℕ
    → Option ℕ
    → List ServiceEntry
    → List Addon
    → ℤ
    → ℕ
    → Outcome SessionError Session
build_session position start therapist secondary [] addons extra_minutes id = err no_service
build_session position start therapist secondary (e ∷ es) addons extra_minutes id =
    let services_duration = total (λ s. s.duration_minutes) (e ∷ es) in
    let addons_duration = total (λ a. a.duration_minutes) addons in
    let total_duration = services_duration + addons_duration + pos_part extra_minutes in
    ok (record {
      session_id = id;
      position = position;
      therapist_id = therapist;
      secondary_therapist_id = secondary;
      services = number_services 0 (e ∷ es);
      addons = addons;
      extra_minutes = pos_part extra_minutes;
      services_duration = services_duration;
      addons_duration = addons_duration;
      total_session_duration = total_duration;
      services_price = total (λ s. s.base_price) (e ∷ es);
      addons_price = total (λ a. a.price) addons;
      appointment_start = some start;
      appointment_end = some (start + minutes total_duration);
    })

-- `datetime.max`
abbrev pub latest : ℕ
latest = 315537897599999999

-- The sort key: a session without a start goes last.
abbrev pub start_key : Session → ℕ
start_key s = elim s.appointment_start [ none ↦ latest | some t ↦ t ]

unfoldable pub renumber : ℕ → List Session → List Session
renumber i [] = []
renumber i (s ∷ rest) = record s { position = i } ∷ renumber (suc i) rest

unfoldable pub sort_sessions : List Session → List Session
sort_sessions sessions = renumber 0 (sort_by start_key sessions)

abbrev pub is_none {ℓ} : {A : Type ℓ} → Option A → Bool
is_none none = true
is_none (some _) = false

abbrev pub is_empty {ℓ} : {A : Type ℓ} → List A → Bool
is_empty [] = true
is_empty (_ ∷ _) = false

-- `start is None or end is None or end <= start`
abbrev pub is_invalid_window : Option ℕ → Option ℕ → Bool
is_invalid_window none e = true
is_invalid_window (some s) none = true
is_invalid_window (some s) (some e) = leb e s

-- The first loop of `validate_sessions`: what is wrong with one session by itself.
unfoldable pub check_each : ℕ → List Session → Option SessionError
check_each i [] = none
check_each i (s ∷ rest) =
    let later = check_each (suc i) rest in
    if is_none s.therapist_id
    then some (therapist_required i)
    else if is_empty s.services
    then some (service_required i)
    else if is_invalid_window s.appointment_start s.appointment_end
    then some (invalid_time i)
    else later

abbrev pub instant : Option ℕ → ℕ
instant none = 0
instant (some t) = t

abbrev pub starts : Session → ℕ
starts s = instant s.appointment_start

abbrev pub ends : Session → ℕ
ends s = instant s.appointment_end

-- The zone's calendar: the local date of an instant.
module _ (date : ℕ → ℕ) where
  -- The second loop, over the sorted sessions; `prev_end` is 0 before the first.
  unfoldable pub check_order : ℕ → ℕ → ℕ → List Session → Option SessionError
  check_order day prev_end i [] = none
  check_order day prev_end i (s ∷ rest) =
      let later = check_order day (ends s) (suc i) rest in
      if date (starts s) == day && date (ends s) == day
      then if ltb (starts s) prev_end then some (overlap i) else later
      else some (other_date i)

  abbrev pub first_start : List Session → ℕ
  first_start [] = 0
  first_start (s ∷ rest) = starts s

  abbrev pub or_ordered : Option SessionError → List Session → Outcome SessionError (List Session)
  or_ordered none ordered = ok ordered
  or_ordered (some e) ordered = err e

  abbrev pub validate_order : List Session → Outcome SessionError (List Session)
  validate_order ordered = or_ordered (check_order (date (first_start ordered)) 0 0 ordered) ordered

  unfoldable pub validate_sessions : ℕ → List Session → Outcome SessionError (List Session)
  validate_sessions max_sessions [] = err no_session
  validate_sessions max_sessions (s ∷ rest) =
      if ltb max_sessions (length (s ∷ rest))
      then err too_many_sessions
      else elim (check_each 0 (s ∷ rest)) [
        | some e ↦ err e
        | none ↦ validate_order (sort_sessions (s ∷ rest))
      ]
