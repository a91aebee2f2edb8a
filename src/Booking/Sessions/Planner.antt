-- ===== src/Booking/Sessions/Planner.antt =====
-- `plan_sessions` of app/booking/application/session_planner.py, with the check that a session's
-- services are offered by its arrangement, of multi_service.py. The catalogue's services and
-- arrangements are parameters, where `none` is a failed call. Snapshots and texts are left out, and so is
-- the question to the other service whether rooms and therapists are free (`check_availability`).
pub mod Built
pub mod Accepted
pub mod Price
pub mod Calendar
use ushbooknpay.Base.{
  ℕ, suc, ◌+◌, ◌≡◌, Bool, true, false, not, ◌&&◌, ◌||◌, Option, none, some, List, [], ◌∷◌, ◌++◌,
  map, ltb, ◌==◌, any, length, total, keep, if◌then◌else◌,
}
use ushbooknpay.Base.Dict.{Dict, lookup, insert}
use ushbooknpay.Base.Int.{ℤ}
use ushbooknpay.Base.Session.{Outcome, ok, err}
use ushbooknpay.Booking.Sessions.{
  ServiceEntry, Addon, Session, SessionError, no_time, invalid_text, other_day, several_branches,
  not_offered, no_session, build_session, validate_sessions, is_empty, starts,
}
use ushbooknpay.Booking.Sessions.Derived.{
  Totals, Mirror, booking_totals, flatten_services, legacy_mirror,
}
use ushbooknpay.Booking.Sessions.Packages.{
  ServiceItem, CatalogueService, PackageInfo, or_else, distinct, flat_map, session_entries,
  resolve_package_context, validate_package_exclusivity,
}

-- A session of a request. `some none` is a time that cannot be read; `drawn_id` is the session's id, the
-- one sent or the one that the code draws.
pub record SessionItem : Type 0 where
  pub drawn_id : ℕ
  pub therapist_id : ℕ
  pub secondary_therapist_id : Option ℕ
  pub service_arrangement_id : Option ℕ
  pub services : List ServiceItem
  pub addons : List Addon
  pub extra_minutes : ℤ
  pub appointment_time : Option (Option ℕ)
  pub appointment_start : Option ℕ

pub record CatalogueAddon : Type 0 where
  pub addon_id : ℕ
  pub price : Option ℕ
  pub duration_minutes : Option ℕ

-- What the code reads of an arrangement: its add-ons, the services it offers with `is_active`, and its
-- branch's name, stripped and in lower case.
pub record Arrangement : Type 0 where
  pub addons : List CatalogueAddon
  pub arrangement_services : List (ℕ × Bool)
  pub branch_name : Option ℕ

abbrev pub max_sessions_per_booking : ℕ
max_sessions_per_booking = 3

abbrev pub max_package_sessions_per_booking : ℕ
max_package_sessions_per_booking = 5

-- Of add-ons with one id the last counts.
unfoldable pub addons_by_id : Dict CatalogueAddon → List CatalogueAddon → Dict CatalogueAddon
addons_by_id d [] = d
addons_by_id d (a ∷ rest) = addons_by_id (insert a.addon_id a d) rest

abbrev pub enrich : Addon → Option CatalogueAddon → Addon
enrich a none = a
enrich a (some db) = record a {
  price = or_else db.price a.price;
  duration_minutes = or_else db.duration_minutes a.duration_minutes;
}

-- `_enrich_addons`
unfoldable pub enrich_addons : Dict CatalogueAddon → List Addon → List Addon
enrich_addons d [] = []
enrich_addons d (a ∷ rest) = enrich a (lookup a.addon_id d) ∷ enrich_addons d rest

-- `arr_id or s.service_arrangement_id`
abbrev pub arrangement_of : Option ℕ → ServiceItem → Option ℕ
arrangement_of none s = s.service_arrangement_id
arrangement_of (some a) s = some a

abbrev pub is_offered : ℕ → List (ℕ × Bool) → Bool
is_offered sid [] = true
is_offered sid (o ∷ os) = any (λ x. x.0 == sid && x.1) (o ∷ os)

abbrev pub offers : Option ℕ → Option Arrangement → Bool
offers none a = true
offers (some sid) none = true
offers (some sid) (some a) = is_offered sid a.arrangement_services

abbrev pub branch_of : Option Arrangement → List ℕ
branch_of none = []
branch_of (some a) = elim a.branch_name [ none ↦ [] | some b ↦ b ∷ [] ]

abbrev pub addons_of : Option Arrangement → List CatalogueAddon
addons_of none = []
addons_of (some a) = a.addons

pub record SessionPlan : Type 0 where
  pub sessions : List Session
  pub mirror : Option Mirror
  pub totals : Totals
  pub service_entries : List ServiceEntry

abbrev pub max_for : Dict PackageInfo → ℕ
max_for ctx = if is_empty ctx then max_sessions_per_booking else max_package_sessions_per_booking

abbrev pub and_session :
    Outcome SessionError Session
    → Outcome SessionError (List Session)
    → Outcome SessionError (List Session)
and_session (err e) rest = err e
and_session (ok s) (err e) = err e
and_session (ok s) (ok ss) = ok (s ∷ ss)

abbrev pub plan_with : List Session → SessionPlan
plan_with sessions = record {
  sessions = sessions;
  mirror = legacy_mirror sessions;
  totals = booking_totals sessions;
  service_entries = flatten_services sessions;
}

-- The zone's calendar, and the date of the booking.
module _ (date : ℕ → ℕ) (day : ℕ) where
  abbrev pub plan_of : List Session → Outcome SessionError SessionPlan
  plan_of [] = err no_session
  plan_of (s ∷ rest) = if date (starts s) == day then ok (plan_with (s ∷ rest)) else err other_day

  abbrev pub and_plan : Outcome SessionError (List Session) → Outcome SessionError SessionPlan
  and_plan (err e) = err e
  and_plan (ok sessions) = plan_of sessions

  abbrev pub validated_plan :
      Dict PackageInfo → List Session → Option SessionError → Outcome SessionError SessionPlan
  validated_plan ctx built (some e) = err e
  validated_plan ctx built none = and_plan (validate_sessions date (max_for ctx) built)

  abbrev pub plan_built :
      Dict PackageInfo → Outcome SessionError (List Session) → Outcome SessionError SessionPlan
  plan_built ctx (err e) = err e
  plan_built ctx (ok built) = validated_plan ctx built (validate_package_exclusivity built)

module _ (get_arrangement : ℕ → Option Arrangement) where
  abbrev pub known_arrangement : Option ℕ → Option Arrangement
  known_arrangement none = none
  known_arrangement (some a) = get_arrangement a

  -- The first rule of `_validate_consistency`.
  unfoldable pub check_offered : Option ℕ → ℕ → List ServiceItem → Option SessionError
  check_offered arr_id i [] = none
  check_offered arr_id i (s ∷ rest) =
      let later = check_offered arr_id (suc i) rest in
      if offers s.service_id (known_arrangement (arrangement_of arr_id s))
      then later
      else some (not_offered i)

  unfoldable pub check_branches : Option ℕ → List ServiceItem → Option SessionError
  unfolding distinct flat_map
  check_branches arr_id items =
      if ltb 1 (
        length (
          distinct (flat_map (λ s. branch_of (known_arrangement (arrangement_of arr_id s))) items)))
      then some several_branches
      else none

  unfoldable pub validate_consistency : Option ℕ → List ServiceItem → Option SessionError
  unfolding check_offered check_branches
  validate_consistency arr_id items = elim (check_offered arr_id 0 items) [
    | some e ↦ some e
    | none ↦ check_branches arr_id items
  ]

  abbrev pub enriched : SessionItem → List Addon
  enriched item =
      enrich_addons (addons_by_id [] (addons_of (known_arrangement item.service_arrangement_id)))
        item.addons

-- `_start_of`; `at_time` is the instant of a time of day on the booking's date, in the branches' zone.
abbrev pub start_from : (ℕ → ℕ) → Option (Option ℕ) → Option ℕ → Outcome SessionError ℕ
start_from at_time (some none) start = err invalid_text
start_from at_time (some (some t)) start = ok (at_time t)
start_from at_time none none = err no_time
start_from at_time none (some t) = ok t

module _ (get_arrangement : ℕ → Option Arrangement) (get_service : ℕ → Option CatalogueService)
    (at_time : ℕ → ℕ) where
  abbrev pub build_from :
      Dict PackageInfo
      → ℕ
      → SessionItem
      → Option SessionError
      → Outcome SessionError ℕ
      → Outcome SessionError Session
  build_from ctx position item (some e) start = err e
  build_from ctx position item none (err e) = err e
  build_from ctx position item none (ok start) =
      build_session position start (some item.therapist_id) item.secondary_therapist_id
        (session_entries get_service ctx position 0 item.services) (enriched get_arrangement item)
        item.extra_minutes item.drawn_id

  unfoldable pub build_one_session :
      Dict PackageInfo → ℕ → SessionItem → Outcome SessionError Session
  unfolding validate_consistency enrich_addons addons_by_id build_session session_entries
  build_one_session ctx position item =
      build_from ctx position item
        (validate_consistency get_arrangement item.service_arrangement_id item.services)
        (start_from at_time item.appointment_time item.appointment_start)

  -- The sessions are built at the same time; of several errors the first session's is taken.
  unfoldable pub build_sessions :
      Dict PackageInfo → ℕ → List SessionItem → Outcome SessionError (List Session)
  unfolding build_one_session
  build_sessions ctx i [] = ok []
  build_sessions ctx i (item ∷ rest) =
      and_session (build_one_session ctx i item) (build_sessions ctx (suc i) rest)

  module _ (date : ℕ → ℕ) (day : ℕ) where
    abbrev pub plan_within :
        List SessionItem
        → Outcome SessionError (Dict PackageInfo)
        → Outcome SessionError SessionPlan
    plan_within items (err e) = err e
    plan_within items (ok ctx) = plan_built date day ctx (build_sessions ctx 0 items)

    unfoldable pub plan_sessions : List SessionItem → Outcome SessionError SessionPlan
    unfolding resolve_package_context build_sessions validate_package_exclusivity validate_sessions
        legacy_mirror flatten_services
    plan_sessions items =
        plan_within items (resolve_package_context get_service (map (λ item. item.services) items))
