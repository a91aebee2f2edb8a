-- ===== src/Booking/Sessions/Tests.antt =====
-- A package of two services, booked in two sessions.
use ushbooknpay.Base.{
  ℕ, ◌+◌, ◌*◌, ◌/◌, ◌≤◌, ◌<◌, ◌≡◌, refl, true, false, Option, none, some, List, [], ◌∷◌, All,
  length, total, map, ◌==◌, if◌then◌else◌,
}
use ushbooknpay.Base.Pairs.{AllPairs}
use ushbooknpay.Base.Dict.{Dict, lookup, insert}
use ushbooknpay.Base.Int.{pos}
use ushbooknpay.Base.Session.{ok}
use ushbooknpay.Base.Sorting.{sort_by, insert_by}
use mathlib.Core.List.{Memᴰ}
use ushbooknpay.Booking.Sessions.{
  ServiceEntry, Session, build_session, number_services, validate_sessions, check_each, check_order,
  sort_sessions, renumber,
}
use ushbooknpay.Booking.Sessions.Derived.{Mirror}
use ushbooknpay.Booking.Sessions.Chain.{IsApart}
use ushbooknpay.Booking.Sessions.Validity.{IsOn}
use ushbooknpay.Booking.Sessions.Packages.{
  ServiceItem, CatalogueService, PackageInfo, or_zero, is_whole, how_many, package_refs,
  session_refs, package_info, durations_of, check_package, check_packages, resolve_package_context,
  wanted_packages, distinct, flat_map, is_same_list, first_place, build_entry, session_entries,
  check_exclusive, validate_package_exclusivity,
}
use ushbooknpay.Booking.Sessions.Packages.Coverage.{IsChecked, resolve-IsChecked}
use ushbooknpay.Booking.Sessions.Packages.Exclusive.{IsOf}
use ushbooknpay.Booking.Sessions.Planner.{
  SessionItem, SessionPlan, Arrangement, plan_with, enrich_addons, addons_by_id, check_offered,
  check_branches, validate_consistency, build_one_session, build_sessions, plan_sessions,
}
use ushbooknpay.Booking.Sessions.Planner.Price.{whole_prices, plan_sessions-price}
use ushbooknpay.Booking.Sessions.Planner.Calendar.{IsMirrorOf, plan_sessions-calendar}

abbrev day_long : ℕ
day_long = 24 * 3600000000

abbrev date_of : ℕ → ℕ
date_of t = t / day_long

abbrev on_day : ℕ → ℕ
on_day t = 20000 * day_long + t

abbrev no_arrangement : ℕ → Option Arrangement
no_arrangement id = none

abbrev spa_day : CatalogueService
spa_day = record {
  base_price = some 40000;
  duration_minutes = some 90;
  is_packaged_services = true;
  included_services =
      record { id = 5; duration_minutes = 60 } ∷ record { id = 6; duration_minutes = 30 } ∷ [];
}

abbrev massage : CatalogueService
massage = record {
  base_price = some 30000;
  duration_minutes = some 45;
  is_packaged_services = false;
  included_services = [];
}

abbrev catalogue : ℕ → Option CatalogueService
catalogue id = if id == 50 then some spa_day else some massage

abbrev part : ℕ → ServiceItem
part id = record {
  service_id = some id;
  drawn_id = 0;
  package_id = some 50;
  service_arrangement_id = none;
  base_price = none;
  base_duration = none;
  data_price = none;
  data_duration = none;
  is_packaged_services = none;
}

abbrev visit : ℕ → ℕ → ℕ → SessionItem
visit id therapist hours = record {
  drawn_id = 100 + id;
  therapist_id = therapist;
  secondary_therapist_id = none;
  service_arrangement_id = none;
  services = part id ∷ [];
  addons = [];
  extra_minutes = pos 0;
  appointment_time = some (some (hours * 3600000000));
  appointment_start = none;
}

-- The later session is given first.
abbrev visits : List SessionItem
visits = visit 6 9 11 ∷ visit 5 8 9 ∷ []

abbrev services_of : List (List ServiceItem)
services_of = map (λ item. item.services) visits

abbrev spa_info : PackageInfo
spa_info = package_info (package_refs 50 0 services_of) spa_day

abbrev context : Dict PackageInfo
context = (50, spa_info) ∷ []

abbrev component : ℕ → ℕ → ℕ → ServiceEntry
component id minutes price = record {
  service_id = id;
  duration_minutes = minutes;
  position = 0;
  session_id = none;
  base_price = price;
  package_id = some 50;
  is_packaged_services = false;
}

abbrev stored : ℕ → ℕ → ℕ → ℕ → ℕ → ℕ → Session
stored id position therapist hours minutes price = record {
  session_id = 100 + id;
  position = position;
  therapist_id = some therapist;
  secondary_therapist_id = none;
  services = component id minutes price ∷ [];
  addons = [];
  extra_minutes = 0;
  services_duration = minutes;
  addons_duration = 0;
  total_session_duration = minutes;
  services_price = price;
  addons_price = 0;
  appointment_start = some (on_day (hours * 3600000000));
  appointment_end = some (on_day (hours * 3600000000) + minutes * 60000000);
}

-- The session that comes first in the request carries the price.
abbrev planned : SessionPlan
planned = plan_with (stored 5 0 8 9 60 0 ∷ stored 6 1 9 11 30 40000 ∷ [])

resolved : resolve_package_context catalogue services_of ≡ ok context
unfolding resolve_package_context check_packages check_package package_info package_refs
    session_refs wanted_packages distinct flat_map is_same_list sort_by insert_by durations_of
    first_place insert
resolved = refl

accepted : plan_sessions no_arrangement catalogue on_day date_of 20000 visits ≡ ok planned
unfolding plan_sessions resolve_package_context check_packages check_package package_info
    package_refs session_refs wanted_packages distinct flat_map is_same_list sort_by insert_by
    durations_of first_place insert lookup build_sessions build_one_session validate_consistency
    check_offered check_branches enrich_addons addons_by_id build_session number_services
    session_entries build_entry check_exclusive validate_package_exclusivity validate_sessions
    check_each check_order sort_sessions renumber
accepted = refl

known : lookup 50 context ≡ some spa_info
unfolding lookup
known = refl

resolve-IsChecked_example :
    (info : PackageInfo) × (lookup 50 context ≡ some info)
    × ((svc : CatalogueService) × (catalogue 50 ≡ some svc)
        × IsChecked svc (package_refs 50 0 services_of) info)
resolve-IsChecked_example =
    resolve-IsChecked catalogue services_of context (part 6 ∷ []) (part 6) 50 6 (Memᴰ.head refl)
      (Memᴰ.head refl) refl refl resolved

plan_sessions-price_example :
    (svc : CatalogueService) × (catalogue 50 ≡ some svc)
    × (planned.totals.services_price ≡ or_zero svc.base_price + total whole_prices planned.sessions)
    × All (λ s. All (IsOf 50) s.services) planned.sessions
    × (total (λ s. how_many is_whole s.services) planned.sessions ≤ 1)
plan_sessions-price_example =
    plan_sessions-price no_arrangement catalogue on_day date_of 20000 visits context 50 spa_info
      planned accepted resolved known

plan_sessions-calendar_example :
    (0 < length planned.sessions)
    × (length planned.sessions ≤ 5)
    × All (IsOn date_of 20000) planned.sessions
    × AllPairs IsApart planned.sessions
    × ((m : Mirror) × (planned.mirror ≡ some m) × IsMirrorOf date_of 20000 planned.sessions m)
plan_sessions-calendar_example =
    plan_sessions-calendar date_of 20000 no_arrangement catalogue on_day visits planned accepted
