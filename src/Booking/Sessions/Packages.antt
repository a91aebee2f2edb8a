-- ===== src/Booking/Sessions/Packages.antt =====
-- app/booking/application/package_rules.py: the services of a package, booked across sessions, and
-- the entries that app/booking/application/multi_service.py makes of them. `get_service` is the other
-- service's catalogue, where `none` is a failed call; ids, compared as texts there, are numbers.
pub mod Coverage
pub mod Shares
pub mod Exclusive
pub mod Price
use ushbooknpay.Base.{
  ℕ, suc, ◌+◌, ◌≡◌, Bool, true, false, not, ◌&&◌, ◌||◌, Option, none, some, List, [], ◌∷◌, ◌++◌,
  map, ltb, ◌==◌, any, length, total, keep, if◌then◌else◌,
}
use ushbooknpay.Base.Dict.{Dict, lookup, insert}
use ushbooknpay.Base.Sorting.{sort_by}
use ushbooknpay.Base.Session.{Outcome, ok, err}
use ushbooknpay.Booking.Sessions.{
  ServiceEntry, Session, SessionError, package_unavailable, not_a_package, nothing_included,
  not_exactly_once, several_packages, mixed_with_package, is_empty,
}

-- A service of a request. A price or duration that is missing, or that counts as missing, is `none`;
-- `data_price` and `data_duration` are those in `service_data`, and so is the flag; `drawn_id` is what
-- the code draws where there is no id.
pub record ServiceItem : Type 0 where
  pub service_id : Option ℕ
  pub drawn_id : ℕ
  pub package_id : Option ℕ
  pub service_arrangement_id : Option ℕ
  pub base_price : Option ℕ
  pub base_duration : Option ℕ
  pub data_price : Option ℕ
  pub data_duration : Option ℕ
  pub is_packaged_services : Option Bool

pub record IncludedService : Type 0 where
  pub id : ℕ
  pub duration_minutes : ℕ

-- What the code reads of a service of the catalogue.
pub record CatalogueService : Type 0 where
  pub base_price : Option ℕ
  pub duration_minutes : Option ℕ
  pub is_packaged_services : Bool
  pub included_services : List IncludedService

-- `(si, sj, service_id)`: a service of a package in the request.
pub record PackageRef : Type 0 where
  pub session : ℕ
  pub place : ℕ
  pub service_id : ℕ

pub record PackageInfo : Type 0 where
  pub price : ℕ
  pub carrier : ℕ × ℕ
  pub durations : Dict ℕ

abbrev pub is_id : ℕ → Option ℕ → Bool
is_id i none = false
is_id i (some j) = j == i

-- `if pid and svc.service_id`, for one package
abbrev pub ref_of : ℕ → ℕ → ℕ → ServiceItem → List PackageRef
ref_of pid si sj item = elim item.service_id [
  | none ↦ []
  | some sid ↦
      if is_id pid item.package_id
      then record { session = si; place = sj; service_id = sid } ∷ []
      else []
]

-- `wanted[pid]`
unfoldable pub session_refs : ℕ → ℕ → ℕ → List ServiceItem → List PackageRef
session_refs pid si sj [] = []
session_refs pid si sj (item ∷ rest) = ref_of pid si sj item ++ session_refs pid si (suc sj) rest

unfoldable pub package_refs : ℕ → ℕ → List (List ServiceItem) → List PackageRef
unfolding session_refs
package_refs pid si [] = []
package_refs pid si (services ∷ rest) =
    session_refs pid si 0 services ++ package_refs pid (suc si) rest

abbrev pub wanted_by : ServiceItem → List ℕ
wanted_by item = elim item.package_id [
  | none ↦ []
  | some pid ↦ elim item.service_id [ none ↦ [] | some sid ↦ pid ∷ [] ]
]

unfoldable pub flat_map {ℓ κ} : {A : Type ℓ} {B : Type κ} → (A → List B) → List A → List B
flat_map f [] = []
flat_map f (x ∷ xs) = f x ++ flat_map f xs

-- The keys of `wanted`, each where it comes first.
unfoldable pub distinct : List ℕ → List ℕ
distinct [] = []
distinct (x ∷ xs) = x ∷ keep (λ y. not (y == x)) (distinct xs)

unfoldable pub wanted_packages : List (List ServiceItem) → List ℕ
unfolding flat_map distinct
wanted_packages sessions = distinct (flat_map (λ services. flat_map wanted_by services) sessions)

unfoldable pub is_same_list : List ℕ → List ℕ → Bool
is_same_list [] [] = true
is_same_list (x ∷ xs) (y ∷ ys) = x == y && is_same_list xs ys
is_same_list _ _ = false

abbrev pub sorted : List ℕ → List ℕ
sorted xs = sort_by (λ x. x) xs

abbrev pub is_earlier : ℕ × ℕ → ℕ × ℕ → Bool
is_earlier a b = ltb a.0 b.0 || (a.0 == b.0 && ltb a.1 b.1)

-- `min((r[0], r[1]) for r in refs)`, of a list that is not empty
unfoldable pub first_place : ℕ × ℕ → List PackageRef → ℕ × ℕ
first_place best [] = best
first_place best (r ∷ rest) =
    first_place (if is_earlier (r.session, r.place) best then (r.session, r.place) else best) rest

abbrev pub carrier_of : List PackageRef → ℕ × ℕ
carrier_of [] = (0, 0)
carrier_of (r ∷ rest) = first_place (r.session, r.place) rest

abbrev pub or_zero : Option ℕ → ℕ
or_zero none = 0
or_zero (some n) = n

abbrev pub included_ids : CatalogueService → List ℕ
included_ids svc = map (λ c. c.id) svc.included_services

abbrev pub requested_ids : List PackageRef → List ℕ
requested_ids refs = map (λ r. r.service_id) refs

-- `{str(c.get("id")): ...}`: the last of equal ids counts.
unfoldable pub durations_of : Dict ℕ → List IncludedService → Dict ℕ
durations_of d [] = d
durations_of d (c ∷ rest) = durations_of (insert c.id c.duration_minutes d) rest

unfoldable pub package_info : List PackageRef → CatalogueService → PackageInfo
unfolding durations_of
package_info refs svc = record {
  price = or_zero svc.base_price;
  carrier = carrier_of refs;
  durations = durations_of [] svc.included_services;
}

unfoldable pub check_package :
    ℕ → List PackageRef → Option CatalogueService → Outcome SessionError PackageInfo
unfolding is_same_list package_info
check_package pid refs none = err (package_unavailable pid)
check_package pid refs (some svc) =
    if not svc.is_packaged_services
    then err (not_a_package pid)
    else if is_empty svc.included_services
    then err (nothing_included pid)
    else if is_same_list (sorted (requested_ids refs)) (sorted (included_ids svc))
    then ok (package_info refs svc)
    else err (not_exactly_once pid)

abbrev pub and_package :
    ℕ
    → Outcome SessionError PackageInfo
    → Outcome SessionError (Dict PackageInfo)
    → Outcome SessionError (Dict PackageInfo)
and_package pid (err e) rest = err e
and_package pid (ok info) (err e) = err e
and_package pid (ok info) (ok ctx) = ok ((pid, info) ∷ ctx)

abbrev pub or_else {ℓ} : {A : Type ℓ} → Option A → A → A
or_else none d = d
or_else (some a) d = a

abbrev pub unknown_service : CatalogueService
unknown_service = record {
  base_price = none;
  duration_minutes = none;
  is_packaged_services = false;
  included_services = [];
}

module _ (get_service : ℕ → Option CatalogueService) where
  unfoldable pub check_packages :
      List (List ServiceItem) → List ℕ → Outcome SessionError (Dict PackageInfo)
  check_packages sessions [] = ok []
  check_packages sessions (pid ∷ pids) =
      and_package pid (check_package pid (package_refs pid 0 sessions) (get_service pid))
        (check_packages sessions pids)

  unfoldable pub resolve_package_context :
      List (List ServiceItem) → Outcome SessionError (Dict PackageInfo)
  unfolding check_packages
  resolve_package_context sessions = check_packages sessions (wanted_packages sessions)

  -- `db_service`, where a failed call gives a record without fields.
  abbrev pub fetched : Option ℕ → CatalogueService
  fetched none = unknown_service
  fetched (some sid) = or_else (get_service sid) unknown_service

  -- `_build_one` and `build_service_entry`: what the client sends goes before the catalogue.
  unfoldable pub build_entry : ℕ → ServiceItem → ServiceEntry
  build_entry position item =
      let db = fetched item.service_id in
      record {
        service_id = or_else item.service_id item.drawn_id;
        duration_minutes =
            or_else item.base_duration
              (or_else db.duration_minutes (or_else item.data_duration 60));
        position = position;
        session_id = none;
        base_price = or_else item.base_price (or_else db.base_price (or_zero item.data_price));
        package_id = none;
        is_packaged_services = or_else item.is_packaged_services db.is_packaged_services;
      }

-- `if duration: entry["duration_minutes"] = int(duration)`
abbrev pub given_duration : ℕ → Option ℕ → ℕ
given_duration own none = own
given_duration own (some n) = if n == 0 then own else n

abbrev pub is_place : ℕ × ℕ → ℕ → ℕ → Bool
is_place c si j = c.0 == si && c.1 == j

-- One entry of `apply_package_context`.
abbrev pub stamp_found : ℕ → ℕ → ℕ → Option PackageInfo → ServiceEntry → ServiceEntry
stamp_found pid si j none e = e
stamp_found pid si j (some info) e = record e {
  package_id = some pid;
  duration_minutes = given_duration e.duration_minutes (lookup e.service_id info.durations);
  base_price = if is_place info.carrier si j then info.price else 0;
}

abbrev pub stamp_as : Dict PackageInfo → ℕ → ℕ → Option ℕ → ServiceEntry → ServiceEntry
stamp_as ctx si j none e = e
stamp_as ctx si j (some pid) e = stamp_found pid si j (lookup pid ctx) e

-- The entries of one session, with what `apply_package_context` writes into them.
unfoldable pub session_entries :
    (ℕ → Option CatalogueService) → Dict PackageInfo → ℕ → ℕ → List ServiceItem → List ServiceEntry
unfolding build_entry
session_entries get_service ctx si j [] = []
session_entries get_service ctx si j (item ∷ rest) =
    stamp_as ctx si j item.package_id (build_entry get_service j item)
    ∷ session_entries get_service ctx si (suc j) rest

-- A component of a package, a whole package, or a plain service.
abbrev pub is_whole : ServiceEntry → Bool
is_whole e = elim e.package_id [ some pid ↦ false | none ↦ e.is_packaged_services ]

abbrev pub is_plain : ServiceEntry → Bool
is_plain e = elim e.package_id [ some pid ↦ false | none ↦ not e.is_packaged_services ]

abbrev pub package_of : ServiceEntry → List ℕ
package_of e = elim e.package_id [
  | some pid ↦ pid ∷ []
  | none ↦ if e.is_packaged_services then e.service_id ∷ [] else []
]

abbrev pub how_many : (ServiceEntry → Bool) → List ServiceEntry → ℕ
how_many p es = total (λ e. if p e then 1 else 0) es

unfoldable pub check_exclusive : List ServiceEntry → Option SessionError
unfolding flat_map distinct
check_exclusive es =
    let package_ids = distinct (flat_map package_of es) in
    if is_empty package_ids
    then none
    else if ltb 1 (length package_ids) || ltb 1 (how_many is_whole es)
    then some several_packages
    else if ltb 0 (how_many is_plain es)
    then some mixed_with_package
    else none

unfoldable pub validate_package_exclusivity : List Session → Option SessionError
unfolding check_exclusive
validate_package_exclusivity sessions = check_exclusive (flat_map (λ s. s.services) sessions)
