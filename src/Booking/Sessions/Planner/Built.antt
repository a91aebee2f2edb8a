-- ===== src/Booking/Sessions/Planner/Built.antt =====
-- The sessions that `_build_one_session` makes of a request, against its entries.
use ushbooknpay.Base.{
  ℕ, suc, ◌≡◌, refl, ap, ◌∙◌, Option, none, some, List, [], ◌∷◌, ◌++◌, arith, map, total,
  total-append, All,
}
use mathlib.Core.Path.{subst}
use ushbooknpay.Base.Dict.{Dict, lookup}
use ushbooknpay.Base.Int.{ℤ}
use ushbooknpay.Base.Session.{Outcome, ok, err, err-ok, ok-ok}
use ushbooknpay.Booking.Sessions.{
  ServiceEntry, Addon, Session, SessionError, no_service, number_services, build_session,
}
use ushbooknpay.Booking.Sessions.Windows.{IsTimed}
use ushbooknpay.Booking.Sessions.Packages.{
  ServiceItem, CatalogueService, PackageInfo, flat_map, build_entry, stamp_as, stamp_found,
  session_entries,
}
use ushbooknpay.Booking.Sessions.Packages.Price.{request_entries}
use ushbooknpay.Booking.Sessions.Planner.{
  SessionItem, Arrangement, and_session, validate_consistency, start_from, enriched, build_from,
  build_one_session, build_sessions,
}

-- A session that carries these entries, at their price, and is as long as its minutes say.
pub record IsBuiltOf (es : List ServiceEntry) (s : Session) : Type 0 where
  pub entries : s.services ≡ es
  pub price : s.services_price ≡ total (λ e. e.base_price) es
  pub timed : IsTimed s

numbered-found :
    (q si j : ℕ) (r : Option PackageInfo) (get_service : ℕ → Option CatalogueService)
    (item : ServiceItem)
    → record (stamp_found q si j r (build_entry get_service j item)) { position = j }
      ≡ stamp_found q si j r (build_entry get_service j item)
unfolding build_entry
numbered-found q si j none get_service item = refl
numbered-found q si j (some i) get_service item = refl

numbered-entry :
    (ctx : Dict PackageInfo) (si j : ℕ) (o : Option ℕ) (get_service : ℕ → Option CatalogueService)
    (item : ServiceItem)
    → record (stamp_as ctx si j o (build_entry get_service j item)) { position = j }
      ≡ stamp_as ctx si j o (build_entry get_service j item)
unfolding build_entry
numbered-entry ctx si j none get_service item = refl
numbered-entry ctx si j (some q) get_service item =
    numbered-found q si j (lookup q ctx) get_service item

-- The entries are numbered already.
number_services-entries :
    (get_service : ℕ → Option CatalogueService) (ctx : Dict PackageInfo) (si j : ℕ)
    (items : List ServiceItem)
    → number_services j (session_entries get_service ctx si j items)
      ≡ session_entries get_service ctx si j items
unfolding number_services session_entries
number_services-entries get_service ctx si j [] = refl
number_services-entries get_service ctx si j (item ∷ rest) =
    let first = numbered-entry ctx si j item.package_id get_service item in
    let later = number_services-entries get_service ctx si (suc j) rest in λ i. first i ∷ later i

build_session-IsBuiltOf :
    (position start : ℕ) (therapist secondary : Option ℕ) (es : List ServiceEntry)
    (addons : List Addon) (extra : ℤ) (id : ℕ) (s : Session)
    → build_session position start therapist secondary es addons extra id ≡ ok s
    → number_services 0 es ≡ es
    → IsBuiltOf es s
unfolding build_session
build_session-IsBuiltOf position start therapist secondary [] addons extra id s h n =
    absurd (err-ok no_service s (err no_service) refl h)
build_session-IsBuiltOf position start therapist secondary (e ∷ es) addons extra id s h n =
    let result = build_session position start therapist secondary (e ∷ es) addons extra id in
    subst (IsBuiltOf (e ∷ es)) (ok-ok _ s result refl h)
      (record { entries = n; price = refl; timed = refl })

-- What the sessions of a request have to do with its entries.
pub record AreBuiltOf (es : List ServiceEntry) (xs : List Session) : Type 0 where
  pub entries : flat_map (λ s. s.services) xs ≡ es
  pub price : total (λ s. s.services_price) xs ≡ total (λ e. e.base_price) es
  pub timed : All IsTimed xs

next-AreBuiltOf :
    (es later : List ServiceEntry) (s : Session) (xs : List Session)
    → IsBuiltOf es s
    → AreBuiltOf later xs
    → AreBuiltOf (es ++ later) (s ∷ xs)
unfolding flat_map
next-AreBuiltOf es later s xs h k = record {
  entries = ap (λ l. l ++ flat_map (λ x. x.services) xs) h.entries ∙ ap (◌++◌ es) k.entries;
  price = omega (arith, h.price, k.price, total-append (λ e. e.base_price) es later);
  timed = (h.timed, k.timed);
}

and_session-ok :
    (r : Outcome SessionError Session) (rest : Outcome SessionError (List Session))
    (xs : List Session)
    → and_session r rest ≡ ok xs
    → (s : Session) × (ss : List Session) × (r ≡ ok s) × (rest ≡ ok ss) × (s ∷ ss ≡ xs)
and_session-ok (err e) rest xs h = absurd (cc)
and_session-ok (ok s) (err e) xs h = absurd (cc)
and_session-ok (ok s) (ok ss) xs h = (s, ss, refl, refl, cc)

module _ (get_arrangement : ℕ → Option Arrangement) (get_service : ℕ → Option CatalogueService)
    (at_time : ℕ → ℕ) where
  build_from-IsBuiltOf :
      (ctx : Dict PackageInfo) (si : ℕ) (item : SessionItem) (c : Option SessionError)
      (start : Outcome SessionError ℕ) (s : Session)
      → build_from get_arrangement get_service at_time ctx si item c start ≡ ok s
      → IsBuiltOf (session_entries get_service ctx si 0 item.services) s
  build_from-IsBuiltOf ctx si item (some e) start s h = absurd (cc)
  build_from-IsBuiltOf ctx si item none (err e) s h = absurd (cc)
  build_from-IsBuiltOf ctx si item none (ok start) s h =
      build_session-IsBuiltOf si start (some item.therapist_id) item.secondary_therapist_id
        (session_entries get_service ctx si 0 item.services) (enriched get_arrangement item)
        item.extra_minutes item.drawn_id s h
        (number_services-entries get_service ctx si 0 item.services)

  build_one_session-IsBuiltOf :
      (ctx : Dict PackageInfo) (si : ℕ) (item : SessionItem) (s : Session)
      → build_one_session get_arrangement get_service at_time ctx si item ≡ ok s
      → IsBuiltOf (session_entries get_service ctx si 0 item.services) s
  unfolding build_one_session
  build_one_session-IsBuiltOf ctx si item s h =
      build_from-IsBuiltOf ctx si item
        (validate_consistency get_arrangement item.service_arrangement_id item.services)
        (start_from at_time item.appointment_time item.appointment_start) s h

  pub build_sessions-AreBuiltOf :
      (ctx : Dict PackageInfo) (si : ℕ) (items : List SessionItem) (xs : List Session)
      → build_sessions get_arrangement get_service at_time ctx si items ≡ ok xs
      → AreBuiltOf (request_entries get_service ctx si (map (λ item. item.services) items)) xs
  unfolding build_sessions request_entries flat_map
  build_sessions-AreBuiltOf ctx si [] xs h =
      let no_sessions : [] ≡ xs = cc in
      subst (AreBuiltOf []) no_sessions (record { entries = refl; price = refl; timed = tt })
  build_sessions-AreBuiltOf ctx si (item ∷ rest) xs h =
      let (s, ss, one, more, same) =
        and_session-ok (build_one_session get_arrangement get_service at_time ctx si item)
          (build_sessions get_arrangement get_service at_time ctx (suc si) rest) xs h in
      subst
        (AreBuiltOf
          (request_entries get_service ctx si (map (λ item. item.services) (item ∷ rest))))
        same
        (next-AreBuiltOf (session_entries get_service ctx si 0 item.services)
          (request_entries get_service ctx (suc si) (map (λ item. item.services) rest)) s ss
          (build_one_session-IsBuiltOf ctx si item s one)
          (build_sessions-AreBuiltOf ctx (suc si) rest ss more))
