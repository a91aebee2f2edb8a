-- ===== src/Booking/Sessions/Planner/Price.antt =====
-- What a planned booking of a package costs.
use ushbooknpay.Base.{
  ℕ, ◌+◌, ◌≤◌, ◌≡◌, refl, ap, sym, ◌∙◌, Option, none, some, if◌then◌else◌, List, [], ◌∷◌, arith,
  map, total, total-append, All, append-All,
}
use mathlib.Core.Path.{subst}
use ushbooknpay.Base.Dict.{Dict, lookup}
use ushbooknpay.Base.Session.{ok, ok-ok}
use ushbooknpay.Booking.Sessions.{ServiceEntry, Session, sort_sessions}
use ushbooknpay.Booking.Sessions.Validity.{accepted_lem}
use ushbooknpay.Booking.Sessions.Windows.{total-sort_sessions, All-sort_sessions}
use ushbooknpay.Booking.Sessions.Packages.{
  CatalogueService, PackageInfo, or_zero, flat_map, check_exclusive, is_whole, how_many,
  validate_package_exclusivity, resolve_package_context,
}
use ushbooknpay.Booking.Sessions.Packages.Price.{request_entries, whole_price, package_price}
use ushbooknpay.Booking.Sessions.Packages.Exclusive.{IsOf}
use ushbooknpay.Booking.Sessions.Planner.{
  SessionItem, SessionPlan, Arrangement, max_for, plan_sessions, build_sessions,
}
use ushbooknpay.Booking.Sessions.Planner.Built.{AreBuiltOf, build_sessions-AreBuiltOf}
use ushbooknpay.Booking.Sessions.Planner.Accepted.{IsPlanOf, plan_sessions-ok}

total-flat_map :
    (f : ServiceEntry → ℕ) (g : Session → List ServiceEntry) (xs : List Session)
    → total f (flat_map g xs) ≡ total (λ s. total f (g s)) xs
unfolding flat_map
total-flat_map f g [] = refl
total-flat_map f g (s ∷ xs) =
    total-append f (g s) (flat_map g xs) ∙ ap (◌+◌ (total f (g s))) (total-flat_map f g xs)

flat_map-All :
    (P : ServiceEntry → Type 0) (g : Session → List ServiceEntry) (xs : List Session)
    → All P (flat_map g xs)
    → All (λ s. All P (g s)) xs
unfolding flat_map
flat_map-All P g [] h = tt
flat_map-All P g (s ∷ xs) h =
    let split = append-All P (g s) (flat_map g xs) h in (split.0, flat_map-All P g xs split.1)

-- What the package itself, booked as a service, adds to a session.
abbrev pub whole_prices : Session → ℕ
whole_prices s = total whole_price s.services

module _ (get_arrangement : ℕ → Option Arrangement) (get_service : ℕ → Option CatalogueService)
    (at_time date : ℕ → ℕ) (day : ℕ) (items : List SessionItem) where
  -- The sums over the sessions of a plan, against those over the entries of its request.
  module _ (ctx : Dict PackageInfo) (xs : List Session) (plan : SessionPlan)
      (p : IsPlanOf date day
        (build_sessions get_arrangement get_service at_time ctx 0 items)
        ctx
        xs
        plan) where
    abbrev es : List ServiceEntry
    es = request_entries get_service ctx 0 (map (λ item. item.services) items)

    built : AreBuiltOf es xs
    built =
        build_sessions-AreBuiltOf get_arrangement get_service at_time ctx 0 items xs p.constructed

    ordered : plan.sessions ≡ sort_sessions xs
    ordered =
        let (a, b, c, same) = accepted_lem date (max_for ctx) xs plan.sessions p.validated in same

    sum_planned :
        (f : ServiceEntry → ℕ) → total (λ s. total f s.services) plan.sessions ≡ total f es
    sum_planned f =
        ap (total (λ s. total f s.services)) ordered
        ∙ (total-sort_sessions (λ s. total f s.services) xs (λ s i. refl)
            ∙ (sym (total-flat_map f (λ s. s.services) xs) ∙ ap (total f) built.entries))

    price_planned : plan.totals.services_price ≡ total (λ e. e.base_price) es
    price_planned =
        ap (λ t. t.services_price) p.totalled
        ∙ (ap (total (λ s. s.services_price)) ordered
            ∙ (total-sort_sessions (λ s. s.services_price) xs (λ s i. refl) ∙ built.price))

    planned-All : (P : ServiceEntry → Type 0) → All P es → All (λ s. All P s.services) plan.sessions
    planned-All P h = subst (All (λ s. All P s.services)) (sym ordered) (
        All-sort_sessions (λ s. All P s.services) xs (λ s i h. h)
          (flat_map-All P (λ s. s.services) xs (subst (All P) (sym built.entries) h)))

    free : check_exclusive es ≡ none
    unfolding validate_package_exclusivity
    free = subst (λ l. check_exclusive l ≡ none) built.entries p.exclusive

  -- An accepted plan with a service of a package is a booking of that package alone, and its services
  -- cost exactly the catalogue's price of the package, over all sessions and whichever way its included
  -- services are spread over them; only where the package itself is booked beside them, once at most,
  -- does that add its own price.
  pub plan_sessions-price :
      (ctx : Dict PackageInfo) (pid : ℕ) (info : PackageInfo) (plan : SessionPlan)
      → plan_sessions get_arrangement get_service at_time date day items ≡ ok plan
      → resolve_package_context get_service (map (λ item. item.services) items) ≡ ok ctx
      → lookup pid ctx ≡ some info
      → (svc : CatalogueService) × (get_service pid ≡ some svc)
        × (plan.totals.services_price ≡ or_zero svc.base_price + total whole_prices plan.sessions)
        × All (λ s. All (IsOf pid) s.services) plan.sessions
        × (total (λ s. how_many is_whole s.services) plan.sessions ≤ 1)
  plan_sessions-price ctx pid info plan h r k =
      let (c, resolved, xs, q) =
        plan_sessions-ok date day get_arrangement get_service at_time items plan h in
      let same : c ≡ ctx =
        ok-ok c ctx (resolve_package_context get_service (map (λ item. item.services) items))
          resolved r in
      let p : IsPlanOf date day (build_sessions get_arrangement get_service at_time ctx 0 items) ctx
          xs plan =
        subst
          (λ x.
            IsPlanOf date day (build_sessions get_arrangement get_service at_time x 0 items) x xs
              plan)
          same q in
      let (svc, found, price, all, one) =
        package_price get_service (map (λ item. item.services) items) ctx pid info r k
          (free ctx xs plan p) in
      (
        svc,
        found,
        omega (arith, price_planned ctx xs plan p, price, sum_planned ctx xs plan p whole_price),
        planned-All ctx xs plan p (IsOf pid) all,
        omega (arith, one, sum_planned ctx xs plan p (λ e. if is_whole e then 1 else 0)),
      )
