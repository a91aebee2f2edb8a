-- ===== src/Booking/Sessions/Packages/Price.antt =====
-- What a package costs, over the entries of all sessions.
use ushbooknpay.Base.{
  ℕ, suc, ◌+◌, ◌≤◌, ◌≡◌, inl, inr, refl, ap, sym, ◌∙◌, Bool, true, false, Option, none, some, List,
  [], ◌∷◌, ◌++◌, arith, ◌==◌, any, any-append, total, total-append, All, append-All, map,
  Bool-cases, if◌then◌else◌,
}
use mathlib.Core.Path.{subst}
use ushbooknpay.Base.Dict.{Dict, lookup}
use ushbooknpay.Base.Session.{ok}
use ushbooknpay.Booking.Sessions.{ServiceEntry, is_empty}
use ushbooknpay.Booking.Sessions.Packages.{
  ServiceItem, CatalogueService, PackageRef, PackageInfo, IncludedService, is_id, is_place, ref_of,
  session_refs, package_refs, build_entry, stamp_as, stamp_found, session_entries, is_whole,
  how_many, check_exclusive, or_zero, resolve_package_context,
}
use ushbooknpay.Booking.Sessions.Packages.Coverage.{IsChecked, count, context-IsChecked}
use ushbooknpay.Booking.Sessions.Packages.Shares.{
  share, session_share, shares, shares-once, carrier_of-any, is_at,
}
use ushbooknpay.Booking.Sessions.Packages.Exclusive.{IsOf, is_component, exclusive}

-- The entries of a request, session after session.
unfoldable pub request_entries :
    (ℕ → Option CatalogueService)
    → Dict PackageInfo
    → ℕ
    → List (List ServiceItem)
    → List ServiceEntry
unfolding session_entries
request_entries get_service ctx si [] = []
request_entries get_service ctx si (services ∷ rest) =
    session_entries get_service ctx si 0 services ++ request_entries get_service ctx (suc si) rest

-- What the package costs where it is booked as a service of its own.
abbrev pub whole_price : ServiceEntry → ℕ
whole_price e = if is_whole e then e.base_price else 0

module _ (get_service : ℕ → Option CatalogueService) (ctx : Dict PackageInfo) (pid : ℕ)
    (info : PackageInfo) (known : lookup pid ctx ≡ some info) where
  found_price :
      (si j q : ℕ) (item : ServiceItem) (e : ServiceEntry) (r : Option PackageInfo)
      → item.package_id ≡ some q
      → lookup q ctx ≡ r
      → e.package_id ≡ none
      → IsOf pid (stamp_found q si j r e)
      → (stamp_found q si j r e).base_price
        ≡ share pid info.carrier info.price si j item + whole_price (stamp_found q si j r e)
  found_price si j q item e none s l n (inl h) = absurd (cc)
  found_price si j q item e none s l n (inr h) = elim (Bool-cases (q == pid)) [
    | inl t ↦
        let same : q ≡ pid = ground (arith, t) in
        let missing : lookup pid ctx ≡ none = subst (λ x. lookup x ctx ≡ none) same l in absurd (cc)
    | inr f ↦ rw (s, f, h.0, h.1) (omega arith)
  ]
  found_price si j q item e (some i) s l n (inl h) =
      let same : q ≡ pid = cc in
      let there : lookup pid ctx ≡ some i = subst (λ x. lookup x ctx ≡ some i) same l in
      let one : i ≡ info = cc in
      subst
        (λ (x : PackageInfo).
          (if is_place x.carrier si j then x.price else 0)
          ≡ share pid info.carrier info.price si j item + 0)
        (sym one) (ground (arith, s, same))
  found_price si j q item e (some i) s l n (inr h) = absurd (cc)

  stamped_price :
      (si j : ℕ) (item : ServiceItem) (e : ServiceEntry) (o : Option ℕ)
      → item.package_id ≡ o
      → e.package_id ≡ none
      → IsOf pid (stamp_as ctx si j o e)
      → (stamp_as ctx si j o e).base_price
        ≡ share pid info.carrier info.price si j item + whole_price (stamp_as ctx si j o e)
  stamped_price si j item e none s n (inl h) = absurd (cc)
  stamped_price si j item e none s n (inr h) = rw (s, h.0, h.1) (omega arith)
  stamped_price si j item e (some q) s n h = found_price si j q item e (lookup q ctx) s refl n h

  session_price :
      (si j : ℕ) (items : List ServiceItem)
      → All (IsOf pid) (session_entries get_service ctx si j items)
      → total (λ e. e.base_price) (session_entries get_service ctx si j items)
        ≡ session_share pid info.carrier info.price si j items
          + total whole_price (session_entries get_service ctx si j items)
  unfolding session_entries session_share build_entry
  session_price si j [] h = refl
  session_price si j (item ∷ rest) h = omega (
    arith,
    session_price si (suc j) rest h.1,
    stamped_price si j item (build_entry get_service j item) item.package_id refl refl h.0,
  )

  request_price :
      (si : ℕ) (sessions : List (List ServiceItem))
      → All (IsOf pid) (request_entries get_service ctx si sessions)
      → total (λ e. e.base_price) (request_entries get_service ctx si sessions)
        ≡ shares pid info.carrier info.price si sessions
          + total whole_price (request_entries get_service ctx si sessions)
  unfolding request_entries shares
  request_price si [] h = refl
  request_price si (services ∷ rest) h =
      let here = session_entries get_service ctx si 0 services in
      let later = request_entries get_service ctx (suc si) rest in
      let split = append-All (IsOf pid) here later h in
      omega (
        arith,
        session_price si 0 services split.0,
        request_price (suc si) rest split.1,
        total-append (λ e. e.base_price) here later,
        total-append whole_price here later,
      )

  -- A service of the package in the request becomes a component.
  stamped_component :
      (si j : ℕ) (item : ServiceItem) (e : ServiceEntry) (o : Option ℕ)
      → is_id pid o ≡ true
      → is_component pid (stamp_as ctx si j o e) ≡ true
  stamped_component si j item e none h = cc
  stamped_component si j item e (some q) h =
      let same : q ≡ pid = ground (arith, h) in
      let there : lookup q ctx ≡ some info =
        subst (λ x. lookup x ctx ≡ some info) (sym same) known in
      rw there h

  component_of_session :
      (p : PackageRef → Bool) (si j : ℕ) (items : List ServiceItem)
      → any p (session_refs pid si j items) ≡ true
      → any (is_component pid) (session_entries get_service ctx si j items) ≡ true
  unfolding session_refs session_entries
  component_of_session p si j [] h = cc
  component_of_session p si j (item ∷ rest) h =
      let split =
        sym (any-append p (ref_of pid si j item) (session_refs pid si (suc j) rest)) ∙ h in
      elim (Bool-cases (is_id pid item.package_id)) [
        | inl t ↦
            let here =
              stamped_component si j item (build_entry get_service j item) item.package_id t in
            ground (arith, here)
        | inr f ↦
            let nothing : any p (ref_of pid si j item) ≡ false = ground (arith, f) in
            let later : any p (session_refs pid si (suc j) rest) ≡ true =
              ground (arith, split, nothing) in
            ground (arith, component_of_session p si (suc j) rest later)
      ]

  component_of_request :
      (p : PackageRef → Bool) (si : ℕ) (sessions : List (List ServiceItem))
      → any p (package_refs pid si sessions) ≡ true
      → any (is_component pid) (request_entries get_service ctx si sessions) ≡ true
  unfolding package_refs request_entries
  component_of_request p si [] h = cc
  component_of_request p si (services ∷ rest) h =
      let split =
        sym (any-append p (session_refs pid si 0 services) (package_refs pid (suc si) rest)) ∙ h in
      any-append (is_component pid) (session_entries get_service ctx si 0 services)
        (request_entries get_service ctx (suc si) rest)
      ∙ ground
          (arith, split, component_of_session p si 0 services, component_of_request p (suc si) rest)

not_counted :
    (is : List IncludedService)
    → is_empty is ≡ false
    → ¬ ((id : ℕ) → 0 ≡ count id (map (λ c. c.id) is))
not_counted [] h k = cc
not_counted (c ∷ is) h k = absurd (ground (arith, k c.id))

-- A package that includes something has its carrier among the services requested.
carried_any :
    (svc : CatalogueService) (refs : List PackageRef) (info : PackageInfo)
    → IsChecked svc refs info
    → any (is_at info.carrier) refs ≡ true
carried_any svc [] info h = absurd (not_counted svc.included_services h.filled h.once)
carried_any svc (r ∷ refs) info h =
    subst (λ c. any (is_at c) (r ∷ refs) ≡ true) (sym h.carried) (carrier_of-any r refs)

module _ (get_service : ℕ → Option CatalogueService) (sessions : List (List ServiceItem))
    (ctx : Dict PackageInfo) where
  -- Where the packages of a request are accepted and its entries are let through, a package among them
  -- is the only one: its components cost together exactly the catalogue's price, charged once, and all
  -- entries are components of it, but for the package itself, once at most, at its own price.
  pub package_price :
      (pid : ℕ) (info : PackageInfo)
      → resolve_package_context get_service sessions ≡ ok ctx
      → lookup pid ctx ≡ some info
      → let es = request_entries get_service ctx 0 sessions in
        check_exclusive es ≡ none
        → (svc : CatalogueService) × (get_service pid ≡ some svc)
          × (total (λ e. e.base_price) es ≡ or_zero svc.base_price + total whole_price es)
          × All (IsOf pid) es
          × (how_many is_whole es ≤ 1)
  package_price pid info h k free =
      let (svc, found, checked) = context-IsChecked get_service sessions ctx pid info h k in
      let es = request_entries get_service ctx 0 sessions in
      let at_carrier = carried_any svc (package_refs pid 0 sessions) info checked in
      let (all, one) = exclusive pid es free (
        component_of_request get_service ctx pid info k (is_at info.carrier) 0 sessions
          at_carrier) in
      let once = shares-once pid info.carrier info.price 0 sessions at_carrier in
      (
        svc,
        found,
        request_price get_service ctx pid info k 0 sessions all
            ∙ ap (λ n. n + total whole_price es) (once ∙ checked.priced),
        all,
        one,
      )
