-- ===== src/Booking/Sessions/Packages/Coverage.antt =====
-- What is known of the packages of a request that app/booking/application/package_rules.py accepts.
use ushbooknpay.Base.{
  ℕ, ◌≡◌, refl, ap, sym, ◌∙◌, inl, inr, true, false, Option, none, some, List, [], ◌∷◌, arith, ◌==◌,
  total, Bool, Bool-cases, any, any-append, keep, not, if◌then◌else◌,
}
use mathlib.Core.Path.{subst}
use mathlib.Core.List.{Memᴰ}
use ushbooknpay.Base.Dict.{Dict, lookup}
use ushbooknpay.Base.Sorting.{total-sort_by}
use ushbooknpay.Base.Session.{Outcome, ok, err, err-ok, ok-ok}
use ushbooknpay.Booking.Sessions.{
  SessionError, not_a_package, nothing_included, not_exactly_once, is_empty,
}
use ushbooknpay.Booking.Sessions.Packages.{
  ServiceItem, CatalogueService, PackageRef, PackageInfo, is_same_list, sorted, included_ids,
  requested_ids, package_refs, check_package, package_info, and_package, check_packages,
  resolve_package_context, carrier_of, or_zero, wanted_packages, wanted_by, flat_map, distinct,
}

-- How often an id is in a list.
abbrev pub count : ℕ → List ℕ → ℕ
count id xs = total (λ x. if x == id then 1 else 0) xs

is_same_list_eq : (xs ys : List ℕ) → is_same_list xs ys ≡ true → xs ≡ ys
unfolding is_same_list
is_same_list_eq [] [] h = refl
is_same_list_eq [] (y ∷ ys) h = cc
is_same_list_eq (x ∷ xs) [] h = cc
is_same_list_eq (x ∷ xs) (y ∷ ys) h = elim (Bool-cases (x == y)) [
  | inl e ↦
      let rest : is_same_list xs ys ≡ true = rw e at h in
      let same : x ≡ y = ground (arith, e) in cc (same, is_same_list_eq xs ys rest)
  | inr e ↦ let no : false ≡ true = rw e at h in cc
]

-- What a package that was checked is known to be.
pub record IsChecked (svc : CatalogueService) (refs : List PackageRef) (info : PackageInfo)
    : Type 0 where
  pub packaged : svc.is_packaged_services ≡ true
  pub once : (id : ℕ) → count id (requested_ids refs) ≡ count id (included_ids svc)
  pub filled : is_empty svc.included_services ≡ false
  pub priced : info.price ≡ or_zero svc.base_price
  pub carried : info.carrier ≡ carrier_of refs

same_counts :
    (xs ys : List ℕ)
    → is_same_list (sorted xs) (sorted ys) ≡ true
    → (id : ℕ) → count id xs ≡ count id ys
same_counts xs ys h id =
    let f = λ (x : ℕ). if x == id then 1 else 0 in
    sym (total-sort_by (λ x. x) f xs)
    ∙ (ap (total f) (is_same_list_eq (sorted xs) (sorted ys) h) ∙ total-sort_by (λ x. x) f ys)

pub check_package-IsChecked :
    (pid : ℕ) (refs : List PackageRef) (r : Option CatalogueService) (info : PackageInfo)
    → check_package pid refs r ≡ ok info
    → (svc : CatalogueService) × (r ≡ some svc) × IsChecked svc refs info
unfolding check_package package_info
check_package-IsChecked pid refs none info h = absurd (cc)
check_package-IsChecked pid refs (some svc) info h = elim (Bool-cases svc.is_packaged_services) [
  | inr e ↦
      absurd (err-ok (not_a_package pid) info (check_package pid refs (some svc)) (rw e refl) h)
  | inl p ↦ elim (Bool-cases (is_empty svc.included_services)) [
    | inl e ↦
        absurd (
          err-ok (nothing_included pid) info (check_package pid refs (some svc)) (rw (p, e) refl) h)
    | inr f ↦
        elim (Bool-cases (is_same_list (sorted (requested_ids refs)) (sorted (included_ids svc)))) [
          | inr e ↦ absurd (
              err-ok (not_exactly_once pid) info (check_package pid refs (some svc))
                (rw (p, f, e) refl) h)
          | inl s ↦
              let same =
                ok-ok info (package_info refs svc) (check_package pid refs (some svc)) h
                  (rw (p, f, s) refl) in
              (
                svc,
                refl,
                record {
                  packaged = p;
                  once = same_counts (requested_ids refs) (included_ids svc) s;
                  filled = f;
                  priced = ap (λ (i : PackageInfo). i.price) same;
                  carried = ap (λ (i : PackageInfo). i.carrier) same;
                },
              )
        ]
  ]
]

and_package-ok :
    (p : ℕ) (r : Outcome SessionError PackageInfo) (rest : Outcome SessionError (Dict PackageInfo))
    (ctx : Dict PackageInfo)
    → and_package p r rest ≡ ok ctx
    → (info : PackageInfo) × (later : Dict PackageInfo) × (r ≡ ok info)
      × (rest ≡ ok later)
      × (ctx ≡ (p, info) ∷ later)
and_package-ok p (err e) rest ctx h = absurd (cc)
and_package-ok p (ok info) (err e) ctx h = absurd (cc)
and_package-ok p (ok info) (ok later) ctx h = (info, later, refl, refl, cc)

flat_map-any :
    {A : Type 0} (p : ℕ → Bool) (f : A → List ℕ) (xs : List A) (x : A)
    → Memᴰ x xs
    → any p (f x) ≡ true
    → any p (flat_map f xs) ≡ true
unfolding flat_map
flat_map-any p f [] x m h = elim m [ ]
flat_map-any p f (y ∷ xs) x (Memᴰ.head e) h =
    let first : any p (f y) ≡ true = subst (λ z. any p (f z) ≡ true) e h in
    rw (any-append p (f y) (flat_map f xs), first) refl
flat_map-any p f (y ∷ xs) x (Memᴰ.tail m) h =
    let later = flat_map-any p f xs x m h in
    rw (any-append p (f y) (flat_map f xs), later) (ground arith)

keep-any :
    (pid x : ℕ) (xs : List ℕ)
    → (x == pid) ≡ false
    → any (λ y. y == pid) xs ≡ true
    → any (λ y. y == pid) (keep (λ y. not (y == x)) xs) ≡ true
keep-any pid x [] other h = absurd (cc)
keep-any pid x (y ∷ xs) other h = elim (Bool-cases (y == pid)) [
  | inl e ↦ let kept : (y == x) ≡ false = ground (arith, e, other) in rw (kept, e) refl
  | inr e ↦
      let rest = keep-any pid x xs other (rw e at h) in
      elim (Bool-cases (y == x)) [ inl f ↦ rw f rest | inr f ↦ rw (f, e) rest ]
]

distinct-any :
    (pid : ℕ) (xs : List ℕ)
    → any (λ y. y == pid) xs ≡ true
    → any (λ y. y == pid) (distinct xs) ≡ true
unfolding distinct
distinct-any pid [] h = h
distinct-any pid (x ∷ xs) h = elim (Bool-cases (x == pid)) [
  | inl e ↦ rw e refl
  | inr e ↦ rw e (keep-any pid x (distinct xs) e (distinct-any pid xs (rw e at h)))
]

-- A package that a service names is wanted.
wanted :
    (sessions : List (List ServiceItem)) (services : List ServiceItem) (item : ServiceItem)
    (pid sid : ℕ)
    → Memᴰ services sessions
    → Memᴰ item services
    → item.package_id ≡ some pid
    → item.service_id ≡ some sid
    → any (λ y. y == pid) (wanted_packages sessions) ≡ true
unfolding wanted_packages
wanted sessions services item pid sid m n named served =
    let is_pid = λ (y : ℕ). y == pid in
    let own : any is_pid (wanted_by item) ≡ true = rw (named, served) (ground arith) in
    distinct-any pid (flat_map (λ s. flat_map wanted_by s) sessions) (
      flat_map-any is_pid (λ s. flat_map wanted_by s) sessions services m
        (flat_map-any is_pid wanted_by services item n own))

module _ (get_service : ℕ → Option CatalogueService) (sessions : List (List ServiceItem)) where
  check_packages-lookup :
      (pids : List ℕ) (ctx : Dict PackageInfo) (pid : ℕ) (info : PackageInfo)
      → check_packages get_service sessions pids ≡ ok ctx
      → lookup pid ctx ≡ some info
      → check_package pid (package_refs pid 0 sessions) (get_service pid) ≡ ok info
  unfolding check_packages lookup
  check_packages-lookup [] ctx pid info h k =
      let empty : ctx ≡ [] = cc in
      let no : lookup pid [] ≡ some info = subst (λ c. lookup pid c ≡ some info) empty k in
      absurd (cc)
  check_packages-lookup (p ∷ pids) ctx pid info h k =
      let (first, later, one, rest, whole) =
        and_package-ok p (check_package p (package_refs p 0 sessions) (get_service p))
          (check_packages get_service sessions pids) ctx h in
      let found : lookup pid ((p, first) ∷ later) ≡ some info =
        subst (λ c. lookup pid c ≡ some info) whole k in
      elim (Bool-cases (p == pid)) [
        | inl e ↦
            let here : some first ≡ some info = rw e at found in
            let same : p ≡ pid = ground (arith, e) in
            subst (λ q. check_package q (package_refs q 0 sessions) (get_service q) ≡ ok info) same
              (one ∙ ap ok (cc))
        | inr e ↦
            let there : lookup pid later ≡ some info = rw e at found in
            check_packages-lookup pids later pid info rest there
      ]

  pub context-IsChecked :
      (ctx : Dict PackageInfo) (pid : ℕ) (info : PackageInfo)
      → resolve_package_context get_service sessions ≡ ok ctx
      → lookup pid ctx ≡ some info
      → (svc : CatalogueService) × (get_service pid ≡ some svc)
        × IsChecked svc (package_refs pid 0 sessions) info
  unfolding resolve_package_context
  context-IsChecked ctx pid info h k =
      check_package-IsChecked pid (package_refs pid 0 sessions) (get_service pid) info
        (check_packages-lookup (wanted_packages sessions) ctx pid info h k)

  check_packages-found :
      (pids : List ℕ) (ctx : Dict PackageInfo) (pid : ℕ)
      → any (λ x. x == pid) pids ≡ true
      → check_packages get_service sessions pids ≡ ok ctx
      → (info : PackageInfo) × (lookup pid ctx ≡ some info)
  unfolding check_packages lookup
  check_packages-found [] ctx pid k h = absurd (cc)
  check_packages-found (p ∷ pids) ctx pid k h =
      let (first, later, one, rest, whole) =
        and_package-ok p (check_package p (package_refs p 0 sessions) (get_service p))
          (check_packages get_service sessions pids) ctx h in
      elim (Bool-cases (p == pid)) [
        | inl e ↦ (first, ap (lookup pid) whole ∙ rw e refl)
        | inr e ↦
            let (info, found) = check_packages-found pids later pid (rw e at k) rest in
            (info, ap (lookup pid) whole ∙ rw e found)
      ]

  -- Where a request is accepted, every package that one of its services names is a package of the
  -- catalogue that includes something, has each of its included services requested as often as it
  -- includes it, and is charged at the catalogue's price.
  pub resolve-IsChecked :
      (ctx : Dict PackageInfo) (services : List ServiceItem) (item : ServiceItem) (pid sid : ℕ)
      → Memᴰ services sessions
      → Memᴰ item services
      → item.package_id ≡ some pid
      → item.service_id ≡ some sid
      → resolve_package_context get_service sessions ≡ ok ctx
      → (info : PackageInfo) × (lookup pid ctx ≡ some info)
        × ((svc : CatalogueService) × (get_service pid ≡ some svc)
            × IsChecked svc (package_refs pid 0 sessions) info)
  unfolding resolve_package_context
  resolve-IsChecked ctx services item pid sid m n named served h =
      let (info, found) =
        check_packages-found (wanted_packages sessions) ctx pid
          (wanted sessions services item pid sid m n named served) h in
      (info, found, context-IsChecked ctx pid info h found)
