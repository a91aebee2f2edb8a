-- ===== src/Booking/Sessions/Packages/Exclusive.antt =====
-- What `validate_package_exclusivity` lets through.
use ushbooknpay.Base.{
  ℕ, ◌≤◌, ◌≡◌, ◌⊎◌, inl, inr, refl, ap, sym, ◌∙◌, Bool, true, not, none, some, List, [], ◌∷◌, arith,
  ◌==◌, any, length, keep, All, append-All, Bool-cases, Option-cases,
}
use mathlib.Core.Path.{subst}
use ushbooknpay.Booking.Sessions.{ServiceEntry, is_empty}
use ushbooknpay.Booking.Sessions.Packages.{
  flat_map, distinct, package_of, is_whole, is_plain, is_id, how_many, check_exclusive,
}

-- An entry of a package: a component of it, or the package itself as a service.
abbrev pub IsOf : ℕ → ServiceEntry → Type 0
IsOf pid e =
    (e.package_id ≡ some pid)
    ⊎ ((e.package_id ≡ none) × (e.is_packaged_services ≡ true) × (e.service_id ≡ pid))

abbrev pub is_component : ℕ → ServiceEntry → Bool
is_component pid e = is_id pid e.package_id

keep-All :
    (P : ℕ → Type 0) (y : ℕ) (zs : List ℕ) → P y → All P (keep (λ z. not (z == y)) zs) → All P zs
keep-All P y [] p h = tt
keep-All P y (z ∷ zs) p h = elim (Bool-cases (z == y)) [
  | inl e ↦
      let later : All P (keep (λ z. not (z == y)) zs) = rw e at h in
      let same : y ≡ z = ground (arith, e) in (subst P same p, keep-All P y zs p later)
  | inr e ↦
      let both : P z × All P (keep (λ z. not (z == y)) zs) = rw e at h in
      (both.0, keep-All P y zs p both.1)
]

distinct-All : (P : ℕ → Type 0) (xs : List ℕ) → All P (distinct xs) → All P xs
unfolding distinct
distinct-All P [] h = tt
distinct-All P (x ∷ xs) h = (h.0, distinct-All P xs (keep-All P x (distinct xs) h.0 h.1))

empty-All : (P : ℕ → Type 0) (xs : List ℕ) → length xs ≡ 0 → All P xs
empty-All P [] h = tt
empty-All P (x ∷ xs) h = absurd (omega arith)

-- A list with one distinct element at most has all its elements equal.
distinct-same : (x : ℕ) (xs : List ℕ) → length (distinct (x ∷ xs)) ≤ 1 → All (λ y. y ≡ x) (x ∷ xs)
unfolding distinct
distinct-same x xs h =
    let others : length (keep (λ z. not (z == x)) (distinct xs)) ≡ 0 = omega arith in
    (
      refl,
      distinct-All (λ y. y ≡ x) xs
          (keep-All (λ y. y ≡ x) x (distinct xs) refl
            (empty-All (λ y. y ≡ x) (keep (λ z. not (z == x)) (distinct xs)) others)),
    )

-- Of a component only its own package is named.
named :
    (P : ℕ → Type 0) (pid : ℕ) (es : List ServiceEntry)
    → any (is_component pid) es ≡ true
    → All P (flat_map package_of es)
    → P pid
unfolding flat_map
named P pid [] t h = cc
named P pid (e ∷ es) t h =
    let split = append-All P (package_of e) (flat_map package_of es) h in
    elim (Bool-cases (is_component pid e)) [
      | inl c ↦ elim (Option-cases e.package_id) [
        | inl n ↦ absurd (ground (arith, c, n))
        | inr (q, s) ↦
            let own : All P (q ∷ []) = rw s at split.0 in
            let same : q ≡ pid = ground (arith, c, s) in subst P same own.0
      ]
      | inr c ↦ named P pid es (ground (arith, t, c)) split.1
    ]

All-IsOf :
    (pid : ℕ) (es : List ServiceEntry)
    → how_many is_plain es ≡ 0
    → All (λ q. q ≡ pid) (flat_map package_of es)
    → All (IsOf pid) es
unfolding flat_map
All-IsOf pid [] p h = tt
All-IsOf pid (e ∷ es) p h =
    let split = append-All (λ q. q ≡ pid) (package_of e) (flat_map package_of es) h in
    let here : IsOf pid e = elim (Option-cases e.package_id) [
      | inr (q, s) ↦
          let own : All (λ q. q ≡ pid) (q ∷ []) = rw s at split.0 in inl (s ∙ ap some own.0)
      | inl n ↦ elim (Bool-cases e.is_packaged_services) [
        | inl t ↦
            let own : All (λ q. q ≡ pid) (e.service_id ∷ []) = rw (n, t) at split.0 in
            inr (n, t, own.0)
        | inr f ↦ absurd (ground (arith, p, n, f))
      ]
    ] in
    (here, All-IsOf pid es (omega arith) split.1)

length-is_empty : (xs : List ℕ) → is_empty xs ≡ true → length xs ≡ 0
length-is_empty [] h = refl
length-is_empty (x ∷ xs) h = cc

packages_same :
    (pid : ℕ) (es : List ServiceEntry) (qs : List ℕ)
    → flat_map package_of es ≡ qs
    → any (is_component pid) es ≡ true
    → length (distinct qs) ≤ 1
    → All (λ q. q ≡ pid) qs
packages_same pid es [] s t h = tt
packages_same pid es (q ∷ qs) s t h =
    let all = distinct-same q qs h in
    let own : pid ≡ q = named (λ y. y ≡ q) pid es t (subst (All (λ y. y ≡ q)) (sym s) all) in
    subst (λ x. All (λ y. y ≡ x) (q ∷ qs)) (sym own) all

-- Where some entry is a component of a package and the rules let the entries through, all are of that
-- package: components of it, and at most once the package itself.
pub exclusive :
    (pid : ℕ) (es : List ServiceEntry)
    → check_exclusive es ≡ none
    → any (is_component pid) es ≡ true
    → All (IsOf pid) es × (how_many is_whole es ≤ 1)
unfolding check_exclusive
exclusive pid es h t =
    let ids = distinct (flat_map package_of es) in
    elim (Bool-cases (is_empty ids)) [
      | inl e ↦ absurd (
          named (λ q. ⊥) pid es t
            (distinct-All (λ q. ⊥) (flat_map package_of es)
              (empty-All (λ q. ⊥) ids (length-is_empty ids e))))
      | inr f ↦
          let few : length ids ≤ 1 = ground (arith, h, f) in
          let one : how_many is_whole es ≤ 1 = ground (arith, h, f) in
          let pure : how_many is_plain es ≡ 0 = ground (arith, h, f) in
          (All-IsOf pid es pure (packages_same pid es (flat_map package_of es) refl t few), one)
    ]
