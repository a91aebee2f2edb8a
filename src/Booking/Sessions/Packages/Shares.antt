-- ===== src/Booking/Sessions/Packages/Shares.antt =====
-- Which entry of a package carries its price.
use ushbooknpay.Base.{
  ℕ, suc, ◌+◌, ◌<◌, ◌≡◌, ◌⊎◌, inl, inr, refl, sym, ◌∙◌, Bool, true, false, ◌&&◌, List, [], ◌∷◌,
  arith, ◌==◌, any, any-append, Bool-cases, if◌then◌else◌,
}
use mathlib.Core.Path.{subst}
use ushbooknpay.Booking.Sessions.Packages.{
  ServiceItem, PackageRef, is_id, ref_of, session_refs, package_refs, first_place, carrier_of,
  is_place, is_earlier,
}

abbrev pub is_at : ℕ × ℕ → PackageRef → Bool
is_at c r = is_place c r.session r.place

first_place-any :
    (best : ℕ × ℕ) (refs : List PackageRef)
    → (first_place best refs ≡ best) ⊎ (any (is_at (first_place best refs)) refs ≡ true)
unfolding first_place
first_place-any best [] = inl refl
first_place-any best (r ∷ rest) =
    let place : ℕ × ℕ = (r.session, r.place) in
    let next : ℕ × ℕ = if is_earlier place best then place else best in
    elim (first_place-any next rest) [
      | inr a ↦ inr (ground (arith, a))
      | inl s ↦ elim (Bool-cases (is_earlier place best)) [
        | inl e ↦
            let chosen : next ≡ place = rw e refl in
            inr (subst (λ p. any (is_at p) (r ∷ rest) ≡ true) (sym (s ∙ chosen)) (ground arith))
        | inr e ↦ let chosen : next ≡ best = rw e refl in inl (s ∙ chosen)
      ]
    ]

-- The carrier of a package's price is one of its services.
pub carrier_of-any :
    (r : PackageRef) (refs : List PackageRef)
    → any (is_at (carrier_of (r ∷ refs))) (r ∷ refs) ≡ true
carrier_of-any r refs = elim (first_place-any (r.session, r.place) refs) [
  | inl s ↦ rw s (ground arith)
  | inr a ↦ ground (arith, a)
]

module _ (pid : ℕ) (c : ℕ × ℕ) (price : ℕ) where
  -- What an entry of the package adds: the price at the carrier's place, nothing elsewhere.
  abbrev pub share : ℕ → ℕ → ServiceItem → ℕ
  share si j item = if is_id pid item.package_id && is_place c si j then price else 0

  unfoldable pub session_share : ℕ → ℕ → List ServiceItem → ℕ
  session_share si j [] = 0
  session_share si j (item ∷ rest) = share si j item + session_share si (suc j) rest

  unfoldable pub shares : ℕ → List (List ServiceItem) → ℕ
  unfolding session_share
  shares si [] = 0
  shares si (services ∷ rest) = session_share si 0 services + shares (suc si) rest

  -- Behind the carrier, and in other sessions, nothing is added.
  session_share-past :
      (si j : ℕ) (items : List ServiceItem)
      → (c.0 == si) ≡ true
      → c.1 < j
      → session_share si j items ≡ 0
  unfolding session_share
  session_share-past si j [] h k = refl
  session_share-past si j (item ∷ rest) h k =
      ground (arith, session_share-past si (suc j) rest h (omega arith))

  session_share-other :
      (si j : ℕ) (items : List ServiceItem) → (c.0 == si) ≡ false → session_share si j items ≡ 0
  unfolding session_share
  session_share-other si j [] h = refl
  session_share-other si j (item ∷ rest) h = ground (arith, session_share-other si (suc j) rest h)

  shares-past : (si : ℕ) (sessions : List (List ServiceItem)) → c.0 < si → shares si sessions ≡ 0
  unfolding shares
  shares-past si [] h = refl
  shares-past si (services ∷ rest) h = omega (
    arith,
    session_share-other si 0 services (ground arith),
    shares-past (suc si) rest (omega arith),
  )

  session_refs-past :
      (si j : ℕ) (items : List ServiceItem)
      → c.1 < j
      → any (is_at c) (session_refs pid si j items) ≡ false
  unfolding session_refs
  session_refs-past si j [] h = refl
  session_refs-past si j (item ∷ rest) h =
      let later = session_refs-past si (suc j) rest (omega arith) in
      any-append (is_at c) (ref_of pid si j item) (session_refs pid si (suc j) rest)
      ∙ ground (arith, later)

  session_refs-other :
      (si j : ℕ) (items : List ServiceItem)
      → (c.0 == si) ≡ false
      → any (is_at c) (session_refs pid si j items) ≡ false
  unfolding session_refs
  session_refs-other si j [] h = refl
  session_refs-other si j (item ∷ rest) h =
      any-append (is_at c) (ref_of pid si j item) (session_refs pid si (suc j) rest)
      ∙ ground (arith, session_refs-other si (suc j) rest h)

  package_refs-past :
      (si : ℕ) (sessions : List (List ServiceItem))
      → c.0 < si
      → any (is_at c) (package_refs pid si sessions) ≡ false
  unfolding package_refs
  package_refs-past si [] h = refl
  package_refs-past si (services ∷ rest) h =
      any-append (is_at c) (session_refs pid si 0 services) (package_refs pid (suc si) rest)
      ∙ ground (
        arith,
        session_refs-other si 0 services (ground arith),
        package_refs-past (suc si) rest (omega arith),
      )

  session_share-once :
      (si j : ℕ) (items : List ServiceItem)
      → any (is_at c) (session_refs pid si j items) ≡ true
      → session_share si j items ≡ price
  unfolding session_share session_refs
  session_share-once si j [] h = cc
  session_share-once si j (item ∷ rest) h =
      let split =
        sym (any-append (is_at c) (ref_of pid si j item) (session_refs pid si (suc j) rest)) ∙ h in
      elim (Bool-cases (is_place c si j)) [
        | inl e ↦
            let behind : c.1 < suc j = ground (arith, e) in
            let here : (c.0 == si) ≡ true = ground (arith, e) in
            ground (
              arith,
              split,
              e,
              session_refs-past si (suc j) rest behind,
              session_share-past si (suc j) rest here behind,
            )
        | inr e ↦
            let none_here : any (is_at c) (ref_of pid si j item) ≡ false = ground (arith, e) in
            let later : any (is_at c) (session_refs pid si (suc j) rest) ≡ true =
              ground (arith, split, none_here) in
            ground (arith, e, session_share-once si (suc j) rest later)
      ]

  -- The price is added once.
  pub shares-once :
      (si : ℕ) (sessions : List (List ServiceItem))
      → any (is_at c) (package_refs pid si sessions) ≡ true
      → shares si sessions ≡ price
  unfolding shares package_refs
  shares-once si [] h = cc
  shares-once si (services ∷ rest) h =
      let split =
        sym (any-append (is_at c) (session_refs pid si 0 services) (package_refs pid (suc si) rest))
        ∙ h in
      elim (Bool-cases (c.0 == si)) [
        | inl e ↦
            let behind : c.0 < suc si = ground (arith, e) in
            let here : any (is_at c) (session_refs pid si 0 services) ≡ true =
              ground (arith, split, package_refs-past (suc si) rest behind) in
            omega (arith, session_share-once si 0 services here, shares-past (suc si) rest behind)
        | inr e ↦
            let later : any (is_at c) (package_refs pid (suc si) rest) ≡ true =
              ground (arith, split, session_refs-other si 0 services e) in
            omega (arith, session_share-other si 0 services e, shares-once (suc si) rest later)
      ]
