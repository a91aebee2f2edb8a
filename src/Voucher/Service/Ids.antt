-- ===== src/Voucher/Service/Ids.antt =====
-- Lists of service ids without repetition, and which of them the loop over a redemption's services,
-- in `update_voucher` of app/voucher/application/voucher_service.py, takes.
use ushbooknpay.Base.{
  ℕ, ◌≡◌, refl, sym, ap, ◌∙◌, true, false, ◌||◌, Option, none, some, List, [], ◌∷◌, ◌++◌, arith,
  ◌==◌, inl, inr, map, any-append, All, Bool-cases,
}
use mathlib.Core.List.{append_assoc, append-nil}
use ushbooknpay.Base.Session.{ok, err-ok, ok-ok}
use ushbooknpay.Voucher.Service.{
  not_of_voucher, already_redeemed, is_member, take_services, RedemptionRecord, ids_redeemed,
}

abbrev pub IsDistinct : List ℕ → Type 0
IsDistinct [] = Unit
IsDistinct (x ∷ xs) = (is_member x xs ≡ false) × IsDistinct xs

absent_of_All :
    (x : ℕ) (xs ys : List ℕ)
    → All (λ y. is_member y (x ∷ xs) ≡ false) ys
    → (is_member x ys ≡ false) × All (λ y. is_member y xs ≡ false) ys
absent_of_All x xs [] h = (refl, tt)
absent_of_All x xs (y ∷ ys) h =
    let later = absent_of_All x xs ys h.1 in
    (ground (arith, later.0, h.0), (ground (arith, h.0), later.1))

pub IsDistinct-append :
    (xs ys : List ℕ)
    → IsDistinct xs
    → IsDistinct ys
    → All (λ y. is_member y xs ≡ false) ys
    → IsDistinct (xs ++ ys)
IsDistinct-append [] ys h k apart = k
IsDistinct-append (x ∷ xs) ys h k apart =
    let absent = absent_of_All x xs ys apart in
    (
      rw (any-append (λ y. y == x) xs ys, h.0, absent.0) refl,
      IsDistinct-append xs ys h.1 k absent.1,
    )

pub ids_redeemed-append :
    (rs : List RedemptionRecord) (r : RedemptionRecord)
    → ids_redeemed (rs ++ (r ∷ [])) ≡ ids_redeemed rs ++ r.services
unfolding ids_redeemed
ids_redeemed-append [] r = append-nil r.services
ids_redeemed-append (x ∷ rs) r =
    rw (ids_redeemed-append rs r) (sym (append_assoc x.services (ids_redeemed rs) r.services))

module _ (all_ids already_used : List ℕ) where
  -- An id that a redemption may use: gifted, and not used before.
  abbrev pub IsOpen : ℕ → Type 0
  IsOpen i = (is_member i all_ids ≡ true) × (is_member i already_used ≡ false)

  -- Ids that can be taken after those of `new_ids`.
  abbrev pub IsTakable : List ℕ → List ℕ → Type 0
  IsTakable new_ids [] = Unit
  IsTakable new_ids (i ∷ is) =
      IsOpen i × (is_member i new_ids ≡ false) × IsTakable (new_ids ++ (i ∷ [])) is

  pub take_services-takable :
      (new_ids ids : List ℕ)
      → IsTakable new_ids ids
      → take_services all_ids already_used new_ids (map some ids) ≡ ok (new_ids ++ ids)
  unfolding take_services
  take_services-takable new_ids [] h = ap ok (sym (append-nil new_ids))
  take_services-takable new_ids (i ∷ is) h =
      rw (h.0.0, h.0.1, h.1, take_services-takable (new_ids ++ (i ∷ [])) is h.2)
        (ap ok (append_assoc new_ids (i ∷ []) is))

  -- What the loop returns has taken every item, and each was open and not taken before.
  pub take_services-taken :
      (new_ids ids : List ℕ) (items : List (Option ℕ))
      → take_services all_ids already_used new_ids items ≡ ok ids
      → (is : List ℕ) × (items ≡ map some is) × (ids ≡ new_ids ++ is) × IsTakable new_ids is
  unfolding take_services
  take_services-taken new_ids ids [] h =
      ([], refl, ok-ok ids (new_ids ++ []) (ok new_ids) h (ap ok (sym (append-nil new_ids))), tt)
  take_services-taken new_ids ids (none ∷ items) h = absurd (
      err-ok (not_of_voucher none) ids (take_services all_ids already_used new_ids (none ∷ items))
        refl h)
  take_services-taken new_ids ids (some i ∷ items) h =
      let result = take_services all_ids already_used new_ids (some i ∷ items) in
      elim (Bool-cases (is_member i all_ids)) [
        | inr e ↦ absurd (err-ok (not_of_voucher (some i)) ids result (rw e refl) h)
        | inl gift ↦ elim (Bool-cases (is_member i already_used || is_member i new_ids)) [
          | inl e ↦ absurd (err-ok (already_redeemed (some i)) ids result (rw (gift, e) refl) h)
          | inr fresh ↦
              let (is, same, sum, takable) =
                take_services-taken (new_ids ++ (i ∷ [])) ids items (rw (gift, fresh) at h) in
              (
                i ∷ is,
                ap (λ l. some i ∷ l) same,
                sum ∙ append_assoc new_ids (i ∷ []) is,
                ((gift, ground arith), ground arith, takable),
              )
        ]
      ]

  -- Taken ids are distinct and open.
  pub IsTakable-sound :
      (new_ids is : List ℕ)
      → IsTakable new_ids is
      → IsDistinct new_ids
      → IsDistinct (new_ids ++ is) × All IsOpen is
  IsTakable-sound new_ids [] h k = (rw (append-nil new_ids) k, tt)
  IsTakable-sound new_ids (i ∷ is) h k =
      let later =
        IsTakable-sound (new_ids ++ (i ∷ [])) is h.2
          (IsDistinct-append new_ids (i ∷ []) k (refl, tt) (h.1, tt)) in
      (rw append_assoc at later.0, (h.0, later.1))

  distinct_tail : (xs ys : List ℕ) (y : ℕ) → IsDistinct (xs ++ (y ∷ ys)) → is_member y xs ≡ false
  distinct_tail [] ys y h = refl
  distinct_tail (x ∷ xs) ys y h =
      ground (arith, any-append (λ z. z == x) xs (y ∷ ys), h.0, distinct_tail xs ys y h.1)

  pub sound-IsTakable :
      (new_ids is : List ℕ) → IsDistinct (new_ids ++ is) → All IsOpen is → IsTakable new_ids is
  sound-IsTakable new_ids [] h k = tt
  sound-IsTakable new_ids (i ∷ is) h k = (
    k.0,
    distinct_tail new_ids is i h,
    sound-IsTakable (new_ids ++ (i ∷ [])) is (rw (append_assoc new_ids (i ∷ []) is) h) k.1,
  )
