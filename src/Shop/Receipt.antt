-- ===== src/Shop/Receipt.antt =====
-- When a customer's confirmation of receipt is accepted.
use ushbooknpay.Base.{
  ℕ, ◌≡◌, ◌≤◌, ◌↔◌, sym, ap, ◌∙◌, inl, inr, refl, false, Option, none, some, arith, ◌==◌,
  Bool-cases,
}
use mathlib.Core.Path.{subst}
use ushbooknpay.Base.Session.{ok}
use ushbooknpay.Shop.Status.{
  DeliveryStatus, delivered, received, assert_customer_can_transition, TransitionError,
}
use ushbooknpay.Shop.Tables.{
  ShopOrder, customer, Shop, put_order, has_public_token, get_by_public_token,
}
use ushbooknpay.Shop.Service.{
  moved, move, saved, confirm_found, is_expired, confirm_received, Result,
}

-- The link of an order without an expiry never expires.
abbrev pub IsOpenAt : ℕ → Option ℕ → Type 0
IsOpenAt now none = Unit
IsOpenAt now (some t) = now ≤ t

open_iff : (now : ℕ) (t : Option ℕ) → (is_expired now t ≡ false) ↔ IsOpenAt now t
open_iff now none = (λ h. tt, λ h. refl)
open_iff now (some t) = (λ h. ground arith, λ h. ground arith)

-- What is asked of an order whose receipt a customer confirms.
abbrev pub IsConfirmable : ℕ → ℕ → ShopOrder → Type 0
IsConfirmable now code o =
    IsOpenAt now o.token_expires_at × (o.tracking_code ≡ code) × (o.delivery_status ≡ delivered)

customer_iff :
    (s : DeliveryStatus) → (assert_customer_can_transition s received ≡ none) ↔ (s ≡ delivered)
unfolding assert_customer_can_transition
customer_iff s = (λ h. ground arith, λ h. rw h refl)

module _ (now token code : ℕ) (shop : Shop) where
  -- What an accepted confirmation of an order comes to.
  abbrev IsReceipt : ShopOrder → ShopOrder → Shop → Type 0
  IsReceipt o o' shop' =
      (o' ≡ moved received customer o) × (shop' ≡ saved (has_public_token token) o' shop)

  move_iff :
      (o o' : ShopOrder) (shop' : Shop) (e : Option TransitionError)
      → (move received customer (has_public_token token) shop o e ≡ (ok o', shop'))
        ↔ ((e ≡ none) × IsReceipt o o' shop')
  unfolding move
  move_iff o o' shop' (some e) = (λ h. absurd (cc), λ h. absurd (cc))
  move_iff o o' shop' none = (
    λ h.
        let same : moved received customer o ≡ o' = cc in
        (
          refl,
          (
            sym same,
            sym (ap (λ (r : Result). r.1) h) ∙ ap (λ x. saved (has_public_token token) x shop) same,
          ),
        ),
    λ h. rw (h.1.1, h.1.0) refl,
  )

  found_iff :
      (o o' : ShopOrder) (shop' : Shop)
      → (confirm_found now code (has_public_token token) shop (some o) ≡ (ok o', shop'))
        ↔ (IsConfirmable now code o × IsReceipt o o' shop')
  found_iff o o' shop' =
      let valid = open_iff now o.token_expires_at in
      let at_end = customer_iff o.delivery_status in
      let moves = move_iff o o' shop' (assert_customer_can_transition o.delivery_status received) in
      elim (Bool-cases (is_expired now o.token_expires_at)) [
        | inl e ↦ rw e (
          λ h. absurd (cc),
          λ h. let no : is_expired now o.token_expires_at ≡ false = valid.1 h.0.0 in absurd (cc),
        )
        | inr e ↦ elim (Bool-cases (o.tracking_code == code)) [
          | inl c ↦
              rw (e, c)
                (
                  λ h. let r = moves.0 h in ((valid.0 e, ground (arith, c), at_end.0 r.0), r.1),
                  λ h. moves.1 (at_end.1 h.0.2, h.1),
                )
          | inr c ↦ rw (e, c) (λ h. absurd (cc), λ h. absurd (ground (arith, c, h.0.1)))
        ]
      ]

  -- The four answers of the call are told apart by the order that the token names.
  confirm_iff :
      (r : Option ShopOrder) (o' : ShopOrder) (shop' : Shop)
      → (confirm_found now code (has_public_token token) shop r ≡ (ok o', shop'))
        ↔ ((o : ShopOrder) × (r ≡ some o) × IsConfirmable now code o × IsReceipt o o' shop')
  confirm_iff none o' shop' = (λ h. absurd (cc), λ h. absurd (cc))
  confirm_iff (some o) o' shop' = (
    λ h. let r = (found_iff o o' shop').0 h in (o, refl, r.0, r.1),
    λ (p, e, c, w).
        let same : p ≡ o = cc in
        (found_iff o o' shop').1
          (subst (λ x. IsConfirmable now code x × IsReceipt x o' shop') same (c, w)),
  )

  -- A customer's confirmation is accepted exactly when an order has the token, the link has not
  -- expired, the code is the order's, and the order is delivered; the order is then received, with the
  -- change in its history, and nothing else in the shop changes.
  pub confirm_received_iff :
      (o' : ShopOrder) (shop' : Shop)
      → (confirm_received now token code shop ≡ (ok o', shop')) ↔ (
          (o : ShopOrder) × (get_by_public_token token shop.orders ≡ some o)
          × IsConfirmable now code o
          × (o' ≡ moved received customer o)
          × (shop' ≡ record shop { orders = put_order (has_public_token token) o' shop.orders }))
  unfolding confirm_received
  confirm_received_iff o' shop' =
      let all = confirm_iff (get_by_public_token token shop.orders) o' shop' in
      (
        λ h. let r = all.0 h in (r.0, r.1, r.2, r.3.0, r.3.1),
        λ h. all.1 (h.0, h.1, h.2, (h.3, h.4)),
      )
