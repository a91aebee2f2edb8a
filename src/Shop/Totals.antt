-- ===== src/Shop/Totals.antt =====
-- What an order costs.
use native.Mathlib.Nat.{mul-le-mul_right}
use ushbooknpay.Base.{
  ℕ, ◌+◌, ◌*◌, ◌≤◌, ◌≡◌, ◌≢◌, ◌⊎◌, inl, inr, refl, Bool-cases, true, false, Option, none, some,
  List, [], ◌∷◌, ◌++◌, arith, All, total,
}
use mathlib.Core.List.{Memᴰ}
use ushbooknpay.Base.Session.{Outcome, ok, err}
use ushbooknpay.Shop.Status.{OrderPaymentStatus, not_initiated, pending, success, failed, refunded}
use ushbooknpay.Shop.Tables.{
  ShopOrder, ShopOrderItem, Shop, OrderItemIn, CreateShopOrderRequest, ShopError,
  product_unavailable,
}
use ushbooknpay.Shop.Service.{
  Product, Fresh, price_of, quantize, stored, line_items, fetch_products, new_order, add_order,
  paid_order, create_from, and_fetched, create_order, is_success,
}
use ushbooknpay.Shop.Runs.{ShopCall, run_shop, IsLasting, run_shop-All}

-- `n` thousandths are at most half a thousandth off `m` millionths.
abbrev pub IsNear : ℕ → ℕ → Type 0
IsNear m n = (2 * (1000 * n) ≤ 2 * m + 1000) × (2 * m ≤ 2 * (1000 * n) + 1000)

-- The line's total is off its price by its quantity by at most half a thousandth, and half a thousandth
-- more for each piece.
abbrev pub IsRounded : ShopOrderItem → Type 0
IsRounded i =
    (2 * i.line_total ≤ 2 * (i.unit_price * i.quantity) + i.quantity + 1)
    × (2 * (i.unit_price * i.quantity) ≤ 2 * i.line_total + i.quantity + 1)

abbrev pub IsPriced : ShopOrder → Type 0
IsPriced o =
    (o.subtotal ≡ total (λ i. i.line_total) o.items)
    × (o.total_amount + o.discount ≡ o.subtotal)
    × All IsRounded o.items

quantize-IsNear : (n : ℕ) → IsNear n (quantize n)
unfolding quantize
quantize-IsNear n = ground arith

stored-IsNear : (n : ℕ) → IsNear n (stored n)
unfolding stored
stored-IsNear n = ground arith

-- Rounded piece by piece, and rounded in all.
rounded_pieces :
    (p u q t : ℕ)
    → IsNear p u
    → IsNear (p * q) t
    → (2 * t ≤ 2 * (u * q) + q + 1) × (2 * (u * q) ≤ 2 * t + q + 1)
rounded_pieces p u q t (above, below) (over, under) =
    let high : 2 * (1000 * (u * q)) ≤ 2 * (p * q) + 1000 * q =
      grind (arith, mul-le-mul_right q above) in
    let low : 2 * (p * q) ≤ 2 * (1000 * (u * q)) + 1000 * q =
      grind (arith, mul-le-mul_right q below) in
    (omega (arith, low, over), omega (arith, high, under))

line_items-IsRounded :
    (rs : List OrderItemIn) (ps : List Product) → All IsRounded (line_items rs ps)
unfolding line_items
line_items-IsRounded [] [] = tt
line_items-IsRounded [] (p ∷ ps) = tt
line_items-IsRounded (r ∷ rs) [] = tt
line_items-IsRounded (r ∷ rs) (p ∷ ps) = (
  rounded_pieces (price_of p) (stored (price_of p)) r.quantity _ (stored-IsNear (price_of p))
      (quantize-IsNear (price_of p * r.quantity)),
  line_items-IsRounded rs ps,
)

priced : IsLasting IsPriced
unfolding new_order paid_order
priced = record {
  at_creation = λ body c f ps orders. (refl, omega arith, line_items-IsRounded body.items ps);
  at_move = λ to by o e h. h;
  at_payment = λ s u o h. h;
}

-- Whatever is called and in whichever order, every order keeps the sum of its lines as its subtotal,
-- costs the subtotal less the discount, and has lines whose totals are off the stored price by the
-- quantity by at most half a thousandth of a dinar, and half a thousandth more for each piece.
pub run_shop-IsPriced :
    (get_product : ℕ → Option Product) (calls : List ShopCall) (shop : Shop)
    → All IsPriced shop.orders
    → All IsPriced (run_shop get_product calls shop).orders
run_shop-IsPriced get_product calls shop h = run_shop-All IsPriced priced get_product calls shop h

module _ (get_product : ℕ → Option Product) where
  -- The lines are those asked for, in order, at the catalogue's prices, up to half a thousandth.
  abbrev pub IsQuoted : List OrderItemIn → List ShopOrderItem → Type 0
  IsQuoted [] [] = Unit
  IsQuoted (r ∷ rs) (i ∷ is) =
      ((p : Product) × (get_product r.product_id ≡ some p)
        × (i.product_id ≡ r.product_id)
        × (i.quantity ≡ r.quantity)
        × IsNear (price_of p) i.unit_price
        × IsNear (price_of p * r.quantity) i.line_total)
      × IsQuoted rs is
  IsQuoted _ _ = ⊥

  -- A product that was asked for and that the catalogue does not give.
  abbrev pub IsMissing : List OrderItemIn → ℕ → Type 0
  IsMissing rs id = (r : OrderItemIn) × Memᴰ r rs × (r.product_id ≡ id) × (get_product id ≡ none)

  -- What fetching the products comes to.
  abbrev Fetched : List OrderItemIn → Outcome ShopError (List Product) → Type 0
  Fetched rs (ok ps) = IsQuoted rs (line_items rs ps)
  Fetched rs (err e) = (id : ℕ) × (e ≡ product_unavailable id) × IsMissing rs id

  Fetched-next :
      (r : OrderItemIn) (rs : List OrderItemIn) (p : Option Product)
      (o : Outcome ShopError (List Product))
      → get_product r.product_id ≡ p
      → Fetched rs o
      → Fetched (r ∷ rs) (and_fetched r.product_id p o)
  unfolding line_items
  Fetched-next r rs none o e h = (r.product_id, refl, (r, Memᴰ.head refl, refl, e))
  Fetched-next r rs (some p) (ok ps) e h =
      ((p, e, refl, refl, stored-IsNear (price_of p), quantize-IsNear (price_of p * r.quantity)), h)
  Fetched-next r rs (some p) (err x) e (id, s, (q, m, t, n)) = (id, s, (q, Memᴰ.tail m, t, n))

  fetch_products-Fetched : (rs : List OrderItemIn) → Fetched rs (fetch_products get_product rs)
  unfolding fetch_products line_items
  fetch_products-Fetched [] = tt
  fetch_products-Fetched (r ∷ rs) =
      Fetched-next r rs (get_product r.product_id) (fetch_products get_product rs) refl
        (fetch_products-Fetched rs)

  -- An event is added for the order if it is paid, and none if it is not.
  abbrev pub IsAnnounced : ShopOrder → List ℕ → List ℕ → Type 0
  IsAnnounced o events new =
      ((o.payment_status ≡ success) × (new ≡ events ++ (o.id ∷ [])))
      ⊎ ((o.payment_status ≢ success) × (new ≡ events))

  is_success-no : (s : OrderPaymentStatus) → is_success s ≡ false → s ≢ success
  is_success-no s h e = let paid : is_success s ≡ true = rw e refl in absurd (cc)

  is_success-yes : (s : OrderPaymentStatus) → is_success s ≡ true → s ≡ success
  is_success-yes success h = refl
  is_success-yes not_initiated h = absurd (ground arith)
  is_success-yes pending h = absurd (ground arith)
  is_success-yes failed h = absurd (ground arith)
  is_success-yes refunded h = absurd (ground arith)

  add_order-IsAnnounced :
      (o : ShopOrder) (shop : Shop)
      → ((add_order o shop).orders ≡ shop.orders ++ (o ∷ []))
        × IsAnnounced o shop.events (add_order o shop).events
  unfolding add_order
  add_order-IsAnnounced o shop = elim (Bool-cases (is_success o.payment_status)) [
    | inl e ↦ rw e (refl, inl (is_success-yes o.payment_status e, refl))
    | inr e ↦ rw e (refl, inr (is_success-no o.payment_status e, refl))
  ]

  module _ (body : CreateShopOrderRequest) (customer_id : ℕ) (f : Fresh) (shop : Shop) where
    -- The two ways a creation can end.
    abbrev pub Created : Outcome ShopError ShopOrder × Shop → Type 0
    Created r =
        ((o : ShopOrder) × (r.0 ≡ ok o)
          × (r.1.orders ≡ shop.orders ++ (o ∷ []))
          × IsAnnounced o shop.events r.1.events
          × IsQuoted body.items o.items)
        ⊎ ((id : ℕ) × (r ≡ (err (product_unavailable id), shop)) × IsMissing body.items id)

    created :
        (r : Outcome ShopError (List Product))
        → Fetched body.items r
        → Created (create_from body customer_id f shop r)
    unfolding new_order
    created (ok ps) h =
        let o = new_order body customer_id f (line_items body.items ps) shop.orders in
        let (orders, events) = add_order-IsAnnounced o shop in inl (o, refl, orders, events, h)
    created (err e) (id, s, m) = inr (id, rw s refl, m)

    -- A creation either adds one order after the others, with a line for each product asked for, in
    -- the quantity asked for, with a price and a total that are each at most half a thousandth of a
    -- dinar off the catalogue's, and adds an event for it exactly if it is paid; or it names a product asked for that the catalogue does not give, and changes nothing.
    pub create_order_cases : Created (create_order get_product body customer_id f shop)
    unfolding create_order
    create_order_cases =
        created (fetch_products get_product body.items) (fetch_products-Fetched body.items)
