-- ===== src/Shop/Runs.antt =====
-- A shop that is called in any order, and what holds of each of its orders meanwhile.
use ushbooknpay.Base.{
  ℕ, ◌≡◌, refl, inl, inr, Bool, true, false, Option, none, some, List, [], ◌∷◌, ◌++◌, arith, ◌==◌,
  All, All-append, Bool-cases,
}
use ushbooknpay.Base.Session.{Outcome, ok, err}
use mathlib.Core.Path.{subst}
use ushbooknpay.Shop.Status.{
  DeliveryStatus, received, OrderPaymentStatus, assert_staff_can_transition,
  assert_customer_can_transition, TransitionError,
}
use ushbooknpay.Shop.Tables.{
  ShopOrder, Actor, customer, staff, Shop, CreateShopOrderRequest, PaymentUpdate, ShopError,
  find_order, put_order, has_id, has_public_token, get_by_id, get_by_public_token,
}
use ushbooknpay.Shop.Service.{
  Product, Fresh, Result, new_order, add_order, enqueue_if, is_success, moved, move, saved,
  paid_order, deliver_found, pay_found, confirm_found, create_from, is_expired, fetch_products,
  line_items, create_order, update_delivery_status, update_payment_status, confirm_received,
}

pub data ShopCall : Type 0 where
  creates : CreateShopOrderRequest → ℕ → Fresh → ShopCall
  delivers : ℕ → DeliveryStatus → ℕ → ShopCall
  pays : ℕ → OrderPaymentStatus → PaymentUpdate → ShopCall
  confirms : ℕ → ℕ → ℕ → ShopCall

module _ (get_product : ℕ → Option Product) where
  unfoldable pub answer : ShopCall → Shop → Result
  answer (creates body customer_id f) shop = create_order get_product body customer_id f shop
  answer (delivers id to by) shop = update_delivery_status id to by shop
  answer (pays id s u) shop = update_payment_status id s u shop
  answer (confirms now token code) shop = confirm_received now token code shop

  unfoldable pub run_shop : List ShopCall → Shop → Shop
  unfolding answer
  run_shop [] shop = shop
  run_shop (c ∷ cs) shop = run_shop cs ((answer c shop).1)

find_order-All :
    (P : ShopOrder → Type 0) (p : ShopOrder → Bool) (orders : List ShopOrder) (o : ShopOrder)
    → find_order p orders ≡ some o
    → All P orders
    → P o
unfolding find_order
find_order-All P p [] o h k = cc
find_order-All P p (q ∷ rest) o h k = elim (Bool-cases (p q)) [
  | inl e ↦ let found : some q ≡ some o = rw e at h in subst P (cc) k.0
  | inr e ↦
      let later : find_order p rest ≡ some o = rw e at h in find_order-All P p rest o later k.1
]

All-put_order :
    (P : ShopOrder → Type 0) (p : ShopOrder → Bool) (o : ShopOrder) (orders : List ShopOrder)
    → P o
    → All P orders
    → All P (put_order p o orders)
unfolding put_order
All-put_order P p o [] h k = tt
All-put_order P p o (q ∷ rest) h k = elim (Bool-cases (p q)) [
  | inl e ↦ rw e (h, k.1)
  | inr e ↦ rw e (k.0, All-put_order P p o rest h k.1)
]

-- A property that every new order has, and that every permitted move and every payment keeps.
pub record IsLasting (P : ShopOrder → Type 0) : Type 0 where
  pub at_creation :
      (body : CreateShopOrderRequest) (c : ℕ) (f : Fresh) (products : List Product)
      (orders : List ShopOrder)
      → P (new_order body c f (line_items body.items products) orders)
  pub at_move :
      (to : DeliveryStatus) (by : Actor) (o : ShopOrder)
      → assert_staff_can_transition o.delivery_status to ≡ none
      → P o
      → P (moved to by o)
  pub at_payment :
      (s : OrderPaymentStatus) (u : PaymentUpdate) (o : ShopOrder) → P o → P (paid_order s u o)

-- What a customer may do, the staff may do too.
staff_too :
    (s t : DeliveryStatus)
    → assert_customer_can_transition s t ≡ none
    → assert_staff_can_transition s t ≡ none
unfolding assert_customer_can_transition assert_staff_can_transition
staff_too s t h = ground arith

module _ (P : ShopOrder → Type 0) (lasts : IsLasting P) where
  abbrev Holds : Shop → Type 0
  Holds shop = All P shop.orders

  move-Holds :
      (to : DeliveryStatus) (by : Actor) (p : ShopOrder → Bool) (shop : Shop) (o : ShopOrder)
      (e : Option TransitionError)
      → (e ≡ none → assert_staff_can_transition o.delivery_status to ≡ none)
      → P o
      → Holds shop
      → Holds ((move to by p shop o e).1)
  unfolding move
  move-Holds to by p shop o (some e) g k h = h
  move-Holds to by p shop o none g k h =
      All-put_order P p (moved to by o) shop.orders (lasts.at_move to by o (g refl) k) h

  enqueue_if-Holds : (b : Bool) (id : ℕ) (shop : Shop) → Holds shop → Holds (enqueue_if b id shop)
  enqueue_if-Holds true id shop h = h
  enqueue_if-Holds false id shop h = h

  create-Holds :
      (body : CreateShopOrderRequest) (c : ℕ) (f : Fresh) (shop : Shop)
      (r : Outcome ShopError (List Product))
      → Holds shop
      → Holds ((create_from body c f shop r).1)
  unfolding add_order
  create-Holds body c f shop (err e) h = h
  create-Holds body c f shop (ok ps) h =
      let items = line_items body.items ps in
      let o = new_order body c f items shop.orders in
      enqueue_if-Holds (is_success o.payment_status) o.id
        (record shop { orders = shop.orders ++ (o ∷ []) })
        (All-append P shop.orders (o ∷ []) h (lasts.at_creation body c f ps shop.orders, tt))

  deliver-Holds :
      (to : DeliveryStatus) (by : Actor) (p : ShopOrder → Bool) (shop : Shop) (r : Option ShopOrder)
      → ((o : ShopOrder) → r ≡ some o → P o)
      → Holds shop
      → Holds ((deliver_found to by p shop r).1)
  deliver-Holds to by p shop none g h = h
  deliver-Holds to by p shop (some o) g h =
      move-Holds to by p shop o (assert_staff_can_transition o.delivery_status to) (λ e. e)
        (g o refl) h

  pay-Holds :
      (s : OrderPaymentStatus) (u : PaymentUpdate) (p : ShopOrder → Bool) (shop : Shop)
      (r : Option ShopOrder)
      → ((o : ShopOrder) → r ≡ some o → P o)
      → Holds shop
      → Holds ((pay_found s u p shop r).1)
  pay-Holds s u p shop none g h = h
  pay-Holds s u p shop (some o) g h =
      enqueue_if-Holds (is_success s) o.id (saved p (paid_order s u o) shop)
        (All-put_order P p (paid_order s u o) shop.orders (lasts.at_payment s u o (g o refl)) h)

  confirm-Holds :
      (now code : ℕ) (p : ShopOrder → Bool) (shop : Shop) (r : Option ShopOrder)
      → ((o : ShopOrder) → r ≡ some o → P o)
      → Holds shop
      → Holds ((confirm_found now code p shop r).1)
  confirm-Holds now code p shop none g h = h
  confirm-Holds now code p shop (some o) g h =
      let go =
        move-Holds received customer p shop o
          (assert_customer_can_transition o.delivery_status received)
          (staff_too o.delivery_status received) (g o refl) h in
      elim (Bool-cases (is_expired now o.token_expires_at)) [
        | inl e ↦ rw e h
        | inr e ↦ elim (Bool-cases (o.tracking_code == code)) [
          | inl c ↦ rw (e, c) go
          | inr c ↦ rw (e, c) h
        ]
      ]

  module _ (get_product : ℕ → Option Product) where
    answer-Holds : (c : ShopCall) (shop : Shop) → Holds shop → Holds ((answer get_product c shop).1)
    unfolding answer create_order update_delivery_status update_payment_status confirm_received
    answer-Holds (creates body c f) shop h =
        create-Holds body c f shop (fetch_products get_product body.items) h
    answer-Holds (delivers id to by) shop h =
        deliver-Holds to (staff by) (has_id id) shop (get_by_id id shop.orders)
          (λ o e. find_order-All P (has_id id) shop.orders o e h) h
    answer-Holds (pays id s u) shop h =
        pay-Holds s u (has_id id) shop (get_by_id id shop.orders)
          (λ o e. find_order-All P (has_id id) shop.orders o e h) h
    answer-Holds (confirms now token code) shop h =
        confirm-Holds now code (has_public_token token) shop (get_by_public_token token shop.orders)
          (λ o e. find_order-All P (has_public_token token) shop.orders o e h) h

    -- It holds of every order of a shop, whatever is called.
    pub run_shop-All :
        (calls : List ShopCall) (shop : Shop)
        → All P shop.orders
        → All P (run_shop get_product calls shop).orders
    unfolding run_shop
    run_shop-All [] shop h = h
    run_shop-All (c ∷ cs) shop h =
        run_shop-All cs ((answer get_product c shop).1) (answer-Holds c shop h)
