-- ===== src/Shop/Service.antt =====
-- app/shop/application/services.py: create_order, update_delivery_status, update_payment_status and
-- confirm_received. The catalogue is a parameter; ids, tokens and codes that the code draws at random
-- are given. The content of the event and what is written to the log are left out.
use ushbooknpay.Base.{
  ℕ, ◌+◌, ◌*◌, ◌/◌, ◌%◌, Bool, true, false, not, Option, none, some, List, [], ◌∷◌, ◌++◌, ltb, ◌==◌,
  total, if◌then◌else◌,
}
use ushbooknpay.Base.Session.{Outcome, ok, err}
use ushbooknpay.Shop.Status.{
  DeliveryStatus, ordered, received, OrderPaymentStatus, not_initiated, success, ShopPaymentThrough,
  ChannelText, blank, normalise, assert_staff_can_transition, assert_customer_can_transition,
  TransitionError,
}
use ushbooknpay.Shop.Tables.{
  ShopOrder, ShopOrderItem, ShopOrderStatusHistory, Actor, system, customer, staff, Shop,
  OrderItemIn, CreateShopOrderRequest, PaymentUpdate, ShopError, product_unavailable,
  order_not_found, link_expired, invalid_code, invalid_transition, find_order, get_by_id,
  get_by_public_token, put_order, next_order_number, has_id, has_public_token,
}

-- What the code reads of a product of the catalogue: its price in millionths, where it has one.
pub record Product : Type 0 where
  pub price : Option ℕ

-- `Decimal.quantize(Decimal("0.001"))`, which rounds half to even.
unfoldable pub quantize : ℕ → ℕ
quantize n =
    if ltb (n % 1000) 500
    then n / 1000
    else if ltb 500 (n % 1000)
    then n / 1000 + 1
    else n / 1000 + n / 1000 % 2

abbrev pub price_of : Product → ℕ
price_of p = elim p.price [ none ↦ 0 | some n ↦ n ]

-- What the column `Numeric(precision=10, scale=3)` keeps, which rounds half away from zero; a price
-- too large for it is an error of the database.
unfoldable pub stored : ℕ → ℕ
stored n = (n + 500) / 1000

abbrev pub line_item : OrderItemIn → Product → ShopOrderItem
line_item r p = record {
  product_id = r.product_id;
  unit_price = stored (price_of p);
  quantity = r.quantity;
  line_total = quantize (price_of p * r.quantity);
}

-- `a or b`
abbrev pub or_else {ℓ} : {A : Type ℓ} → Option A → Option A → Option A
or_else none b = b
or_else (some a) b = some a

abbrev pub text_or : Option ChannelText → Option ChannelText → Option ChannelText
text_or none b = b
text_or (some blank) b = b
text_or (some t) b = some t

-- `normalise(through_raw) if through_raw else None`
abbrev pub through_of : Option ChannelText → Option ShopPaymentThrough
through_of none = none
through_of (some t) = normalise t

abbrev pub initial_payment : Option (Option OrderPaymentStatus) → OrderPaymentStatus
initial_payment none = not_initiated
initial_payment (some none) = not_initiated
initial_payment (some (some s)) = s

abbrev pub is_success : OrderPaymentStatus → Bool
is_success success = true
is_success _ = false

-- What is drawn or read outside: the row's id, the code and token with their expiry, and the month.
pub record Fresh : Type 0 where
  pub id : ℕ
  pub tracking_code : ℕ
  pub public_token : ℕ
  pub token_expires_at : ℕ
  pub year : ℕ
  pub month : ℕ

abbrev pub status_change : DeliveryStatus → DeliveryStatus → Actor → List ShopOrderStatusHistory
status_change s t by = record { from_status = s; to_status = t; changed_by = by } ∷ []

-- `_enqueue_order_created_event`, which reports the order by its id.
abbrev pub enqueue_if : Bool → ℕ → Shop → Shop
enqueue_if paid id shop = if paid then record shop { events = shop.events ++ (id ∷ []) } else shop

unfoldable pub new_order :
    CreateShopOrderRequest → ℕ → Fresh → List ShopOrderItem → List ShopOrder → ShopOrder
unfolding next_order_number
new_order body customer_id f items orders = record {
  id = f.id;
  order_number = next_order_number f.year f.month orders;
  customer_id = customer_id;
  delivery_status = ordered;
  tracking_code = f.tracking_code;
  public_token = f.public_token;
  token_expires_at = some f.token_expires_at;
  subtotal = total (λ i. i.line_total) items;
  discount = 0;
  total_amount = total (λ i. i.line_total) items;
  payment_status = initial_payment body.payment_status;
  payment_method = body.payment_method;
  payment_through = through_of (text_or body.payment_through body.payment_type);
  payment_provider = body.payment_provider;
  payment_url = body.payment_url;
  items = items;
  status_history = status_change ordered ordered system;
}

unfoldable pub add_order : ShopOrder → Shop → Shop
add_order o shop =
    enqueue_if (is_success o.payment_status) o.id (record shop { orders = shop.orders ++ (o ∷ []) })

abbrev pub Result : Type 0
Result = Outcome ShopError ShopOrder × Shop

-- The flush of an order that was found and changed.
abbrev pub saved : (ShopOrder → Bool) → ShopOrder → Shop → Shop
saved p o shop = record shop { orders = put_order p o shop.orders }

abbrev pub moved : DeliveryStatus → Actor → ShopOrder → ShopOrder
moved to by o = record o {
  delivery_status = to;
  status_history = o.status_history ++ status_change o.delivery_status to by;
}

-- The end of both changes of the delivery status: what the machine says decides.
unfoldable pub move :
    DeliveryStatus → Actor → (ShopOrder → Bool) → Shop → ShopOrder → Option TransitionError → Result
unfolding put_order
move to by p shop o (some e) = (err (invalid_transition e), shop)
move to by p shop o none = (ok (moved to by o), saved p (moved to by o) shop)

abbrev pub deliver_found :
    DeliveryStatus → Actor → (ShopOrder → Bool) → Shop → Option ShopOrder → Result
deliver_found to by p shop none = (err order_not_found, shop)
deliver_found to by p shop (some o) =
    move to by p shop o (assert_staff_can_transition o.delivery_status to)

unfoldable pub update_delivery_status : ℕ → DeliveryStatus → ℕ → Shop → Result
unfolding move find_order assert_staff_can_transition
update_delivery_status id to changed_by shop =
    deliver_found to (staff changed_by) (has_id id) shop (get_by_id id shop.orders)

-- `if through_val is not None: order.payment_through = normalise(through_val)`
abbrev pub through_or : Option ChannelText → Option ShopPaymentThrough → Option ShopPaymentThrough
through_or none old = old
through_or (some t) old = normalise t

unfoldable pub paid_order : OrderPaymentStatus → PaymentUpdate → ShopOrder → ShopOrder
unfolding normalise
paid_order s u o = record o {
  payment_status = s;
  payment_through = through_or (text_or u.payment_through u.payment_type) o.payment_through;
  payment_method = or_else u.payment_method o.payment_method;
  payment_provider = or_else u.payment_provider o.payment_provider;
  payment_url = or_else u.payment_url o.payment_url;
}

abbrev pub pay_found :
    OrderPaymentStatus → PaymentUpdate → (ShopOrder → Bool) → Shop → Option ShopOrder → Result
pay_found s u p shop none = (err order_not_found, shop)
pay_found s u p shop (some o) =
    (ok (paid_order s u o), enqueue_if (is_success s) o.id (saved p (paid_order s u o) shop))

unfoldable pub update_payment_status : ℕ → OrderPaymentStatus → PaymentUpdate → Shop → Result
unfolding paid_order find_order put_order
update_payment_status id s u shop = pay_found s u (has_id id) shop (get_by_id id shop.orders)

-- `now > expires`, where the order has an expiry.
abbrev pub is_expired : ℕ → Option ℕ → Bool
is_expired now none = false
is_expired now (some t) = ltb t now

abbrev pub confirm_found : ℕ → ℕ → (ShopOrder → Bool) → Shop → Option ShopOrder → Result
confirm_found now code p shop none = (err order_not_found, shop)
confirm_found now code p shop (some o) =
    if is_expired now o.token_expires_at
    then (err link_expired, shop)
    else if not (o.tracking_code == code)
    then (err invalid_code, shop)
    else move received customer p shop o (assert_customer_can_transition o.delivery_status received)

unfoldable pub confirm_received : ℕ → ℕ → ℕ → Shop → Result
unfolding move find_order assert_customer_can_transition
confirm_received now token code shop =
    confirm_found now code (has_public_token token) shop (get_by_public_token token shop.orders)

unfoldable pub line_items : List OrderItemIn → List Product → List ShopOrderItem
unfolding quantize stored
line_items (r ∷ rs) (p ∷ ps) = line_item r p ∷ line_items rs ps
line_items _ _ = []

abbrev pub and_fetched :
    ℕ → Option Product → Outcome ShopError (List Product) → Outcome ShopError (List Product)
and_fetched id none rest = err (product_unavailable id)
and_fetched id (some p) (err e) = err e
and_fetched id (some p) (ok ps) = ok (p ∷ ps)

abbrev pub create_from :
    CreateShopOrderRequest → ℕ → Fresh → Shop → Outcome ShopError (List Product) → Result
create_from body customer_id f shop (err e) = (err e, shop)
create_from body customer_id f shop (ok ps) =
    let o = new_order body customer_id f (line_items body.items ps) shop.orders in
    (ok o, add_order o shop)

-- The catalogue: `none` is any exception of the call.
module _ (get_product : ℕ → Option Product) where
  -- The first loop: every product is fetched before a line is built.
  unfoldable pub fetch_products : List OrderItemIn → Outcome ShopError (List Product)
  fetch_products [] = ok []
  fetch_products (r ∷ rest) =
      and_fetched r.product_id (get_product r.product_id) (fetch_products rest)

  unfoldable pub create_order : CreateShopOrderRequest → ℕ → Fresh → Shop → Result
  unfolding fetch_products line_items new_order add_order
  create_order body customer_id f shop =
      create_from body customer_id f shop (fetch_products body.items)
