-- ===== src/Shop/Tests.antt =====
-- A shop with two products, worked through.
use ushbooknpay.Base.{
  ℕ, ◌+◌, ◌≡◌, ◌≤◌, ◌↔◌, refl, Option, none, some, List, [], ◌∷◌, ◌==◌, All, if◌then◌else◌,
}
use ushbooknpay.Base.Session.{ok}
use ushbooknpay.Shop.Status.{
  ready_to_go, on_the_way, delivered, received, success, ChannelText,
  assert_customer_can_transition, assert_staff_can_transition, assert_can_transition,
  can_transition, transitions, normalise,
}
use ushbooknpay.Shop.Tables.{
  Shop, ShopOrder, CreateShopOrderRequest, PaymentUpdate, customer, find_order, put_order,
  has_public_token, get_by_public_token, next_order_number,
}
use ushbooknpay.Shop.Service.{
  Product, Fresh, moved, confirm_received, create_order, fetch_products, line_items, quantize,
  new_order, add_order, update_delivery_status, update_payment_status, move, paid_order,
}
use ushbooknpay.Shop.Runs.{ShopCall, creates, delivers, pays, confirms, answer, run_shop}
use ushbooknpay.Shop.History.{IsTracked, run_shop-IsTracked}
use ushbooknpay.Shop.Numbers.{AreDistinct, numbers, count_month, run_shop-numbers}
use ushbooknpay.Shop.Receipt.{IsConfirmable, confirm_received_iff}
use ushbooknpay.Shop.Totals.{IsPriced, run_shop-IsPriced, Created, create_order_cases}

abbrev catalogue : ℕ → Option Product
catalogue id =
    if id == 7
    then some (record { price = some 2500500 })
    else if id == 8
    then some (record { price = some 333333 })
    else none

abbrev basket : CreateShopOrderRequest
basket = record {
  items = record { product_id = 7; quantity = 1 } ∷ record { product_id = 8; quantity = 2 } ∷ [];
  payment_status = none;
  payment_method = none;
  payment_through = none;
  payment_type = some ChannelText.mobile;
  payment_provider = none;
  payment_url = none;
}

abbrev drawn : ℕ → Fresh
drawn id = record {
  id = id;
  tracking_code = 482913 + id;
  public_token = 1000 + id;
  token_expires_at = 9000;
  year = 2026;
  month = 11;
}

abbrev paid : PaymentUpdate
paid = record {
  payment_method = some 3;
  payment_through = some ChannelText.desk;
  payment_type = none;
  payment_provider = none;
  payment_url = none;
}

abbrev no_orders : Shop
no_orders = record { orders = []; events = [] }

-- Two orders; the first is paid, delivered, and received by its customer.
abbrev calls : List ShopCall
calls =
    creates basket 4 (drawn 1)
    ∷ creates basket 5 (drawn 2)
    ∷ pays 1 success paid
    ∷ delivers 1 ready_to_go 6
    ∷ delivers 1 delivered 6
    ∷ delivers 1 on_the_way 6
    ∷ delivers 1 delivered 6
    ∷ confirms 8000 1001 482914
    ∷ []

abbrev afterwards : Shop
afterwards = run_shop catalogue calls no_orders

first_total : Shop → ℕ
first_total s = elim s.orders [ [] ↦ 0 | o ∷ rest ↦ o.total_amount ]

total_example : first_total afterwards ≡ 3167
unfolding first_total run_shop answer create_order fetch_products line_items quantize new_order
    next_order_number add_order update_delivery_status update_payment_status confirm_received move
    paid_order normalise find_order put_order assert_staff_can_transition
    assert_customer_can_transition assert_can_transition can_transition transitions
total_example = refl

run_shop-IsTracked_example : All IsTracked afterwards.orders
run_shop-IsTracked_example = run_shop-IsTracked catalogue calls no_orders tt

run_shop-IsPriced_example : All IsPriced afterwards.orders
run_shop-IsPriced_example = run_shop-IsPriced catalogue calls no_orders tt

run_shop-numbers_example :
    AreDistinct (numbers afterwards.orders)
    × All
        (λ n. n.sequence ≤ count_month n.year n.month (numbers afterwards.orders))
        (numbers afterwards.orders)
run_shop-numbers_example = run_shop-numbers catalogue calls no_orders refl

create_order_cases_example :
    Created catalogue basket 4
      (drawn 1)
      no_orders
      (create_order catalogue basket 4 (drawn 1) no_orders)
create_order_cases_example = create_order_cases catalogue basket 4 (drawn 1) no_orders

-- An order that has come to its customer's door.
abbrev at_the_door : ShopOrder
at_the_door = record {
  id = 1;
  order_number = record { year = 2026; month = 11; sequence = 1 };
  customer_id = 4;
  delivery_status = delivered;
  tracking_code = 482914;
  public_token = 1001;
  token_expires_at = some 9000;
  subtotal = 3167;
  discount = 0;
  total_amount = 3167;
  payment_status = success;
  payment_method = none;
  payment_through = none;
  payment_provider = none;
  payment_url = none;
  items = [];
  status_history = [];
}

abbrev one_order : Shop
one_order = record { orders = at_the_door ∷ []; events = 1 ∷ [] }

abbrev signed_for : ShopOrder
signed_for = moved received customer at_the_door

abbrev closed : Shop
closed = record { orders = signed_for ∷ []; events = 1 ∷ [] }

accepted : confirm_received 8000 1001 482914 one_order ≡ (ok signed_for, closed)
unfolding confirm_received move find_order put_order assert_customer_can_transition
    assert_can_transition can_transition transitions
accepted = refl

confirm_received_iff_example :
    (confirm_received 8000 1001 482914 one_order ≡ (ok signed_for, closed)) ↔ (
      (o : ShopOrder) × (get_by_public_token 1001 one_order.orders ≡ some o)
      × IsConfirmable 8000 482914 o
      × (signed_for ≡ moved received customer o)
      × (closed ≡ record one_order {
        orders = put_order (has_public_token 1001) signed_for one_order.orders;
      }))
confirm_received_iff_example = confirm_received_iff 8000 1001 482914 one_order signed_for closed
