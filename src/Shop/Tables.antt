-- ===== src/Shop/Tables.antt =====
-- The rows of app/shop/infrastructure/models.py, the requests of app/shop/interfaces/schemas.py, and
-- the queries of app/shop/infrastructure/repository.py. Ids, texts and tokens are numbers; instants are
-- microseconds. Names, addresses, notes and payment_data are left out.
use ushbooknpay.Base.{
  ℕ, ◌+◌, Bool, ◌&&◌, Option, none, some, List, [], ◌∷◌, ◌==◌, length, keep, if◌then◌else◌,
}
use ushbooknpay.Shop.Status.{
  DeliveryStatus, OrderPaymentStatus, ShopPaymentThrough, ChannelText, TransitionError,
}

-- Amounts are in thousandths of a dinar, as the columns keep them.
pub record ShopOrderItem : Type 0 where
  pub product_id : ℕ
  pub unit_price : ℕ
  pub quantity : ℕ
  pub line_total : ℕ

pub data Actor : Type 0 where
  system customer : Actor
  staff : ℕ → Actor

pub record ShopOrderStatusHistory : Type 0 where
  pub from_status : DeliveryStatus
  pub to_status : DeliveryStatus
  pub changed_by : Actor

-- ORD/{year}/{month}/{sequence}
pub record OrderNumber : Type 0 where
  pub year : ℕ
  pub month : ℕ
  pub sequence : ℕ

pub record ShopOrder : Type 0 where
  pub id : ℕ
  pub order_number : OrderNumber
  pub customer_id : ℕ
  pub delivery_status : DeliveryStatus
  pub tracking_code : ℕ
  pub public_token : ℕ
  pub token_expires_at : Option ℕ
  pub subtotal : ℕ
  pub discount : ℕ
  pub total_amount : ℕ
  pub payment_status : OrderPaymentStatus
  pub payment_method : Option ℕ
  pub payment_through : Option ShopPaymentThrough
  pub payment_provider : Option ℕ
  pub payment_url : Option ℕ
  pub items : List ShopOrderItem
  pub status_history : List ShopOrderStatusHistory

-- The orders, the oldest first, and the orders that an event was enqueued for.
pub record Shop : Type 0 where
  pub orders : List ShopOrder
  pub events : List ℕ

pub record OrderItemIn : Type 0 where
  pub product_id : ℕ
  pub quantity : ℕ

-- What an order is created with, a keyword argument going before the field of the body. A payment
-- status is sent as a text: `some none` is a text that names no status.
pub record CreateShopOrderRequest : Type 0 where
  pub items : List OrderItemIn
  pub payment_status : Option (Option OrderPaymentStatus)
  pub payment_method : Option ℕ
  pub payment_through : Option ChannelText
  pub payment_type : Option ChannelText
  pub payment_provider : Option ℕ
  pub payment_url : Option ℕ

pub record PaymentUpdate : Type 0 where
  pub payment_method : Option ℕ
  pub payment_through : Option ChannelText
  pub payment_type : Option ChannelText
  pub payment_provider : Option ℕ
  pub payment_url : Option ℕ

pub data ShopError : Type 0 where
  product_unavailable : ℕ → ShopError
  order_not_found link_expired invalid_code : ShopError
  invalid_transition : TransitionError → ShopError

unfoldable pub find_order : (ShopOrder → Bool) → List ShopOrder → Option ShopOrder
find_order p [] = none
find_order p (o ∷ rest) = if p o then some o else find_order p rest

abbrev pub has_id : ℕ → ShopOrder → Bool
has_id id o = o.id == id

abbrev pub has_public_token : ℕ → ShopOrder → Bool
has_public_token token o = o.public_token == token

abbrev pub get_by_id : ℕ → List ShopOrder → Option ShopOrder
get_by_id id orders = find_order (has_id id) orders

abbrev pub get_by_public_token : ℕ → List ShopOrder → Option ShopOrder
get_by_public_token token orders = find_order (has_public_token token) orders

-- The flush of the row that a query found, once its fields have changed.
unfoldable pub put_order : (ShopOrder → Bool) → ShopOrder → List ShopOrder → List ShopOrder
put_order p o [] = []
put_order p o (q ∷ rest) = if p q then o ∷ rest else q ∷ put_order p o rest

-- `order_number LIKE 'ORD/{year}/{month}/%'`
abbrev pub is_of_month : ℕ → ℕ → ShopOrder → Bool
is_of_month year month o = o.order_number.year == year && o.order_number.month == month

unfoldable pub next_order_number : ℕ → ℕ → List ShopOrder → OrderNumber
next_order_number year month orders = record {
  year = year;
  month = month;
  sequence = length (keep (is_of_month year month) orders) + 1;
}
