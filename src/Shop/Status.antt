-- ===== src/Shop/Status.antt =====
-- app/shop/domain/value_objects.py and app/shop/domain/state_machine.py: the statuses of an order, the
-- channels of its payment, and the machine of its delivery. Labels are left out.
use ushbooknpay.Base.{ℕ, Bool, ◌&&◌, Option, none, some, List, [], ◌∷◌, ◌==◌, any, if◌then◌else◌}

pub data DeliveryStatus : Type 0 where
  ordered ready_to_go on_the_way delivered received : DeliveryStatus

pub data OrderPaymentStatus : Type 0 where
  not_initiated pending success failed refunded : OrderPaymentStatus

pub data ShopPaymentThrough : Type 0 where
  ushspa ushweb ushdesk other : ShopPaymentThrough

-- What a caller may send as the channel, stripped and in lower case: `blank` is the empty text, and
-- `unknown` every text that the mapping does not have.
pub data ChannelText : Type 0 where
  blank ushspa app mobile ushweb web ushdesk desk pos_terminal counter other unknown : ChannelText

unfoldable pub normalise : ChannelText → Option ShopPaymentThrough
normalise ChannelText.blank = none
normalise ChannelText.ushspa = some ShopPaymentThrough.ushspa
normalise ChannelText.app = some ShopPaymentThrough.ushspa
normalise ChannelText.mobile = some ShopPaymentThrough.ushspa
normalise ChannelText.ushweb = some ShopPaymentThrough.ushweb
normalise ChannelText.web = some ShopPaymentThrough.ushweb
normalise ChannelText.ushdesk = some ShopPaymentThrough.ushdesk
normalise ChannelText.desk = some ShopPaymentThrough.ushdesk
normalise ChannelText.pos_terminal = some ShopPaymentThrough.ushdesk
normalise ChannelText.counter = some ShopPaymentThrough.ushdesk
normalise ChannelText.other = some ShopPaymentThrough.other
normalise ChannelText.unknown = some ShopPaymentThrough.other

abbrev pub index : DeliveryStatus → ℕ
index ordered = 0
index ready_to_go = 1
index on_the_way = 2
index delivered = 3
index received = 4

-- `TRANSITIONS`
unfoldable pub transitions : DeliveryStatus → List DeliveryStatus
transitions ordered = ready_to_go ∷ []
transitions ready_to_go = on_the_way ∷ []
transitions on_the_way = delivered ∷ []
transitions delivered = received ∷ []
transitions received = []

-- `CUSTOMER_ONLY_TRANSITIONS`, `CUSTOMER_ALLOWED_TRANSITIONS`
abbrev pub customer_only_transitions : List (DeliveryStatus × DeliveryStatus)
customer_only_transitions = []

abbrev pub customer_allowed_transitions : List (DeliveryStatus × DeliveryStatus)
customer_allowed_transitions = (delivered, received) ∷ []

abbrev pub is_pair_in :
    DeliveryStatus → DeliveryStatus → List (DeliveryStatus × DeliveryStatus) → Bool
is_pair_in s t l = any (λ p. index p.0 == index s && index p.1 == index t) l

-- `InvalidDeliveryTransitionError`s
pub data TransitionError : Type 0 where
  cannot_transition only_customer not_for_customers : TransitionError

unfoldable pub can_transition : DeliveryStatus → DeliveryStatus → Bool
unfolding transitions
can_transition current to = any (λ s. index s == index to) (transitions current)

-- `none` is no error.
unfoldable pub assert_can_transition : DeliveryStatus → DeliveryStatus → Option TransitionError
unfolding can_transition
assert_can_transition current to =
    if can_transition current to then none else some cannot_transition

unfoldable pub assert_staff_can_transition :
    DeliveryStatus → DeliveryStatus → Option TransitionError
unfolding assert_can_transition
assert_staff_can_transition current to = elim (assert_can_transition current to) [
  | some e ↦ some e
  | none ↦ if is_pair_in current to customer_only_transitions then some only_customer else none
]

unfoldable pub assert_customer_can_transition :
    DeliveryStatus → DeliveryStatus → Option TransitionError
unfolding assert_can_transition
assert_customer_can_transition current to = elim (assert_can_transition current to) [
  | some e ↦ some e
  | none ↦
      if is_pair_in current to customer_allowed_transitions then none else some not_for_customers
]
