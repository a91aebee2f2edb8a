-- ===== src/Shop/History.antt =====
-- The history of an order against its delivery status.
use ushbooknpay.Base.{ℕ, ◌≡◌, refl, ap, ◌∙◌, Option, none, List, [], ◌∷◌, ◌++◌, arith, All}
use ushbooknpay.Shop.Status.{
  DeliveryStatus, ordered, ready_to_go, on_the_way, delivered, received,
  assert_staff_can_transition,
}
use ushbooknpay.Shop.Tables.{ShopOrder, ShopOrderStatusHistory, Actor, Shop}
use ushbooknpay.Shop.Service.{Product, new_order, paid_order, status_change}
use ushbooknpay.Shop.Runs.{ShopCall, run_shop, IsLasting, run_shop-All}

-- The changes that lead to a status: the order is placed, made ready, sent, delivered and received,
-- each once and in this order.
unfoldable pub itinerary : DeliveryStatus → List (DeliveryStatus × DeliveryStatus)
itinerary ordered = (ordered, ordered) ∷ []
itinerary ready_to_go = (ordered, ordered) ∷ (ordered, ready_to_go) ∷ []
itinerary on_the_way = (ordered, ordered) ∷ (ordered, ready_to_go) ∷ (ready_to_go, on_the_way) ∷ []
itinerary delivered =
    (ordered, ordered)
    ∷ (ordered, ready_to_go)
    ∷ (ready_to_go, on_the_way)
    ∷ (on_the_way, delivered)
    ∷ []
itinerary received =
    (ordered, ordered)
    ∷ (ordered, ready_to_go)
    ∷ (ready_to_go, on_the_way)
    ∷ (on_the_way, delivered)
    ∷ (delivered, received)
    ∷ []

unfoldable pub changes : List ShopOrderStatusHistory → List (DeliveryStatus × DeliveryStatus)
changes [] = []
changes (h ∷ hs) = (h.from_status, h.to_status) ∷ changes hs

abbrev pub IsTracked : ShopOrder → Type 0
IsTracked o = changes o.status_history ≡ itinerary o.delivery_status

changes-append :
    (h : List ShopOrderStatusHistory) (s t : DeliveryStatus) (by : Actor)
    → changes (h ++ status_change s t by) ≡ changes h ++ ((s, t) ∷ [])
unfolding changes
changes-append [] s t by = refl
changes-append (x ∷ h) s t by = ap (◌∷◌ (x.from_status, x.to_status)) (changes-append h s t by)

itinerary-append :
    (s t : DeliveryStatus)
    → assert_staff_can_transition s t ≡ none
    → itinerary s ++ ((s, t) ∷ []) ≡ itinerary t
unfolding itinerary assert_staff_can_transition
itinerary-append s t h = ground arith

tracked : IsLasting IsTracked
unfolding itinerary changes new_order paid_order
tracked = record {
  at_creation = λ body c f products orders. refl;
  at_move = λ to by o e h.
      changes-append o.status_history o.delivery_status to by
      ∙ (ap (λ l. l ++ ((o.delivery_status, to) ∷ [])) h ∙ itinerary-append o.delivery_status to e);
  at_payment = λ s u o h. h;
}

-- Whatever is called and in whichever order, the history of every order lists exactly the changes
-- that lead to its delivery status: placed, made ready, sent, delivered and received, none of them
-- skipped, repeated or undone.
pub run_shop-IsTracked :
    (get_product : ℕ → Option Product) (calls : List ShopCall) (shop : Shop)
    → All IsTracked shop.orders
    → All IsTracked (run_shop get_product calls shop).orders
run_shop-IsTracked get_product calls shop h =
    run_shop-All IsTracked tracked get_product calls shop h
