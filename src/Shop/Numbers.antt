-- ===== src/Shop/Numbers.antt =====
-- The numbers of the orders.
use ushbooknpay.Base.{
  ℕ, ◌+◌, ◌≤◌, ◌≡◌, ◌≢◌, inl, inr, refl, ap, sym, ◌∙◌, Bool, true, false, ◌&&◌, Option, none, some,
  List, [], ◌∷◌, ◌++◌, arith, ◌==◌, All, All-append, length, keep, total, total-append, Bool-cases,
  if◌then◌else◌,
}
use ushbooknpay.Base.Pairs.{AllPairs, All-map}
use ushbooknpay.Base.Session.{Outcome, ok, err}
use mathlib.Core.Path.{subst}
use ushbooknpay.Shop.Status.{
  DeliveryStatus, received, OrderPaymentStatus, assert_staff_can_transition,
  assert_customer_can_transition, TransitionError,
}
use ushbooknpay.Shop.Tables.{
  ShopOrder, OrderNumber, Actor, customer, staff, Shop, CreateShopOrderRequest, PaymentUpdate,
  ShopError, find_order, put_order, has_id, has_public_token, get_by_id, get_by_public_token,
  is_of_month, next_order_number,
}
use ushbooknpay.Shop.Service.{
  Product, Fresh, new_order, add_order, enqueue_if, is_success, moved, move, saved, paid_order,
  deliver_found, pay_found, confirm_found, create_from, is_expired, fetch_products, line_items,
  create_order, update_delivery_status, update_payment_status, confirm_received,
}
use ushbooknpay.Shop.Runs.{ShopCall, creates, delivers, pays, confirms, answer, run_shop}

unfoldable pub numbers : List ShopOrder → List OrderNumber
numbers [] = []
numbers (o ∷ rest) = o.order_number ∷ numbers rest

-- How many of the numbers are of a month.
abbrev pub count_month : ℕ → ℕ → List OrderNumber → ℕ
count_month year month ns = total (λ n. if n.year == year && n.month == month then 1 else 0) ns

abbrev IsWithin : List OrderNumber → OrderNumber → Type 0
IsWithin ns n = n.sequence ≤ count_month n.year n.month ns

abbrev pub AreDistinct : List OrderNumber → Type 0
AreDistinct ns = AllPairs (λ m n. m ≢ n) ns

record IsNumbered (ns : List OrderNumber) : Type 0 where
  distinct : AreDistinct ns
  within : All (IsWithin ns) ns

numbers-append :
    (orders : List ShopOrder) (o : ShopOrder)
    → numbers (orders ++ (o ∷ [])) ≡ numbers orders ++ (o.order_number ∷ [])
unfolding numbers
numbers-append [] o = refl
numbers-append (p ∷ rest) o = ap (◌∷◌ p.order_number) (numbers-append rest o)

count-numbers :
    (y m : ℕ) (orders : List ShopOrder)
    → count_month y m (numbers orders) ≡ length (keep (is_of_month y m) orders)
unfolding numbers
count-numbers y m [] = refl
count-numbers y m (o ∷ rest) = ground (arith, count-numbers y m rest)

AllPairs-append :
    {A : Type 0} (R : A → A → Type 0) (xs : List A) (x : A)
    → AllPairs R xs
    → All (λ y. R y x) xs
    → AllPairs R (xs ++ (x ∷ []))
AllPairs-append R [] x h k = (tt, tt)
AllPairs-append R (y ∷ ys) x h k =
    (All-append (R y) ys (x ∷ []) h.0 (k.0, tt), AllPairs-append R ys x h.1 k.1)

same_month :
    (n : OrderNumber)
    → total (λ k. if k.year == n.year && k.month == n.month then 1 else 0) (n ∷ []) ≡ 1
same_month n = ground arith

-- The number after the others of its month is a new one.
next-IsNumbered :
    (ns : List OrderNumber) (n : OrderNumber)
    → n.sequence ≡ count_month n.year n.month ns + 1
    → IsNumbered ns
    → IsNumbered (ns ++ (n ∷ []))
next-IsNumbered ns n e h =
    let more = λ (m : OrderNumber).
      total-append (λ k. if k.year == m.year && k.month == m.month then 1 else 0) ns (n ∷ []) in
    record {
      distinct =
          AllPairs-append (λ a b. a ≢ b) ns n h.distinct
            (All-map (IsWithin ns) (λ m. m ≢ n) ns
              (λ m w p. let own : IsWithin ns n = subst (IsWithin ns) p w in omega arith) h.within);
      within =
          All-append (IsWithin (ns ++ (n ∷ []))) ns (n ∷ [])
            (All-map (IsWithin ns) (IsWithin (ns ++ (n ∷ []))) ns (λ m w. omega (arith, more m))
              h.within)
            (omega (arith, more n, same_month n), tt);
    }

numbers-put_order :
    (p : ShopOrder → Bool) (o' : ShopOrder) (orders : List ShopOrder) (o : ShopOrder)
    → find_order p orders ≡ some o
    → o'.order_number ≡ o.order_number
    → numbers (put_order p o' orders) ≡ numbers orders
unfolding numbers put_order find_order
numbers-put_order p o' [] o h e = refl
numbers-put_order p o' (q ∷ rest) o h e = elim (Bool-cases (p q)) [
  | inl t ↦
      let found : some q ≡ some o = rw t at h in
      let same : q ≡ o = cc in
      rw t (ap (λ n. n ∷ numbers rest) (e ∙ ap (λ (x : ShopOrder). x.order_number) (sym same)))
  | inr f ↦
      let later : find_order p rest ≡ some o = rw f at h in
      rw f (ap (◌∷◌ q.order_number) (numbers-put_order p o' rest o later e))
]

enqueue_if-numbers :
    (b : Bool) (id : ℕ) (shop : Shop) → numbers (enqueue_if b id shop).orders ≡ numbers shop.orders
enqueue_if-numbers true id shop = refl
enqueue_if-numbers false id shop = refl

module _ (p : ShopOrder → Bool) (shop : Shop) where
  -- An order that a query with this test found.
  abbrev IsFound : ShopOrder → Type 0
  IsFound o = find_order p shop.orders ≡ some o

  move-numbers :
      (to : DeliveryStatus) (by : Actor) (o : ShopOrder) (e : Option TransitionError)
      → IsFound o
      → numbers ((move to by p shop o e).1).orders ≡ numbers shop.orders
  unfolding move
  move-numbers to by o (some e) h = refl
  move-numbers to by o none h = numbers-put_order p (moved to by o) shop.orders o h refl

  deliver-numbers :
      (to : DeliveryStatus) (by : Actor) (r : Option ShopOrder)
      → ((o : ShopOrder) → r ≡ some o → IsFound o)
      → numbers ((deliver_found to by p shop r).1).orders ≡ numbers shop.orders
  deliver-numbers to by none g = refl
  deliver-numbers to by (some o) g =
      move-numbers to by o (assert_staff_can_transition o.delivery_status to) (g o refl)

  pay-numbers :
      (s : OrderPaymentStatus) (u : PaymentUpdate) (r : Option ShopOrder)
      → ((o : ShopOrder) → r ≡ some o → IsFound o)
      → numbers ((pay_found s u p shop r).1).orders ≡ numbers shop.orders
  unfolding paid_order
  pay-numbers s u none g = refl
  pay-numbers s u (some o) g =
      enqueue_if-numbers (is_success s) o.id (saved p (paid_order s u o) shop)
      ∙ numbers-put_order p (paid_order s u o) shop.orders o (g o refl) refl

  confirm-numbers :
      (now code : ℕ) (r : Option ShopOrder)
      → ((o : ShopOrder) → r ≡ some o → IsFound o)
      → numbers ((confirm_found now code p shop r).1).orders ≡ numbers shop.orders
  confirm-numbers now code none g = refl
  confirm-numbers now code (some o) g =
      let go =
        move-numbers received customer o (assert_customer_can_transition o.delivery_status received)
          (g o refl) in
      elim (Bool-cases (is_expired now o.token_expires_at)) [
        | inl e ↦ rw e refl
        | inr e ↦ elim (Bool-cases (o.tracking_code == code)) [
          | inl c ↦ rw (e, c) go
          | inr c ↦ rw (e, c) refl
        ]
      ]

module _ (get_product : ℕ → Option Product) where
  create-IsNumbered :
      (body : CreateShopOrderRequest) (c : ℕ) (f : Fresh) (shop : Shop)
      (r : Outcome ShopError (List Product))
      → IsNumbered (numbers shop.orders)
      → IsNumbered (numbers ((create_from body c f shop r).1).orders)
  unfolding add_order new_order next_order_number
  create-IsNumbered body c f shop (err e) h = h
  create-IsNumbered body c f shop (ok ps) h =
      let o = new_order body c f (line_items body.items ps) shop.orders in
      let same =
        enqueue_if-numbers (is_success o.payment_status) o.id
          (record shop { orders = shop.orders ++ (o ∷ []) })
        ∙ numbers-append shop.orders o in
      subst IsNumbered (sym same) (
        next-IsNumbered (numbers shop.orders) o.order_number
          (ap (λ n. n + 1) (sym (count-numbers f.year f.month shop.orders))) h)

  answer-IsNumbered :
      (c : ShopCall) (shop : Shop)
      → IsNumbered (numbers shop.orders)
      → IsNumbered (numbers ((answer get_product c shop).1).orders)
  unfolding answer create_order update_delivery_status update_payment_status confirm_received
  answer-IsNumbered (creates body c f) shop h =
      create-IsNumbered body c f shop (fetch_products get_product body.items) h
  answer-IsNumbered (delivers id to by) shop h =
      subst IsNumbered
        (sym (deliver-numbers (has_id id) shop to (staff by) (get_by_id id shop.orders) (λ o e. e)))
        h
  answer-IsNumbered (pays id s u) shop h =
      subst IsNumbered
        (sym (pay-numbers (has_id id) shop s u (get_by_id id shop.orders) (λ o e. e))) h
  answer-IsNumbered (confirms now token code) shop h =
      subst IsNumbered
        (sym (
          confirm-numbers (has_public_token token) shop now code
            (get_by_public_token token shop.orders) (λ o e. e)))
        h

  run-IsNumbered :
      (calls : List ShopCall) (shop : Shop)
      → IsNumbered (numbers shop.orders)
      → IsNumbered (numbers (run_shop get_product calls shop).orders)
  unfolding run_shop
  run-IsNumbered [] shop h = h
  run-IsNumbered (c ∷ cs) shop h =
      run-IsNumbered cs ((answer get_product c shop).1) (answer-IsNumbered c shop h)

  -- In a shop that starts without orders and is called in any order, one call at a time, no two
  -- orders have the same number, and a number's sequence is at most the number of orders of its month.
  pub run_shop-numbers :
      (calls : List ShopCall) (shop : Shop)
      → shop.orders ≡ []
      → let ns = numbers (run_shop get_product calls shop).orders in
        AreDistinct ns × All (λ n. n.sequence ≤ count_month n.year n.month ns) ns
  run_shop-numbers calls shop e =
      let start : IsNumbered (numbers shop.orders) =
        subst (λ os. IsNumbered (numbers os)) (sym e)
          (unfold numbers in record { distinct = tt; within = tt }) in
      let r = run-IsNumbered calls shop start in (r.distinct, r.within)
