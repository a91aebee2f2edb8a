-- ===== src/Voucher/Delivery/HandedOver.antt =====
-- When the recipient has a voucher whose delivery is scheduled.
use ushbooknpay.Base.{
  ℕ, ◌+◌, ◌≡◌, ◌⊎◌, inl, inr, refl, Bool, true, false, not, ◌&&◌, ◌||◌, Option, none, some, List,
  [], ◌∷◌, ◌++◌, arith, ◌==◌, leb, ltb, Bool-cases,
}
use ushbooknpay.Base.Session.{Outcome, ok, err}
use ushbooknpay.Voucher.Status.{
  GiftVoucherStatus, created, payment_pending, scheduled, active, partially_redeemed, redeemed,
  fulfilled, expired, cancelled, index, validate_transition, allowed_transitions,
}
use ushbooknpay.Voucher.Service.{
  GiftVoucher, StatusUpdate, is_some, schedule_delivery, set_fields, target_of, update_status,
}
use ushbooknpay.Voucher.Delivery.{
  is_scheduled, activate_scheduled_voucher, rescheduled, reschedule_voucher, days,
}

-- A voucher that its recipient has or had.
abbrev pub is_handed_over : GiftVoucherStatus → Bool
is_handed_over s =
    index s == index active
    || (index s == index partially_redeemed
        || (index s == index redeemed || index s == index fulfilled))

-- Where the delivery is for later, the recipient has the voucher only once it is delivered.
abbrev pub IsDelivered : GiftVoucher → Type 0
IsDelivered v =
    (v.is_scheduled_delivery && (is_handed_over v.status && not (is_some v.delivered_at))) ≡ false

-- A voucher that is handed over was active or handed over before.
handed_over :
    (c t : GiftVoucherStatus)
    → validate_transition c t ≡ true
    → is_handed_over t ≡ true
    → (index t ≡ index active) ⊎ (is_handed_over c ≡ true)
unfolding validate_transition allowed_transitions
handed_over active t h k = inr refl
handed_over partially_redeemed t h k = inr refl
handed_over redeemed t h k = inr refl
handed_over fulfilled t h k = inr refl
handed_over created t h k = inl (ground (arith, h, k))
handed_over payment_pending t h k = inl (ground (arith, h, k))
handed_over scheduled t h k = inl (ground (arith, h, k))
handed_over expired t h k = absurd (ground (arith, h, k))
handed_over cancelled t h k = absurd (ground (arith, h, k))

activate-IsDelivered :
    (now : ℕ) (v : GiftVoucher) → IsDelivered v → IsDelivered (activate_scheduled_voucher now v)
unfolding activate_scheduled_voucher
activate-IsDelivered now v h = elim (Bool-cases (is_scheduled v.status)) [
  | inl e ↦ rw e (ground arith)
  | inr e ↦ rw e h
]

module _ (create_voucher_schedule : ℕ → Option ℕ) (update_voucher_schedule : ℕ → ℕ → Bool) where
  -- The fields that a status change sets do not bear on delivery.
  abbrev IsSameDelivery : GiftVoucher → GiftVoucher → Type 0
  IsSameDelivery v w =
      (w.status ≡ v.status)
      × (w.is_scheduled_delivery ≡ v.is_scheduled_delivery)
      × (w.delivered_at ≡ v.delivered_at)

  same-IsDelivered : (v w : GiftVoucher) → IsSameDelivery v w → IsDelivered v → IsDelivered w
  same-IsDelivered v w (status, mode, delivered) h = rw (status, mode, delivered) h

  schedule_delivery-IsSameDelivery :
      (at : Option ℕ) (v : GiftVoucher)
      → v.scheduled_delivery_at ≡ at
      → IsSameDelivery v (schedule_delivery create_voucher_schedule v)
  unfolding schedule_delivery
  schedule_delivery-IsSameDelivery none v e = rw e (refl, refl, refl)
  schedule_delivery-IsSameDelivery (some t) v e =
      elim (Bool-cases (is_some v.delivery_schedule_name)) [
        | inl f ↦ rw (e, f) (refl, refl, refl)
        | inr f ↦ rw (e, f) (refl, refl, refl)
      ]

  set_fields-IsSameDelivery :
      (u : StatusUpdate) (t : GiftVoucherStatus) (v : GiftVoucher)
      → IsSameDelivery v (set_fields create_voucher_schedule u t v)
  unfolding set_fields
  set_fields-IsSameDelivery u t v = elim (Bool-cases (index t == index active)) [
    | inl e ↦ rw e (refl, refl, refl)
    | inr e ↦ elim (Bool-cases (index t == index scheduled)) [
      | inl f ↦ rw (e, f) (schedule_delivery-IsSameDelivery v.scheduled_delivery_at _ refl)
      | inr f ↦ elim (Bool-cases (index t == index redeemed)) [
        | inl g ↦ rw (e, f, g) (refl, refl, refl)
        | inr g ↦ rw (e, f, g) (refl, refl, refl)
      ]
    ]
  ]

  target-IsDelivered :
      (new : GiftVoucherStatus) (v : GiftVoucher)
      → validate_transition v.status (target_of create_voucher_schedule new v) ≡ true
      → IsDelivered v
      → (v.is_scheduled_delivery
          && (is_handed_over (target_of create_voucher_schedule new v)
              && not (is_some v.delivered_at)))
        ≡ false
  target-IsDelivered new v valid h =
      elim (Bool-cases
        (index new == index active && (v.is_scheduled_delivery && not (is_some v.delivered_at)))) [
          | inl f ↦ rw f (ground arith)
          | inr f ↦
              let valid' : validate_transition v.status new ≡ true = rw f at valid in
              rw f (elim (Bool-cases (is_handed_over new)) [
                | inr k ↦ ground (arith, k)
                | inl k ↦ elim (handed_over v.status new valid' k) [
                  | inl same ↦ ground (arith, f, same)
                  | inr was ↦ ground (arith, h, was)
                ]
              ])
        ]

  -- A call that raises leaves the voucher as it was.
  abbrev pub kept_or : {E : Type 0} → GiftVoucher → Outcome E GiftVoucher → GiftVoucher
  kept_or v (ok w) = w
  kept_or v (err e) = v

  update_status-IsDelivered :
      (u : StatusUpdate) (new : GiftVoucherStatus) (v : GiftVoucher)
      → IsDelivered v
      → IsDelivered (kept_or v (update_status create_voucher_schedule u new v))
  unfolding update_status
  update_status-IsDelivered u new v h =
      elim (Bool-cases (validate_transition v.status (target_of create_voucher_schedule new v))) [
        | inr e ↦ rw e h
        | inl e ↦
            let target = target_of create_voucher_schedule new v in
            let v' = record v {
              status = target;
              update_history = v.update_history ++ (some (v.status, target) ∷ []);
            } in
            rw e (
              same-IsDelivered v' (set_fields create_voucher_schedule u target v')
                (set_fields-IsSameDelivery u target v') (target-IsDelivered new v e h))
      ]

  rescheduled-IsDelivered :
      (at : ℕ) (name : Option ℕ) (v : GiftVoucher)
      → IsDelivered v
      → IsDelivered
          (kept_or v (rescheduled create_voucher_schedule update_voucher_schedule at name v))
  rescheduled-IsDelivered at none v h = h
  rescheduled-IsDelivered at (some name) v h = h

  reschedule-IsDelivered :
      (now at : ℕ) (v : GiftVoucher)
      → IsDelivered v
      → IsDelivered
          (kept_or v (reschedule_voucher create_voucher_schedule update_voucher_schedule now at v))
  unfolding reschedule_voucher
  reschedule-IsDelivered now at v h = elim (Bool-cases (is_scheduled v.status)) [
    | inr e ↦ rw e h
    | inl e ↦ elim (Bool-cases (leb at now)) [
      | inl f ↦ rw (e, f) h
      | inr f ↦ elim (Bool-cases (ltb (now + days 62) at)) [
        | inl g ↦ rw (e, f, g) h
        | inr g ↦ rw (e, f, g) (rescheduled-IsDelivered at _ v h)
      ]
    ]
  ]

-- What happens to a voucher before it is used: a change of status, the scheduler's call, a new time.
pub data DeliveryStep : Type 0 where
  changes : StatusUpdate → GiftVoucherStatus → DeliveryStep
  activates : ℕ → DeliveryStep
  moves : ℕ → ℕ → DeliveryStep

module _ (create_voucher_schedule : ℕ → Option ℕ) (update_voucher_schedule : ℕ → ℕ → Bool) where
  abbrev pub delivery_step : DeliveryStep → GiftVoucher → GiftVoucher
  delivery_step (changes u new) v =
      kept_or create_voucher_schedule update_voucher_schedule v
        (update_status create_voucher_schedule u new v)
  delivery_step (activates now) v = activate_scheduled_voucher now v
  delivery_step (moves now at) v =
      kept_or create_voucher_schedule update_voucher_schedule v
        (reschedule_voucher create_voucher_schedule update_voucher_schedule now at v)

  unfoldable pub run_delivery : List DeliveryStep → GiftVoucher → GiftVoucher
  run_delivery [] v = v
  run_delivery (e ∷ rest) v = run_delivery rest (delivery_step e v)

  -- A voucher whose delivery is for later is handed over (active, partially redeemed, redeemed or
  -- fulfilled) only once it is delivered: if that is so before, it is so after any sequence of status
  -- changes through update_status, also to active by a payment, calls of the scheduler, and new times,
  -- whether they are accepted or refused.
  pub run_delivery-IsDelivered :
      (steps : List DeliveryStep) (v : GiftVoucher)
      → IsDelivered v
      → IsDelivered (run_delivery steps v)
  unfolding run_delivery
  run_delivery-IsDelivered [] v h = h
  run_delivery-IsDelivered (changes u new ∷ rest) v h =
      run_delivery-IsDelivered rest _
        (update_status-IsDelivered create_voucher_schedule update_voucher_schedule u new v h)
  run_delivery-IsDelivered (activates now ∷ rest) v h =
      run_delivery-IsDelivered rest _ (activate-IsDelivered now v h)
  run_delivery-IsDelivered (moves now at ∷ rest) v h =
      run_delivery-IsDelivered rest _
        (reschedule-IsDelivered create_voucher_schedule update_voucher_schedule now at v h)
