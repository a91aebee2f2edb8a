-- ===== src/Voucher/Tests.antt =====
-- A voucher of two services, worked through.
use ushbooknpay.Base.{ℕ, Bool, ◌≡◌, refl, ◌↔◌, true, false, none, some, Option, List, [], ◌∷◌, ◌++◌}
use ushbooknpay.Base.Session.{ok}
use ushbooknpay.Voucher.Status.{
  payment_pending, active, partially_redeemed, redeemed, validate_transition, allowed_transitions,
}
use ushbooknpay.Voucher.Service.{
  GiftVoucher, StatusUpdate, update_status, set_fields, schedule_delivery, Updates, is_redeemable,
  remaining_service_ids, gifted_ids, update_voucher, update_with_services, redeem, record_services,
  take_services, add_redemption, set_status, ids_of, ids_redeemed,
}
use ushbooknpay.Voucher.Delivery.{reschedule_voucher, activate_scheduled_voucher}
use ushbooknpay.Voucher.Delivery.HandedOver.{
  IsDelivered, DeliveryStep, changes, activates, moves, run_delivery, run_delivery-IsDelivered,
}
use ushbooknpay.Voucher.Service.Redemption.{IsRedemption, update_voucher_iff}
use ushbooknpay.Voucher.Service.Remaining.{
  Call, new_services, IsSound, run_updates, run_updates-IsSound,
}

abbrev gift : GiftVoucher
gift = record {
  status = active;
  is_scheduled_delivery = false;
  delivered_at = none;
  scheduled_delivery_at = none;
  expire_date = 9000;
  reschedule_count = 0;
  delivery_schedule_name = none;
  payment_id = some 11;
  services = some 1 ∷ some 2 ∷ [];
  redemptions = [];
  redeemed_at = none;
  redeemed_booking_id = none;
  booking_id = none;
  redeemed_by = none;
  update_history = [];
}

abbrev redeeming : List (Option ℕ) → Updates
redeeming items = record {
  now = 1000;
  redemption = some items;
  status = none;
  booking_id = some 9;
  redeemed_by = some 4;
  payment_id = none;
}

abbrev half : List (Option ℕ)
half = some 2 ∷ []

update_voucher_iff_example : ((w : GiftVoucher) × (update_voucher (redeeming half) gift ≡ ok w)) ↔ (
    (is_redeemable active ≡ true)
    × ((is : List ℕ) × IsRedemption (redeeming half) gift half refl is))
update_voucher_iff_example = update_voucher_iff (redeeming half) gift half refl

abbrev half_redeemed : GiftVoucher
half_redeemed = record gift {
  status = partially_redeemed;
  redemptions =
      record { booking_id = some 9; redeemed_at = 1000; redeemed_by = some 4; services = 2 ∷ [] }
      ∷ [];
  redeemed_at = some 1000;
  redeemed_booking_id = some 9;
  booking_id = some 9;
  redeemed_by = some 4;
  update_history = some (active, partially_redeemed) ∷ [];
}

abbrev updates : List Call
updates =
    ([], redeeming half)
    ∷ (some 1 ∷ some 5 ∷ [], redeeming half)
    ∷ (some 1 ∷ some 7 ∷ [], redeeming (some 1 ∷ []))
    ∷ []

run_updates-IsSound_example :
    IsSound (gifted_ids gift ++ new_services updates) (run_updates updates gift)
unfolding ids_redeemed
run_updates-IsSound_example = run_updates-IsSound updates gift tt tt

-- The second call is refused. The third redeems what is left and gives another service, which remains
-- although the voucher is then redeemed.
all_redeemed :
    ((run_updates updates gift).status ≡ redeemed)
    × (remaining_service_ids (run_updates updates gift) ≡ 7 ∷ [])
unfolding run_updates update_with_services update_voucher redeem record_services take_services
    add_redemption set_status ids_of ids_redeemed validate_transition allowed_transitions
    remaining_service_ids
all_redeemed = (refl, refl)

-- Paid before its delivery, moved once, and delivered.
abbrev later_gift : GiftVoucher
later_gift = record gift {
  status = payment_pending;
  is_scheduled_delivery = true;
  scheduled_delivery_at = some 5000;
}

abbrev payment_update : StatusUpdate
payment_update = record { now = 100; payment_id = some 11; booking_id = none; redeemed_by = none }

abbrev deliveries : List DeliveryStep
deliveries = changes payment_update active ∷ moves 200 9000 ∷ activates 9000 ∷ []

abbrev names_schedule : ℕ → Option ℕ
names_schedule t = some 3

abbrev accepts_update : ℕ → ℕ → Bool
accepts_update name t = true

run_delivery-IsDelivered_example :
    IsDelivered (run_delivery names_schedule accepts_update deliveries later_gift)
run_delivery-IsDelivered_example =
    run_delivery-IsDelivered names_schedule accepts_update deliveries later_gift refl

-- Active in the end, by way of scheduled.
delivered_gift : (run_delivery names_schedule accepts_update deliveries later_gift).status ≡ active
unfolding run_delivery update_status set_fields schedule_delivery validate_transition
    allowed_transitions reschedule_voucher activate_scheduled_voucher
delivered_gift = refl
