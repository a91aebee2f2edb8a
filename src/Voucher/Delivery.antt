-- ===== src/Voucher/Delivery.antt =====
-- The scheduled delivery of a voucher: `activate_scheduled_voucher` and `reschedule_voucher` of
-- app/voucher/application/voucher_service.py, beside its `update_status`. A time to deliver at is the
-- instant that its Kuwait time denotes.
pub mod HandedOver
use ushbooknpay.Base.{
  ℕ, ◌+◌, ◌*◌, ◌≡◌, ◌⊎◌, inl, inr, refl, Bool, true, false, not, ◌&&◌, ◌||◌, Option, none, some,
  List, [], ◌∷◌, ◌++◌, arith, ◌==◌, leb, ltb, Bool-cases, if◌then◌else◌,
}
use ushbooknpay.Base.Session.{Outcome, ok, err}
use ushbooknpay.Voucher.Status.{
  GiftVoucherStatus, created, payment_pending, scheduled, active, partially_redeemed, redeemed,
  fulfilled, expired, cancelled, index, validate_transition, allowed_transitions,
}
use ushbooknpay.Voucher.Service.{
  GiftVoucher, VoucherError, StatusUpdate, is_some, schedule_delivery, set_fields, target_of,
  update_status,
}

abbrev pub days : ℕ → ℕ
days n = n * 86400000000

abbrev pub is_scheduled : GiftVoucherStatus → Bool
is_scheduled s = index s == index scheduled

-- A voucher that is not scheduled is returned as it is.
unfoldable pub activate_scheduled_voucher : ℕ → GiftVoucher → GiftVoucher
activate_scheduled_voucher now v =
    if is_scheduled v.status
    then record v {
      status = active;
      delivered_at = some now;
      expire_date = now + days 60;
      update_history = v.update_history ++ (some (scheduled, active) ∷ []);
    }
    else v

pub data RescheduleError : Type 0 where
  not_scheduled not_in_future too_far scheduler_error : RescheduleError

-- The scheduler's client: the name of a new schedule, and whether a schedule could be changed.
module _ (create_voucher_schedule : ℕ → Option ℕ) (update_voucher_schedule : ℕ → ℕ → Bool) where
  abbrev pub schedule_at : ℕ → Option ℕ → Option ℕ
  schedule_at at none = create_voucher_schedule at
  schedule_at at (some name) = if update_voucher_schedule name at then some name else none

  abbrev pub rescheduled : ℕ → Option ℕ → GiftVoucher → Outcome RescheduleError GiftVoucher
  rescheduled at none v = err scheduler_error
  rescheduled at (some name) v = ok (record v {
    delivery_schedule_name = some name;
    scheduled_delivery_at = some at;
    reschedule_count = v.reschedule_count + 1;
    update_history = v.update_history ++ (none ∷ []);
  })

  unfoldable pub reschedule_voucher : ℕ → ℕ → GiftVoucher → Outcome RescheduleError GiftVoucher
  reschedule_voucher now at v =
      if not (is_scheduled v.status)
      then err not_scheduled
      else if leb at now
      then err not_in_future
      else if ltb (now + days 62) at
      then err too_far
      else rescheduled at (schedule_at at v.delivery_schedule_name) v
