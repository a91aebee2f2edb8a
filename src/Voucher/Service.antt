-- ===== src/Voucher/Service.antt =====
-- `update_status`, and the redemption and status branches of `update_voucher`, of
-- app/voucher/application/voucher_service.py, with `used_service_ids` and `remaining_service_ids` of
-- app/voucher/domain/services_snapshot.py. Ids, texts and names are numbers; instants are microseconds.
pub mod Ids
pub mod Redemption
pub mod Remaining
use ushbooknpay.Base.{
  ℕ, ◌≡◌, Bool, true, false, not, ◌&&◌, ◌||◌, Option, none, some, List, [], ◌∷◌, ◌++◌, ◌==◌, any,
  all, keep, if◌then◌else◌,
}
use ushbooknpay.Base.Session.{Outcome, ok, err}
use ushbooknpay.Voucher.Status.{
  GiftVoucherStatus, scheduled, active, partially_redeemed, redeemed, cancelled, index, is_in,
  validate_transition,
}

-- A record of `redemptions`; the services are the ids of its entries.
pub record RedemptionRecord : Type 0 where
  pub booking_id : Option ℕ
  pub redeemed_at : ℕ
  pub redeemed_by : Option ℕ
  pub services : List ℕ

-- The columns that the calls decide by or write; `services` are the ids of `voucher_services_of`, and
-- an entry without one is `none`.
pub record GiftVoucher : Type 0 where
  pub status : GiftVoucherStatus
  pub is_scheduled_delivery : Bool
  pub delivered_at : Option ℕ
  pub scheduled_delivery_at : Option ℕ
  pub expire_date : ℕ
  pub reschedule_count : ℕ
  pub delivery_schedule_name : Option ℕ
  pub payment_id : Option ℕ
  pub services : List (Option ℕ)
  pub redemptions : List RedemptionRecord
  pub redeemed_at : Option ℕ
  pub redeemed_booking_id : Option ℕ
  pub booking_id : Option ℕ
  pub redeemed_by : Option ℕ
  pub update_history : List (Option (GiftVoucherStatus × GiftVoucherStatus))

-- `ValidationError`s
pub data VoucherError : Type 0 where
  illegal_transition not_redeemable nothing_redeemed : VoucherError
  not_of_voucher already_redeemed : Option ℕ → VoucherError

abbrev pub given : Option ℕ → Option ℕ → Option ℕ
given none old = old
given (some x) old = some x

abbrev pub is_some {ℓ} : {A : Type ℓ} → Option A → Bool
is_some none = false
is_some (some _) = true

abbrev pub is_member : ℕ → List ℕ → Bool
is_member i xs = any (λ x. x == i) xs

abbrev pub record_redeemed : ℕ → Option ℕ → Option ℕ → GiftVoucher → GiftVoucher
record_redeemed now booking by v = record v {
  redeemed_at = some now;
  redeemed_booking_id = given booking v.redeemed_booking_id;
  booking_id = given booking v.booking_id;
  redeemed_by = given by v.redeemed_by;
}

-- What `update_status` is called with.
pub record StatusUpdate : Type 0 where
  pub now : ℕ
  pub payment_id : Option ℕ
  pub booking_id : Option ℕ
  pub redeemed_by : Option ℕ

-- The scheduler's client: the name of the schedule for an instant, or its exception.
module _ (create_voucher_schedule : ℕ → Option ℕ) where
  -- `if voucher.scheduled_delivery_at and not voucher.delivery_schedule_name`
  unfoldable pub schedule_delivery : GiftVoucher → GiftVoucher
  schedule_delivery v = elim v.scheduled_delivery_at [
    | none ↦ v
    | some at ↦
        if is_some v.delivery_schedule_name
        then v
        else record v { delivery_schedule_name = create_voucher_schedule at }
  ]

  -- The fields that go with the status; deleting the schedule of a cancelled voucher changes no column.
  unfoldable pub set_fields : StatusUpdate → GiftVoucherStatus → GiftVoucher → GiftVoucher
  unfolding schedule_delivery
  set_fields u target v =
      let paid = record v { payment_id = given u.payment_id v.payment_id } in
      if index target == index active
      then paid
      else if index target == index scheduled
      then schedule_delivery paid
      else if index target == index redeemed
      then record_redeemed u.now u.booking_id u.redeemed_by v
      else v

  -- A paid voucher whose delivery is for later becomes scheduled instead of active.
  abbrev pub target_of : GiftVoucherStatus → GiftVoucher → GiftVoucherStatus
  target_of new v =
      if index new == index active && (v.is_scheduled_delivery && not (is_some v.delivered_at))
      then scheduled
      else new

  unfoldable pub update_status :
      StatusUpdate → GiftVoucherStatus → GiftVoucher → Outcome VoucherError GiftVoucher
  unfolding set_fields
  update_status u new v =
      let target = target_of new v in
      if validate_transition v.status target
      then ok (
          set_fields u target (record v {
            status = target;
            update_history = v.update_history ++ (some (v.status, target) ∷ []);
          }))
      else err illegal_transition

-- `[str(e["service_id"]) for e in voucher_services_of(voucher) if e.get("service_id")]`
unfoldable pub ids_of : List (Option ℕ) → List ℕ
ids_of [] = []
ids_of (none ∷ es) = ids_of es
ids_of (some i ∷ es) = i ∷ ids_of es

abbrev pub gifted_ids : GiftVoucher → List ℕ
gifted_ids v = ids_of v.services

unfoldable pub ids_redeemed : List RedemptionRecord → List ℕ
ids_redeemed [] = []
ids_redeemed (r ∷ rest) = r.services ++ ids_redeemed rest

-- A set in the source.
abbrev pub used_service_ids : GiftVoucher → List ℕ
used_service_ids v = ids_redeemed v.redemptions

unfoldable pub remaining_service_ids : GiftVoucher → List ℕ
remaining_service_ids v = keep (λ i. not (is_member i (used_service_ids v))) (gifted_ids v)

-- The loop over the services of a redemption; an item without an id is `none`.
unfoldable pub take_services :
    List ℕ → List ℕ → List ℕ → List (Option ℕ) → Outcome VoucherError (List ℕ)
take_services all_ids already_used new_ids [] = ok new_ids
take_services all_ids already_used new_ids (none ∷ items) = err (not_of_voucher none)
take_services all_ids already_used new_ids (some sid ∷ items) =
    let rest = take_services all_ids already_used (new_ids ++ (sid ∷ [])) items in
    if not (is_member sid all_ids)
    then err (not_of_voucher (some sid))
    else if is_member sid already_used || is_member sid new_ids
    then err (already_redeemed (some sid))
    else rest

-- What `update_voucher` is called with: `redemption` has the ids of its services. A key that is not
-- among the updates is `none`. A booking named inside the redemption, details of the voucher and the
-- delivery status are left out; new services stand beside the record, for `update_with_services`.
pub record Updates : Type 0 where
  pub now : ℕ
  pub redemption : Option (List (Option ℕ))
  pub status : Option GiftVoucherStatus
  pub booking_id : Option ℕ
  pub redeemed_by : Option ℕ
  pub payment_id : Option ℕ

unfoldable pub add_redemption : Updates → List ℕ → GiftVoucher → GiftVoucher
add_redemption u new_ids v = record_redeemed u.now u.booking_id u.redeemed_by (record v {
  redemptions =
      v.redemptions
      ++ (record {
        booking_id = u.booking_id;
        redeemed_at = u.now;
        redeemed_by = u.redeemed_by;
        services = new_ids;
      }
          ∷ []);
})

abbrev pub redeemed_status : List ℕ → List ℕ → GiftVoucherStatus
redeemed_status all_ids all_used =
    if all (λ i. is_member i all_used) all_ids then redeemed else partially_redeemed

abbrev pub is_redeemable : GiftVoucherStatus → Bool
is_redeemable s = is_in s (active ∷ partially_redeemed ∷ [])

-- The end of the redemption branch: the voucher with the record added, and the status it calls for.
unfoldable pub record_services :
    Updates
    → GiftVoucher
    → Outcome VoucherError (List ℕ)
    → Outcome VoucherError (GiftVoucher × Option GiftVoucherStatus)
unfolding add_redemption
record_services u v (err e) = err e
record_services u v (ok []) = err nothing_redeemed
record_services u v (ok (i ∷ is)) = ok (
  add_redemption u (i ∷ is) v,
  some (redeemed_status (gifted_ids v) (used_service_ids v ++ (i ∷ is))),
)

unfoldable pub redeem :
    Updates
    → List (Option ℕ)
    → GiftVoucher
    → Outcome VoucherError (GiftVoucher × Option GiftVoucherStatus)
unfolding record_services take_services
redeem u items v =
    if is_redeemable v.status
    then record_services u v (take_services (gifted_ids v) (used_service_ids v) [] items)
    else err not_redeemable

abbrev pub pay_or_redeem : Updates → GiftVoucherStatus → GiftVoucher → GiftVoucher
pay_or_redeem u target v =
    if index target == index active
    then record v { payment_id = given u.payment_id v.payment_id }
    else if index target == index redeemed
    then record_redeemed u.now u.booking_id u.redeemed_by v
    else v

-- The status branch, and the fields that the last step writes; `old` is the status before the call.
unfoldable pub set_status :
    Updates
    → GiftVoucherStatus
    → Option GiftVoucherStatus
    → GiftVoucher
    → Outcome VoucherError GiftVoucher
set_status u old none v = ok (record v { update_history = v.update_history ++ (none ∷ []) })
set_status u old (some target) v =
    if index target == index old
    then ok (record v { update_history = v.update_history ++ (none ∷ []) })
    else if validate_transition old target
    then ok (
        pay_or_redeem u target (record v {
          status = target;
          update_history = v.update_history ++ (some (old, target) ∷ []);
        }))
    else err illegal_transition

abbrev pub apply_remaining : Updates → GiftVoucher → GiftVoucher
apply_remaining u v = record v {
  booking_id = given u.booking_id v.booking_id;
  redeemed_by = given u.redeemed_by v.redeemed_by;
  payment_id = given u.payment_id v.payment_id;
}

abbrev pub and_remaining :
    Updates → Outcome VoucherError GiftVoucher → Outcome VoucherError GiftVoucher
and_remaining u (err e) = err e
and_remaining u (ok v) = ok (apply_remaining u v)

-- The voucher and the status that the status branch goes on with.
abbrev pub requested :
    Updates
    → GiftVoucher
    → Option (List (Option ℕ))
    → Outcome VoucherError (GiftVoucher × Option GiftVoucherStatus)
requested u v none = ok (v, u.status)
requested u v (some items) = redeem u items v

abbrev pub marked :
    Updates
    → GiftVoucherStatus
    → Outcome VoucherError (GiftVoucher × Option GiftVoucherStatus)
    → Outcome VoucherError GiftVoucher
marked u old (err e) = err e
marked u old (ok (v, target)) = and_remaining u (set_status u old target v)

unfoldable pub update_voucher : Updates → GiftVoucher → Outcome VoucherError GiftVoucher
unfolding redeem set_status
update_voucher u v = marked u v.status (requested u v u.redemption)

-- Step 3b: the entries that `normalise_services` gives, where there are any, take the place of the old.
abbrev pub replaced :
    List (Option ℕ) → Outcome VoucherError GiftVoucher → Outcome VoucherError GiftVoucher
replaced [] r = r
replaced (e ∷ es) (err x) = err x
replaced (e ∷ es) (ok w) = ok (record w { services = e ∷ es })

-- `update_voucher` with the key `services` too, which no other step reads.
unfoldable pub update_with_services :
    List (Option ℕ) → Updates → GiftVoucher → Outcome VoucherError GiftVoucher
unfolding update_voucher
update_with_services entries u v = replaced entries (update_voucher u v)
