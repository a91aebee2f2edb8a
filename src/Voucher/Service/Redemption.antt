-- ===== src/Voucher/Service/Redemption.antt =====
-- What redemptions through `update_voucher` of app/voucher/application/voucher_service.py accept and keep.
use ushbooknpay.Base.{
  ℕ, ◌<◌, ◌≡◌, ◌↔◌, inl, inr, refl, sym, ap, ◌∙◌, Bool, true, false, Option, some, List, [], ◌∷◌,
  ◌++◌, arith, length, map, all, All, Bool-cases, if◌then◌else◌,
}
use ushbooknpay.Base.Session.{Outcome, ok, err, err-ok, ok-ok}
use ushbooknpay.Voucher.Status.{
  GiftVoucherStatus, created, payment_pending, scheduled, active, partially_redeemed, redeemed,
  fulfilled, expired, cancelled, validate_transition, allowed_transitions,
}
use ushbooknpay.Voucher.Service.{
  GiftVoucher, VoucherError, nothing_redeemed, not_redeemable, Updates, is_member, take_services,
  is_redeemable, gifted_ids, ids_redeemed, used_service_ids, add_redemption, redeem,
  redeemed_status, set_status, apply_remaining, and_remaining, update_voucher, record_services,
  marked, requested,
}
use ushbooknpay.Voucher.Service.Ids.{
  IsDistinct, ids_redeemed-append, IsOpen, take_services-takable, take_services-taken,
  IsTakable-sound, sound-IsTakable,
}

-- What the status branch makes of a voucher that a redemption has been added to.
abbrev IsMarked : GiftVoucher → GiftVoucherStatus → GiftVoucher → Type 0
IsMarked v target w =
    (w.status ≡ target) × (w.services ≡ v.services) × (w.redemptions ≡ v.redemptions)

set_status-redeemed :
    (u : Updates) (old : GiftVoucherStatus) (all_used : Bool) (v : GiftVoucher)
    → is_redeemable old ≡ true
    → v.status ≡ old
    → (w : GiftVoucher) × (set_status u old
          (some (if all_used then redeemed else partially_redeemed))
          v
        ≡ ok w)
      × IsMarked v (if all_used then redeemed else partially_redeemed) w
unfolding set_status validate_transition allowed_transitions
set_status-redeemed u active true v live same = (_, refl, (refl, refl, refl))
set_status-redeemed u active false v live same = (_, refl, (refl, refl, refl))
set_status-redeemed u partially_redeemed true v live same = (_, refl, (refl, refl, refl))
set_status-redeemed u partially_redeemed false v live same = (_, refl, (same, refl, refl))
set_status-redeemed u created b v live same = absurd (ground arith)
set_status-redeemed u payment_pending b v live same = absurd (ground arith)
set_status-redeemed u scheduled b v live same = absurd (ground arith)
set_status-redeemed u redeemed b v live same = absurd (ground arith)
set_status-redeemed u fulfilled b v live same = absurd (ground arith)
set_status-redeemed u expired b v live same = absurd (ground arith)
set_status-redeemed u cancelled b v live same = absurd (ground arith)

module _ (u : Updates) (v : GiftVoucher) where
  -- The voucher after a redemption that takes these ids.
  abbrev pub IsRedeemed : List ℕ → GiftVoucher → Type 0
  IsRedeemed is w =
      (w.services ≡ v.services)
      × (used_service_ids w ≡ used_service_ids v ++ is)
      × (w.status ≡ redeemed_status (gifted_ids v) (used_service_ids v ++ is))

  marked-IsRedeemed :
      (i : ℕ) (is : List ℕ)
      → is_redeemable v.status ≡ true
      → (w : GiftVoucher) × (marked u v.status (record_services u v (ok (i ∷ is))) ≡ ok w)
        × IsRedeemed (i ∷ is) w
  unfolding record_services add_redemption
  marked-IsRedeemed i is live =
      let (w, same, (status, services, redemptions)) =
        set_status-redeemed u v.status
          (all (λ j. is_member j (used_service_ids v ++ (i ∷ is))) (gifted_ids v))
          (add_redemption u (i ∷ is) v) live refl in
      (
        apply_remaining u w,
        ap (and_remaining u) same,
        (services, ap ids_redeemed redemptions ∙ ids_redeemed-append v.redemptions _, status),
      )

  module _ (items : List (Option ℕ)) (asked : u.redemption ≡ some items) where
    taken : Outcome VoucherError (List ℕ)
    taken = take_services (gifted_ids v) (used_service_ids v) [] items

    update_redeem : update_voucher u v ≡ marked u v.status (redeem u items v)
    unfolding update_voucher
    update_redeem = ap (λ o. marked u v.status (requested u v o)) asked

    redeem_live : is_redeemable v.status ≡ true → redeem u items v ≡ record_services u v taken
    unfolding redeem taken
    redeem_live live = rw live refl

    redeem_dead : is_redeemable v.status ≡ false → redeem u items v ≡ err not_redeemable
    unfolding redeem
    redeem_dead dead = rw dead refl

    redeem_taken :
        (i : ℕ) (is : List ℕ)
        → is_redeemable v.status ≡ true
        → taken ≡ ok (i ∷ is)
        → (w : GiftVoucher) × (update_voucher u v ≡ ok w) × IsRedeemed (i ∷ is) w
    redeem_taken i is live h =
        let (w, same, facts) = marked-IsRedeemed i is live in
        (
          w,
          update_redeem
              ∙ ap (marked u v.status) (redeem_live live ∙ ap (record_services u v) h)
              ∙ same,
          facts,
        )

    marked_ok :
        (r : Outcome VoucherError (List ℕ)) (w : GiftVoucher)
        → marked u v.status (record_services u v r) ≡ ok w
        → (i : ℕ) × (is : List ℕ) × (r ≡ ok (i ∷ is))
    unfolding record_services
    marked_ok (err e) w h = absurd (err-ok e w _ refl h)
    marked_ok (ok []) w h = absurd (err-ok nothing_redeemed w _ refl h)
    marked_ok (ok (i ∷ is)) w h = (i, is, refl)

    update_taken :
        (w : GiftVoucher)
        → update_voucher u v ≡ ok w
        → (is_redeemable v.status ≡ true) × ((i : ℕ) × (is : List ℕ) × (taken ≡ ok (i ∷ is)))
    update_taken w h = elim (Bool-cases (is_redeemable v.status)) [
      | inl live ↦ (
        live,
        marked_ok taken w (ap (marked u v.status) (sym (redeem_live live)) ∙ sym update_redeem ∙ h),
      )
      | inr dead ↦ absurd (
          err-ok not_redeemable w (update_voucher u v)
            (update_redeem ∙ ap (marked u v.status) (redeem_dead dead)) h)
    ]

    -- Ids that the voucher gives and that nobody has used, none of them twice.
    abbrev pub IsRedemption : List ℕ → Type 0
    IsRedemption is =
        (items ≡ map some is)
        × (0 < length is)
        × IsDistinct is
        × All (IsOpen (gifted_ids v) (used_service_ids v)) is

    taken-IsRedemption : (is : List ℕ) → 0 < length is → taken ≡ ok is → IsRedemption is
    unfolding taken
    taken-IsRedemption is pos h =
        let (js, same, sum, takable) =
          take_services-taken (gifted_ids v) (used_service_ids v) [] is items h in
        let sound = IsTakable-sound (gifted_ids v) (used_service_ids v) [] js takable tt in
        (rw sum same, pos, rw sum sound.0, rw sum sound.1)

    pub redeemed_lem :
        (w : GiftVoucher)
        → update_voucher u v ≡ ok w
        → (is_redeemable v.status ≡ true) × ((is : List ℕ) × IsRedemption is × IsRedeemed is w)
    redeemed_lem w h =
        let (live, (i, is, took)) = update_taken w h in
        let (w', same, facts) = redeem_taken i is live took in
        (
          live,
          (
            i ∷ is,
            taken-IsRedemption (i ∷ is) (omega arith) took,
            rw (ok-ok w w' (update_voucher u v) h same) facts,
          ),
        )

    redemption_taken : (is : List ℕ) → IsRedemption is → taken ≡ ok is
    unfolding taken
    redemption_taken is (same, pos, distinct, unused) =
        ap (take_services (gifted_ids v) (used_service_ids v) []) same
        ∙ take_services-takable (gifted_ids v) (used_service_ids v) [] is
            (sound-IsTakable (gifted_ids v) (used_service_ids v) [] is distinct unused)

    redemption_accepted :
        (is : List ℕ)
        → IsRedemption is
        → is_redeemable v.status ≡ true
        → (w : GiftVoucher) × (update_voucher u v ≡ ok w)
    redemption_accepted [] h live = (let (same, pos, distinct, unused) = h in absurd (omega arith))
    redemption_accepted (i ∷ is) h live =
        let (w, same, facts) = redeem_taken i is live (redemption_taken (i ∷ is) h) in (w, same)

    -- A redemption is accepted exactly if the voucher is active or partially redeemed, and the services
    -- asked for are one at least, all gifted with the voucher, none redeemed before and none named twice.
    pub update_voucher_iff :
        ((w : GiftVoucher) × (update_voucher u v ≡ ok w))
        ↔ ((is_redeemable v.status ≡ true) × ((is : List ℕ) × IsRedemption is))
    update_voucher_iff = (
      λ (w, h). let (live, (is, sound, facts)) = redeemed_lem w h in (live, (is, sound)),
      λ (live, (is, sound)). redemption_accepted is sound live,
    )
