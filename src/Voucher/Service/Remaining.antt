-- ===== src/Voucher/Service/Remaining.antt =====
-- What remains of a voucher, over any updates through `update_voucher` of
-- app/voucher/application/voucher_service.py.
use ushbooknpay.Base.{
  ℕ, ◌≡◌, inl, inr, refl, sym, ap, ◌∙◌, true, Option, none, some, List, [], ◌∷◌, ◌++◌, arith, ◌==◌,
  All, All-append, append-All, append_nil, Bool-cases, Option-cases,
}
use mathlib.Core.Path.{subst}
use ushbooknpay.Base.Pairs.{All-map}
use ushbooknpay.Base.Session.{Outcome, ok, err, err-ok, ok-ok}
use ushbooknpay.Voucher.Status.{GiftVoucherStatus, active, redeemed, index, validate_transition}
use ushbooknpay.Voucher.Service.{
  GiftVoucher, VoucherError, illegal_transition, Updates, is_member, gifted_ids, used_service_ids,
  set_status, pay_or_redeem, apply_remaining, and_remaining, update_voucher, marked, requested,
  ids_of, replaced, update_with_services,
}
use ushbooknpay.Voucher.Service.Ids.{IsDistinct, IsDistinct-append}
use ushbooknpay.Voucher.Service.Redemption.{redeemed_lem}

-- No service is redeemed twice, and those that are redeemed or gifted are among `given`.
abbrev pub IsSound : List ℕ → GiftVoucher → Type 0
IsSound given v =
    IsDistinct (used_service_ids v)
    × All (λ i. is_member i given ≡ true) (used_service_ids v)
    × All (λ i. is_member i given ≡ true) (gifted_ids v)

is_member-All :
    (given xs : List ℕ) (i : ℕ)
    → All (λ j. is_member j given ≡ true) xs
    → is_member i xs ≡ true
    → is_member i given ≡ true
is_member-All given [] i h k = absurd (cc)
is_member-All given (x ∷ xs) i h k = elim (Bool-cases (x == i)) [
  | inl e ↦ subst (λ j. is_member j given ≡ true) (ground (arith, e)) h.0
  | inr e ↦ is_member-All given xs i h.1 (rw e at k)
]

abbrev IsKept : GiftVoucher → GiftVoucher → Type 0
IsKept v w = (w.services ≡ v.services) × (w.redemptions ≡ v.redemptions)

pay_or_redeem-IsKept :
    (u : Updates) (target : GiftVoucherStatus) (v : GiftVoucher)
    → IsKept v (pay_or_redeem u target v)
pay_or_redeem-IsKept u target v = elim (Bool-cases (index target == index active)) [
  | inl e ↦ rw e (refl, refl)
  | inr e ↦ elim (Bool-cases (index target == index redeemed)) [
    | inl f ↦ rw (e, f) (refl, refl)
    | inr f ↦ rw (e, f) (refl, refl)
  ]
]

kept_of :
    (v x w : GiftVoucher) (r : Outcome VoucherError GiftVoucher)
    → IsKept v x
    → r ≡ ok x
    → r ≡ ok w
    → IsKept v w
kept_of v x w r kept h k = subst (IsKept v) (ok-ok x w r h k) kept

set_status-IsKept :
    (u : Updates) (old : GiftVoucherStatus) (target : Option GiftVoucherStatus) (v w : GiftVoucher)
    → set_status u old target v ≡ ok w
    → IsKept v w
unfolding set_status
set_status-IsKept u old none v w h = kept_of v _ w (set_status u old none v) (refl, refl) refl h
set_status-IsKept u old (some target) v w h =
    let result = set_status u old (some target) v in
    elim (Bool-cases (index target == index old)) [
      | inl e ↦
          kept_of v (record v { update_history = v.update_history ++ (none ∷ []) }) w result
            (refl, refl) (rw e refl) h
      | inr e ↦ elim (Bool-cases (validate_transition old target)) [
        | inl f ↦
            let changed = record v {
              status = target;
              update_history = v.update_history ++ (some (old, target) ∷ []);
            } in
            kept_of v (pay_or_redeem u target changed) w result
              (pay_or_redeem-IsKept u target changed) (rw (e, f) refl) h
        | inr f ↦ absurd (err-ok illegal_transition w result (rw (e, f) refl) h)
      ]
    ]

and_remaining-IsKept :
    (u : Updates) (r : Outcome VoucherError GiftVoucher) (w : GiftVoucher)
    → and_remaining u r ≡ ok w
    → (x : GiftVoucher) × (r ≡ ok x) × IsKept x w
and_remaining-IsKept u (err e) w h = absurd (err-ok e w _ refl h)
and_remaining-IsKept u (ok x) w h =
    (x, refl, kept_of x (apply_remaining u x) w (ok (apply_remaining u x)) (refl, refl) refl h)

update-IsKept :
    (u : Updates) (v w : GiftVoucher) → u.redemption ≡ none → update_voucher u v ≡ ok w → IsKept v w
unfolding update_voucher
update-IsKept u v w asked h =
    let plain = ap (λ o. marked u v.status (requested u v o)) (sym asked) ∙ h in
    let (x, same, kept) = and_remaining-IsKept u (set_status u v.status u.status v) w plain in
    let before = set_status-IsKept u v.status u.status v x same in
    (kept.0 ∙ before.0, kept.1 ∙ before.1)

update-IsSound :
    (given : List ℕ) (u : Updates) (v w : GiftVoucher)
    → IsSound given v
    → update_voucher u v ≡ ok w
    → IsSound given w
update-IsSound given u v w sound h = elim (Option-cases u.redemption) [
  | inl asked ↦
      let (services, redemptions) = update-IsKept u v w asked h in
      (rw redemptions sound.0, rw redemptions sound.1, rw services sound.2)
  | inr (items, asked) ↦
      let (live, (is, (same, pos, distinct, unused), (services, used, status))) =
        redeemed_lem u v items asked w h in
      (
        rw used (
            IsDistinct-append (used_service_ids v) is sound.0 distinct
              (All-map _ _ is (λ i k. k.1) unused)),
        rw used (
            All-append _ (used_service_ids v) is sound.1
              (All-map _ _ is (λ i k. is_member-All given (gifted_ids v) i sound.2 k.0) unused)),
        rw services sound.2,
      )
]

replaced-IsSound :
    (given : List ℕ) (entries : List (Option ℕ)) (r : Outcome VoucherError GiftVoucher)
    (v w : GiftVoucher)
    → All (λ i. is_member i given ≡ true) (ids_of entries)
    → ((x : GiftVoucher) → r ≡ ok x → IsSound given x)
    → replaced entries r ≡ ok w
    → IsSound given w
replaced-IsSound given [] r v w new sound h = sound w h
replaced-IsSound given (e ∷ es) (err x) v w new sound h = absurd (err-ok x w _ refl h)
replaced-IsSound given (e ∷ es) (ok x) v w new sound h =
    subst (IsSound given) (ok-ok (record x { services = e ∷ es }) w _ refl h)
      ((sound x refl).0, (sound x refl).1, new)

-- A call that raises leaves the voucher as it was: its session is rolled back.
abbrev pub after_call : GiftVoucher → Outcome VoucherError GiftVoucher → GiftVoucher
after_call v (ok w) = w
after_call v (err e) = v

-- A call's updates, and the entries of its key `services`; without that key there are none.
abbrev pub Call : Type 0
Call = List (Option ℕ) × Updates

unfoldable pub run_updates : List Call → GiftVoucher → GiftVoucher
unfolding update_with_services
run_updates [] v = v
run_updates ((entries, u) ∷ us) v = run_updates us (after_call v (update_with_services entries u v))

-- The services that the calls give in place of others.
unfoldable pub new_services : List Call → List ℕ
unfolding ids_of
new_services [] = []
new_services ((entries, u) ∷ us) = ids_of entries ++ new_services us

after_call-IsSound :
    (given : List ℕ) (v : GiftVoucher) (r : Outcome VoucherError GiftVoucher)
    → IsSound given v
    → ((w : GiftVoucher) → r ≡ ok w → IsSound given w)
    → IsSound given (after_call v r)
after_call-IsSound given v (ok w) sound h = h w refl
after_call-IsSound given v (err e) sound h = sound

within :
    (given : List ℕ) (us : List Call) (v : GiftVoucher)
    → All (λ i. is_member i given ≡ true) (new_services us)
    → IsSound given v
    → IsSound given (run_updates us v)
unfolding run_updates update_with_services new_services
within given [] v new sound = sound
within given ((entries, u) ∷ us) v new sound =
    let (first, later) = append-All _ (ids_of entries) (new_services us) new in
    within given us (after_call v (update_with_services entries u v)) later (
      after_call-IsSound given v (update_with_services entries u v) sound (λ w h.
        replaced-IsSound given entries (update_voucher u v) v w first
          (λ x k. update-IsSound given u v x sound k) h))

members_left :
    (xs ys : List ℕ) (zs : List ℕ)
    → All (λ i. is_member i (xs ++ ys) ≡ true) zs
    → (x : ℕ) → All (λ i. is_member i (x ∷ xs ++ ys) ≡ true) zs
members_left xs ys [] h x = tt
members_left xs ys (z ∷ zs) h x = (ground (arith, h.0), members_left xs ys zs h.1 x)

own_members : (xs ys : List ℕ) → All (λ i. is_member i (xs ++ ys) ≡ true) xs
own_members [] ys = tt
own_members (x ∷ xs) ys = (ground arith, members_left xs ys xs (own_members xs ys) x)

added_members : (xs ys : List ℕ) → All (λ i. is_member i (xs ++ ys) ≡ true) ys
added_members [] ys =
    subst (λ zs. All (λ i. is_member i zs ≡ true) ys) (append_nil ys) (own_members ys [])
added_members (x ∷ xs) ys = members_left xs ys ys (added_members xs ys) x

-- Over any sequence of updates, accepted or not, with or without a redemption and with or without new
-- services in place of the gifted ones: no service is redeemed twice, if none is so before, and every
-- service that is redeemed or gifted in the end was gifted at the start or came as a new one in some
-- call, if those redeemed before were gifted at the start.
pub run_updates-IsSound :
    (us : List Call) (v : GiftVoucher)
    → IsDistinct (used_service_ids v)
    → All (λ i. is_member i (gifted_ids v) ≡ true) (used_service_ids v)
    → IsSound (gifted_ids v ++ new_services us) (run_updates us v)
run_updates-IsSound us v distinct used =
    let given = gifted_ids v ++ new_services us in
    let own = own_members (gifted_ids v) (new_services us) in
    within given us v (added_members (gifted_ids v) (new_services us)) (
      distinct,
      All-map _ _ (used_service_ids v) (λ i k. is_member-All given (gifted_ids v) i own k) used,
      own,
    )
