-- ===== src/Loyalty/Tests.antt =====
-- A customer with some points, worked through.
use ushbooknpay.Base.{ℕ, ◌≡◌, refl, none, some, [], ◌∷◌, arith}
use ushbooknpay.Base.Int.{pos, ◌+ℤ◌}
use ushbooknpay.Base.Dict.{lookup, insert}
use ushbooknpay.Loyalty.Accounts.{
  Account, Db, ok, resolve_earn_points, compute_expiry, is_account_expired,
}
use ushbooknpay.Loyalty.Repository.{credit_points}
use ushbooknpay.Loyalty.Service.{
  BookingLookup, missing, award_points, get_account, redeem_points, spend, serve,
}
use ushbooknpay.Loyalty.Service.Invariant.{IsSound, IsSoundDb, insert-IsSoundRows, serve-IsSoundDb}
use ushbooknpay.Loyalty.Service.Credit.{award_points-once}
use ushbooknpay.Loyalty.Service.Redeem.{
  after_expiry, redeemed, row_of, without_points, with_more, redeem_points_lem,
  credit_points-revives,
}

-- Points that expire at the instant 10.
abbrev hana : Account
hana = record {
  balance_points = pos 50;
  total_earned = pos 80;
  total_redeemed = pos 30;
  points_expire_at = some 10;
  updated_at = 0;
}

abbrev db : Db
db = record { accounts = (1, hana) ∷ []; ledger = [] }

abbrev no_bookings : ℕ → BookingLookup
no_bookings b = missing

hana-IsSound : IsSound hana
unfolding ◌+ℤ◌
hana-IsSound = record {
  balance_nonneg = omega arith;
  redeemed_nonneg = omega arith;
  earned_covers = omega arith;
}

db-IsSound : IsSoundDb db
unfolding lookup insert
db-IsSound = insert-IsSoundRows 1 hana [] (λ c a h. absurd (ground arith)) hana-IsSound

serve-IsSoundDb_example : IsSoundDb (serve 365 no_bookings 5 (spend 1 (pos 20) none) db)
serve-IsSoundDb_example = serve-IsSoundDb 365 no_bookings 5 (spend 1 (pos 20) none) db db-IsSound

award_points-once_example :
    (award_points 365 no_bookings 6 1
      (pos 7)
      none
      (some 4)
      (award_points 365 no_bookings 5 1 (pos 9) none (some 4) db).1).1
    ≡ (award_points 365 no_bookings 5 1 (pos 9) none (some 4) db).1
unfolding resolve_earn_points
award_points-once_example =
    award_points-once 365 no_bookings 5 6 1 (pos 9) none (pos 7) none 4 db refl

redeem_points_lem_example :
    ((redeem_points 5 1 (pos 20) none db).0 ≡ redeemed 5 (pos 20) (after_expiry 5 hana))
    × (lookup 1 (redeem_points 5 1 (pos 20) none db).1.accounts
        ≡ some (row_of (after_expiry 5 hana) (redeemed 5 (pos 20) (after_expiry 5 hana))))
unfolding lookup
redeem_points_lem_example = redeem_points_lem 5 1 (pos 20) none db hana refl

credit_points-revives_example :
    ((get_account 12 1 db).0 ≡ ok (some (without_points 12 hana)))
    × ((get_account 12 1 (credit_points 12 1 (pos 5) (compute_expiry 12 365) none db).1).0
        ≡ ok (some (with_more 12 (pos 5) (compute_expiry 12 365) hana)))
unfolding lookup is_account_expired
credit_points-revives_example =
    credit_points-revives 365 12 1 (pos 5) none db hana refl refl refl (omega arith) refl
