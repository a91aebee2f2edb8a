-- ===== src/Loyalty/Service/Redeem.antt =====
-- Redemption and the lazy expiry.
use ushbooknpay.Base.{
  ℕ, ◌<◌, ◌≡◌, refl, true, false, ◌&&◌, Option, some, arith, inl, inr, Bool-cases, if◌then◌else◌,
}
use ushbooknpay.Base.Int.{ℤ, pos, ◌+ℤ◌, ◌-ℤ◌, ltb_ℤ, leb_ℤ}
use ushbooknpay.Base.Dict.{lookup, lookup-insert}
use ushbooknpay.Loyalty.Accounts.{
  Account, Db, insufficient, bad_cost, Result, ok, err, ◌>>=◌, compute_expiry, is_account_expired,
}
use ushbooknpay.Loyalty.Repository.{
  credited, debited, emptied, get_or_create_account, credit_points, debit_points,
  expire_account_if_needed,
}
use ushbooknpay.Loyalty.Service.{get_account, redeem_points}

-- The row without its points, with `points` less and redeemed, and with `points` more and earned.
abbrev pub without_points : ℕ → Account → Account
without_points now a = record a { balance_points = pos 0; updated_at = now }

abbrev pub with_less : ℕ → ℤ → Account → Account
with_less now points a = record a {
  balance_points = a.balance_points -ℤ points;
  total_redeemed = a.total_redeemed +ℤ points;
  updated_at = now;
}

abbrev pub with_more : ℕ → ℤ → ℕ → Account → Account
with_more now points expiry a = record a {
  balance_points = a.balance_points +ℤ points;
  total_earned = a.total_earned +ℤ points;
  points_expire_at = some expiry;
  updated_at = now;
}

-- What the customer's row is after the lazy expiry.
abbrev pub after_expiry : ℕ → Account → Account
after_expiry now a =
    if is_account_expired now a.points_expire_at && ltb_ℤ (pos 0) a.balance_points
    then without_points now a
    else a

-- What a redemption does to the row as it is after the expiry, and what it returns.
abbrev pub redeemed : ℕ → ℤ → Account → Result Account
redeemed now cost r =
    if leb_ℤ cost (pos 0)
    then err bad_cost
    else if ltb_ℤ r.balance_points cost
    then err insufficient
    else ok (with_less now cost r)

abbrev pub row_of : Account → Result Account → Account
row_of r (ok a) = a
row_of r (err x) = r

debit_points_lem :
    (now c : ℕ) (cost : ℤ) (b : Option ℕ) (d : Db) (r : Account)
    → lookup c d.accounts ≡ some r
    → ((debit_points now c cost b d).0 ≡ redeemed now cost r)
      × (lookup c (debit_points now c cost b d).1.accounts ≡ some (row_of r (redeemed now cost r)))
unfolding debit_points
debit_points_lem now c cost b d r e = elim (Bool-cases (leb_ℤ cost (pos 0))) [
  | inl p ↦ rw (e, p) (refl, e)
  | inr p ↦ elim (Bool-cases (ltb_ℤ r.balance_points cost)) [
    | inl q ↦ rw (e, p, q) (refl, e)
    | inr q ↦ rw (e, p, q) (refl, ground (arith, lookup-insert c c (debited now cost r) d.accounts))
  ]
]

get_account_lem :
    (now c : ℕ) (d : Db) (a : Account)
    → lookup c d.accounts ≡ some a
    → ((get_account now c d).0 ≡ ok (some (after_expiry now a)))
      × (lookup c (get_account now c d).1.accounts ≡ some (after_expiry now a))
unfolding get_account expire_account_if_needed
get_account_lem now c d a e = elim (Bool-cases (is_account_expired now a.points_expire_at)) [
  | inl p ↦ elim (Bool-cases (ltb_ℤ (pos 0) a.balance_points)) [
    | inl q ↦ rw (e, p, q) (refl, ground (arith, lookup-insert c c (emptied now a) d.accounts))
    | inr q ↦ rw (e, p, q) (refl, e)
  ]
  | inr p ↦ rw (e, p) (refl, e)
]

-- A redemption first empties the account if its points have expired. It then refuses a cost that
-- is not positive or that the balance does not cover, and otherwise takes the cost from the balance
-- and adds it to what was redeemed; the customer's row in the session is the one that results.
pub redeem_points_lem :
    (now c : ℕ) (cost : ℤ) (b : Option ℕ) (d : Db) (a : Account)
    → lookup c d.accounts ≡ some a
    → let r = after_expiry now a in
      ((redeem_points now c cost b d).0 ≡ redeemed now cost r)
      × (lookup c (redeem_points now c cost b d).1.accounts ≡ some (row_of r (redeemed now cost r)))
unfolding redeem_points
redeem_points_lem now c cost b d a e =
    let (result, row) = get_account_lem now c d a e in
    rw (◌>>=◌, result)
      (debit_points_lem now c cost b (get_account now c d).1 (after_expiry now a) row)

credit_points-row :
    (now c : ℕ) (points : ℤ) (expiry : ℕ) (b : Option ℕ) (d : Db) (a : Account)
    → lookup c d.accounts ≡ some a
    → leb_ℤ points (pos 0) ≡ false
    → lookup c (credit_points now c points expiry b d).1.accounts
      ≡ some (credited now points expiry a)
unfolding credit_points get_or_create_account
credit_points-row now c points expiry b d a e z =
    rw (z, ◌>>=◌, e) (ground (arith, lookup-insert c c (credited now points expiry a) d.accounts))

not_yet :
    (now days : ℕ) → 0 < days → is_account_expired now (some (compute_expiry now days)) ≡ false
unfolding is_account_expired compute_expiry
not_yet now days h = ground arith

-- A positive award to a customer whose points have expired, but have not been looked at since, brings
-- the expired points back: a reading before the award would have left a balance of zero, and one after
-- it gives the whole old balance and the award on top.
pub credit_points-revives :
    (days now c : ℕ) (points : ℤ) (b : Option ℕ) (d : Db) (a : Account)
    → lookup c d.accounts ≡ some a
    → is_account_expired now a.points_expire_at ≡ true
    → ltb_ℤ (pos 0) a.balance_points ≡ true
    → 0 < days
    → leb_ℤ points (pos 0) ≡ false
    → let expiry = compute_expiry now days in
      ((get_account now c d).0 ≡ ok (some (without_points now a)))
      × ((get_account now c (credit_points now c points expiry b d).1).0
          ≡ ok (some (with_more now points expiry a)))
credit_points-revives days now c points b d a e p q h z =
    let expiry = compute_expiry now days in
    let first = (get_account_lem now c d a e).0 in
    let second =
      get_account_lem now c (credit_points now c points expiry b d).1 (credited now points expiry a)
        (credit_points-row now c points expiry b d a e z) in
    (rw (p, q) at first, rw (not_yet now days h) at (second.0))
