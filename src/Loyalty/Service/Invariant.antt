-- ===== src/Loyalty/Service/Invariant.antt =====
-- What holds of every account, whatever is requested.
use ushbooknpay.Base.{
  ℕ, ◌≡◌, false, Option, none, some, arith, inl, inr, Option-cases, Bool-cases, ◌==◌,
}
use ushbooknpay.Base.Int.{ℤ, pos, ◌+ℤ◌, ◌-ℤ◌, ◌≤ℤ◌, int_laws, -ℤ_parts, min_ℤ, ltb_ℤ, leb_ℤ}
use ushbooknpay.Base.Dict.{Dict, lookup, insert, lookup-insert}
use ushbooknpay.Loyalty.Accounts.{
  Account, Db, Result, ok, err, Action, ◌>>=◌, ◌>>◌, pure, resolve_earn_points, is_account_expired,
  new_account,
}
use ushbooknpay.Loyalty.Repository.{
  credited, debited, reversed, emptied, adjusted, magnitude, get_or_create_account, credit_points,
  debit_points, cancel_points, expire_account_if_needed, adjust_points,
}
use ushbooknpay.Loyalty.Service.{
  BookingLookup, skips, or_no_account, credit_once, already_credited, Request, award, spend,
  cancelled, correct, view, get_account, award_points, redeem_points, cancel_booking_points, serve,
}

-- A balance is never negative, and what is left and what was redeemed were earned.
pub record IsSound (a : Account) : Type 0 where
  pub balance_nonneg : pos 0 ≤ℤ a.balance_points
  pub redeemed_nonneg : pos 0 ≤ℤ a.total_redeemed
  pub earned_covers : a.balance_points +ℤ a.total_redeemed ≤ℤ a.total_earned

abbrev pub IsSoundRows : Dict Account → Type 0
IsSoundRows rows = (c : ℕ) (a : Account) → lookup c rows ≡ some a → IsSound a

abbrev pub IsSoundDb : Db → Type 0
IsSoundDb d = IsSoundRows d.accounts

pub insert-IsSoundRows :
    (c : ℕ) (a : Account) (rows : Dict Account)
    → IsSoundRows rows
    → IsSound a
    → IsSoundRows (insert c a rows)
insert-IsSoundRows c a rows h s k b e = elim (Bool-cases (c == k)) [
  | inl same ↦ let found : a ≡ b = ground (arith, lookup-insert c k a rows) in rw (← found) s
  | inr other ↦ h k b (ground (arith, lookup-insert c k a rows))
]

new_account-IsSound : (now : ℕ) → IsSound (new_account now)
new_account-IsSound now = omega int_laws

credited-IsSound :
    (now : ℕ) (points : ℤ) (expiry : ℕ) (a : Account)
    → leb_ℤ points (pos 0) ≡ false
    → IsSound a
    → IsSound (credited now points expiry a)
credited-IsSound now points expiry a p s =
    let q : ¬ (points ≤ℤ pos 0) = ground arith in omega int_laws

debited-IsSound :
    (now : ℕ) (points : ℤ) (a : Account)
    → leb_ℤ points (pos 0) ≡ false
    → ltb_ℤ a.balance_points points ≡ false
    → IsSound a
    → IsSound (debited now points a)
debited-IsSound now points a p q s =
    let u : ¬ (points ≤ℤ pos 0) = ground arith in
    let v : points ≤ℤ a.balance_points = ground arith in omega int_laws

-- Taking a part of the balance away.
taken-IsSound :
    (now : ℕ) (x : ℤ) (a : Account)
    → pos 0 ≤ℤ x
    → x ≤ℤ a.balance_points
    → IsSound a
    → IsSound (record a { balance_points = a.balance_points -ℤ x; updated_at = now })
taken-IsSound now x a p q s = omega int_laws

min_ℤ-le : (x y : ℤ) → min_ℤ x y ≤ℤ y
min_ℤ-le x y = ground arith

reversed-IsSound :
    (now : ℕ) (points : ℤ) (a : Account) → IsSound a → IsSound (reversed now points a)
reversed-IsSound now points a s =
    let x = min_ℤ points a.balance_points in
    elim (Bool-cases (ltb_ℤ (pos 0) x)) [
      | inl p ↦ rw p (taken-IsSound now x a (ground arith) (min_ℤ-le points a.balance_points) s)
      | inr p ↦ rw p s
    ]

emptied-IsSound : (now : ℕ) (a : Account) → IsSound a → IsSound (emptied now a)
emptied-IsSound now a s = omega int_laws

magnitude_nonneg : (d : ℤ) → pos 0 ≤ℤ magnitude d
magnitude_nonneg d = ground (arith, -ℤ_parts (pos 0) d)

adjusted-IsSound : (now : ℕ) (delta : ℤ) (a : Account) → IsSound a → IsSound (adjusted now delta a)
adjusted-IsSound now delta a s =
    let x = min_ℤ (magnitude delta) a.balance_points in
    elim (Bool-cases (ltb_ℤ (pos 0) delta)) [
      | inl p ↦ rw p (let q : pos 0 ≤ℤ delta = ground arith in omega int_laws)
      | inr p ↦ rw p (
          taken-IsSound now x a (ground (arith, magnitude_nonneg delta))
            (min_ℤ-le (magnitude delta) a.balance_points) s)
    ]

module _ (now c : ℕ) (d : Db) (h : IsSoundDb d) where
  created :
      (a : Account) × (d' : Db) × (get_or_create_account now c d ≡ (ok a, d'))
      × IsSound a
      × IsSoundDb d'
  unfolding get_or_create_account
  created = elim (Option-cases (lookup c d.accounts)) [
    | inl e ↦ (
      new_account now,
      record d { accounts = insert c (new_account now) d.accounts },
      rw e,
      new_account-IsSound now,
      insert-IsSoundRows c (new_account now) d.accounts h (new_account-IsSound now),
    )
    | inr (a, e) ↦ (a, d, rw e, h c a e, h)
  ]

  unchanged-IsSoundDb : IsSoundDb (get_or_create_account now c d).1
  unchanged-IsSoundDb = let (a, d', e, s, h') = created in rw e h'

  credit_points-IsSoundDb :
      (points : ℤ) (expiry : ℕ) (b : Option ℕ) → IsSoundDb (credit_points now c points expiry b d).1
  unfolding credit_points
  credit_points-IsSoundDb points expiry b = elim (Bool-cases (leb_ℤ points (pos 0))) [
    | inl p ↦ rw p h
    | inr p ↦
        let (a, d', e, s, h') = created in
        rw (p, ◌>>=◌, e, e)
          (insert-IsSoundRows c (credited now points expiry a) d'.accounts h'
            (credited-IsSound now points expiry a p s))
  ]

  debit_points-IsSoundDb : (points : ℤ) (b : Option ℕ) → IsSoundDb (debit_points now c points b d).1
  unfolding debit_points
  debit_points-IsSoundDb points b = elim (Option-cases (lookup c d.accounts)) [
    | inl e ↦ rw e h
    | inr (a, e) ↦ elim (Bool-cases (leb_ℤ points (pos 0))) [
      | inl p ↦ rw (e, p) h
      | inr p ↦ elim (Bool-cases (ltb_ℤ a.balance_points points)) [
        | inl q ↦ rw (e, p, q) h
        | inr q ↦
            rw (e, p, q)
              (insert-IsSoundRows c (debited now points a) d.accounts h
                (debited-IsSound now points a p q (h c a e)))
      ]
    ]
  ]

  cancel_points-IsSoundDb :
      (points : ℤ) (b : Option ℕ) → IsSoundDb (cancel_points now c points b d).1
  unfolding cancel_points
  cancel_points-IsSoundDb points b = elim (Option-cases (lookup c d.accounts)) [
    | inl e ↦ rw e h
    | inr (a, e) ↦ rw e (
        insert-IsSoundRows c (reversed now points a) d.accounts h
          (reversed-IsSound now points a (h c a e)))
  ]

  expire-IsSoundDb : (a : Account) → IsSound a → IsSoundDb (expire_account_if_needed now c a d).1
  unfolding expire_account_if_needed
  expire-IsSoundDb a s = elim (Bool-cases (is_account_expired now a.points_expire_at)) [
    | inl p ↦ elim (Bool-cases (ltb_ℤ (pos 0) a.balance_points)) [
      | inl q ↦
          rw (p, q) (insert-IsSoundRows c (emptied now a) d.accounts h (emptied-IsSound now a s))
      | inr q ↦ rw (p, q) h
    ]
    | inr p ↦ rw p h
  ]

  adjust_points-IsSoundDb : (delta : ℤ) → IsSoundDb (adjust_points now c delta d).1
  unfolding adjust_points
  adjust_points-IsSoundDb delta =
      let (a, d', e, s, h') = created in
      rw (◌>>=◌, e, e)
        (insert-IsSoundRows c (adjusted now delta a) d'.accounts h'
          (adjusted-IsSound now delta a s))

-- What both parts of a call keep, the call keeps, raised or not.
keeps_bind :
    {A B : Type 0} (P : Db → Type 0) (m : Action A) (f : A → Action B) (d : Db)
    → P (m d).1
    → ((a : A) (e : Db) → P e → P (f a e).1)
    → P ((m >>= f) d).1
keeps_bind {A} {B} P m f d h k = go (m d).0 (m d).1 h
  where
    go :
        (r : Result A) (e : Db)
        → P e
        → P (elim r as (λ _. Result B × Db) [ ok a ↦ f a e | err x ↦ (err x, e) ]).1
    go (ok a) e h = k a e h
    go (err x) e h = h

get_account-IsSoundDb : (now c : ℕ) (d : Db) → IsSoundDb d → IsSoundDb (get_account now c d).1
unfolding get_account
get_account-IsSoundDb now c d h = elim (Option-cases (lookup c d.accounts)) [
  | inl e ↦ rw e h
  | inr (a, e) ↦ rw e (
      keeps_bind IsSoundDb (expire_account_if_needed now c a) (λ x. pure (some x)) d
        (expire-IsSoundDb now c d h a (h c a e)) (λ x e' k. k))
]

credit_once-IsSoundDb :
    (days now c : ℕ) (points : ℤ) (b : Option ℕ) (d : Db)
    → IsSoundDb d
    → IsSoundDb (credit_once days now c points b d).1
credit_once-IsSoundDb days now c points none d h = credit_points-IsSoundDb now c d h points _ none
credit_once-IsSoundDb days now c points (some b) d h =
    elim (Bool-cases (already_credited c b d.ledger)) [
      | inl p ↦ rw p (unchanged-IsSoundDb now c d h)
      | inr p ↦ rw p (credit_points-IsSoundDb now c d h points _ (some b))
    ]

award_points-IsSoundDb :
    (days : ℕ) (look : ℕ → BookingLookup) (now c : ℕ) (lp : ℤ) (ap : Option ℤ) (b : Option ℕ)
    (d : Db)
    → IsSoundDb d
    → IsSoundDb (award_points days look now c lp ap b d).1
unfolding award_points
award_points-IsSoundDb days look now c lp ap b d h = elim (Bool-cases (skips look b)) [
  | inl p ↦ rw p (unchanged-IsSoundDb now c d h)
  | inr p ↦ elim (Bool-cases (leb_ℤ (resolve_earn_points lp ap) (pos 0))) [
    | inl q ↦ rw (p, q) (unchanged-IsSoundDb now c d h)
    | inr q ↦ rw (p, q) (credit_once-IsSoundDb days now c (resolve_earn_points lp ap) b d h)
  ]
]

or_no_account-state : (o : Option Account) (e : Db) → IsSoundDb e → IsSoundDb (or_no_account o e).1
or_no_account-state none e k = k
or_no_account-state (some a) e k = k

cancel_booking_points-IsSoundDb :
    (now c : ℕ) (points : ℤ) (b : Option ℕ) (d : Db)
    → IsSoundDb d
    → IsSoundDb (cancel_booking_points now c points b d).1
unfolding cancel_booking_points
cancel_booking_points-IsSoundDb now c points b d h = elim (Bool-cases (leb_ℤ points (pos 0))) [
  | inl p ↦ rw p h
  | inr p ↦ rw p (cancel_points-IsSoundDb now c d h points b)
]

redeem_points-IsSoundDb :
    (now c : ℕ) (cost : ℤ) (b : Option ℕ) (d : Db)
    → IsSoundDb d
    → IsSoundDb (redeem_points now c cost b d).1
unfolding redeem_points
redeem_points-IsSoundDb now c cost b d h =
    keeps_bind IsSoundDb (get_account now c)
      (λ found. or_no_account found >> debit_points now c cost b) d
      (get_account-IsSoundDb now c d h)
      (λ found e k.
        keeps_bind IsSoundDb (or_no_account found) (λ _. debit_points now c cost b) e
          (or_no_account-state found e k) (λ _ e' k'. debit_points-IsSoundDb now c e' k' cost b))

-- Whatever is requested, and whether or not it raises: no balance becomes negative, and on every
-- account what is left together with what was redeemed is at most what was earned.
pub serve-IsSoundDb :
    (days : ℕ) (look : ℕ → BookingLookup) (now : ℕ) (r : Request) (d : Db)
    → IsSoundDb d
    → IsSoundDb (serve days look now r d)
unfolding serve
serve-IsSoundDb days look now (award c lp ap b) d h =
    award_points-IsSoundDb days look now c lp ap b d h
serve-IsSoundDb days look now (spend c cost b) d h = redeem_points-IsSoundDb now c cost b d h
serve-IsSoundDb days look now (cancelled c points b) d h =
    cancel_booking_points-IsSoundDb now c points b d h
serve-IsSoundDb days look now (correct c delta) d h = adjust_points-IsSoundDb now c d h delta
serve-IsSoundDb days look now (view c) d h = get_account-IsSoundDb now c d h
