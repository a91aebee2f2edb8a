-- ===== src/Loyalty/Service/Credit.antt =====
-- Points are credited once for each booking, and a credit renews the expiry of the whole balance.
use ushbooknpay.Base.{ℕ, ◌≡◌, true, false, Option, some, arith, inl, inr, Option-cases, Bool-cases}
use ushbooknpay.Base.Int.{ℤ, pos, leb_ℤ}
use ushbooknpay.Base.Dict.{lookup, insert, lookup-insert}
use ushbooknpay.Loyalty.Accounts.{
  Account, Db, ok, ◌>>=◌, resolve_earn_points, compute_expiry, new_account,
}
use ushbooknpay.Loyalty.Repository.{credited, get_or_create_account, credit_points}
use ushbooknpay.Loyalty.Service.{BookingLookup, skips, already_credited, award_points}

-- The customer has an account, and the booking is in the ledger as credited.
abbrev HasAccount : ℕ → Db → Type 0
HasAccount c d = (a : Account) × (lookup c d.accounts ≡ some a)

existing : (now c : ℕ) (d : Db) → HasAccount c d → (get_or_create_account now c d).1 ≡ d
unfolding get_or_create_account
existing now c d (a, e) = rw e

module _ (now c : ℕ) (d : Db) where
  created :
      (a : Account) × (d' : Db) × (get_or_create_account now c d ≡ (ok a, d'))
      × (lookup c d'.accounts ≡ some a)
  unfolding get_or_create_account
  created = elim (Option-cases (lookup c d.accounts)) [
    | inl e ↦ (
      new_account now,
      record d { accounts = insert c (new_account now) d.accounts },
      rw e,
      ground (arith, lookup-insert c c (new_account now) d.accounts),
    )
    | inr (a, e) ↦ (a, d, rw e, e)
  ]

  created-HasAccount : HasAccount c (get_or_create_account now c d).1
  created-HasAccount = let (a, d', e, l) = created in (a, rw e l)

  credit_points-HasAccount :
      (points : ℤ) (expiry : ℕ) (b : Option ℕ)
      → leb_ℤ points (pos 0) ≡ false
      → HasAccount c (credit_points now c points expiry b d).1
  unfolding credit_points
  credit_points-HasAccount points expiry b p =
      let (a, d', e, l) = created in
      (
        credited now points expiry a,
        rw (p, ◌>>=◌, e, e)
            (ground (arith, lookup-insert c c (credited now points expiry a) d'.accounts)),
      )

  credit_points-already :
      (points : ℤ) (expiry b : ℕ)
      → leb_ℤ points (pos 0) ≡ false
      → already_credited c b (credit_points now c points expiry (some b) d).1.ledger ≡ true
  unfolding credit_points already_credited
  credit_points-already points expiry b p =
      let (a, d', e, l) = created in rw (p, ◌>>=◌, e, e) (ground arith)

-- A state in which a further award for the booking changes nothing.
abbrev IsDone : ℕ → ℕ → Db → Type 0
IsDone c b d = HasAccount c d × (already_credited c b d.ledger ≡ true)

award_done :
    (days : ℕ) (look : ℕ → BookingLookup) (now c : ℕ) (lp : ℤ) (ap : Option ℤ) (b : ℕ) (d : Db)
    → IsDone c b d
    → (award_points days look now c lp ap (some b) d).1 ≡ d
unfolding award_points
award_done days look now c lp ap b d (h, k) = elim (Bool-cases (skips look (some b))) [
  | inl p ↦ rw p (existing now c d h)
  | inr p ↦ elim (Bool-cases (leb_ℤ (resolve_earn_points lp ap) (pos 0))) [
    | inl q ↦ rw (p, q) (existing now c d h)
    | inr q ↦ rw (p, q, k) (existing now c d h)
  ]
]

get_or_create-ledger : (now c : ℕ) (d : Db) → (get_or_create_account now c d).1.ledger ≡ d.ledger
unfolding get_or_create_account
get_or_create-ledger now c d = ground arith

-- Awarding points for a booking a second time, at whatever instant and for whatever points, leaves
-- the session exactly as the first award left it, if the first was for a positive number of points.
pub award_points-once :
    (days : ℕ) (look : ℕ → BookingLookup) (now later c : ℕ) (lp : ℤ) (ap : Option ℤ) (lp' : ℤ)
    (ap' : Option ℤ) (b : ℕ) (d : Db)
    → leb_ℤ (resolve_earn_points lp ap) (pos 0) ≡ false
    → let d' = (award_points days look now c lp ap (some b) d).1 in
      (award_points days look later c lp' ap' (some b) d').1 ≡ d'
unfolding award_points
award_points-once days look now later c lp ap lp' ap' b d q =
    elim (Bool-cases (skips look (some b))) [
      | inl p ↦
          rw p (existing later c (get_or_create_account now c d).1 (created-HasAccount now c d))
      | inr p ↦ elim (Bool-cases (already_credited c b d.ledger)) [
        | inl k ↦
            rw (p, q, k)
              (rw p at (
                award_done days look later c lp' ap' b (get_or_create_account now c d).1
                  (created-HasAccount now c d, rw (get_or_create-ledger now c d) k)))
        | inr k ↦
            let points = resolve_earn_points lp ap in
            let expiry = compute_expiry now days in
            rw (p, q, k)
              (rw p at (
                award_done days look later c lp' ap' b
                  (credit_points now c points expiry (some b) d).1
                  (
                    credit_points-HasAccount now c d points expiry (some b) q,
                    credit_points-already now c d points expiry b q,
                  )))
      ]
    ]
