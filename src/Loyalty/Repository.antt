-- ===== src/Loyalty/Repository.antt =====
-- `LoyaltyRepository` of app/loyalty/infrastructure/repository.py. Each write is given the current
-- instant; notes, booking numbers and the author of a transaction are left out.
use ushbooknpay.Base.{ℕ, Option, none, some, ◌∷◌, if◌then◌else◌}
use ushbooknpay.Base.Int.{ℤ, pos, ◌+ℤ◌, ◌-ℤ◌, ltb_ℤ, leb_ℤ, min_ℤ}
use ushbooknpay.Base.Dict.{lookup, insert}
use ushbooknpay.Loyalty.Accounts.{
  Account, TransactionType, earn, redeem, expire, adjust, cancel, nothing_to_credit, no_account, ok,
  Action, ◌>>=◌, ◌>>◌, pure, raise, raise_if, new_account, is_account_expired,
  assert_sufficient_balance,
}

abbrev pub get_account_by_customer : ℕ → Action (Option Account)
get_account_by_customer c d = (ok (lookup c d.accounts), d)

-- The changes to a row that the session holds, and `session.add(txn)`.
abbrev pub save : ℕ → Account → Action (Unit {0})
save c a d = (ok tt, record d { accounts = insert c a d.accounts })

abbrev pub add_transaction : ℕ → TransactionType → ℤ → Option ℕ → Action (Unit {0})
add_transaction c kind points booking d = (
  ok tt,
  record d {
    ledger =
        record { customer_id = c; transaction_type = kind; points = points; booking_id = booking }
        ∷ d.ledger;
  },
)

abbrev or_create : ℕ → ℕ → Option Account → Action Account
or_create now c (some a) = pure a
or_create now c none = do save c (new_account now); pure (new_account now)

unfoldable pub get_or_create_account : ℕ → ℕ → Action Account
get_or_create_account now c = do found ← get_account_by_customer c; or_create now c found

abbrev pub credited : ℕ → ℤ → ℕ → Account → Account
credited now points expiry account = record account {
  balance_points = account.balance_points +ℤ points;
  total_earned = account.total_earned +ℤ points;
  points_expire_at = some expiry;
  updated_at = now;
}

unfoldable pub credit_points : ℕ → ℕ → ℤ → ℕ → Option ℕ → Action Account
credit_points now c points expiry booking = do
  raise_if (leb_ℤ points (pos 0)) nothing_to_credit
  account ← get_or_create_account now c
  save c (credited now points expiry account)
  add_transaction c earn points booking
  pure (credited now points expiry account)

abbrev or_no_account : Option Account → Action Account
or_no_account none = raise no_account
or_no_account (some a) = pure a

abbrev pub debited : ℕ → ℤ → Account → Account
debited now points account = record account {
  balance_points = account.balance_points -ℤ points;
  total_redeemed = account.total_redeemed +ℤ points;
  updated_at = now;
}

unfoldable pub debit_points : ℕ → ℕ → ℤ → Option ℕ → Action Account
unfolding assert_sufficient_balance
debit_points now c points booking = do
  account ← or_no_account (← get_account_by_customer c)
  assert_sufficient_balance account.balance_points points
  save c (debited now points account)
  add_transaction c redeem points booking
  pure (debited now points account)

-- The account after at most `points` are taken from it; `updated_at` moves only if some are.
abbrev pub reversed : ℕ → ℤ → Account → Account
reversed now points account =
    let deduct = min_ℤ points account.balance_points in
    if ltb_ℤ (pos 0) deduct
    then record account { balance_points = account.balance_points -ℤ deduct; updated_at = now }
    else account

abbrev cancel_found : ℕ → ℕ → ℤ → Option ℕ → Option Account → Action (Option Account)
cancel_found now c points booking none = pure none
cancel_found now c points booking (some account) = do
  save c (reversed now points account)
  add_transaction c cancel points booking
  pure (some (reversed now points account))

unfoldable pub cancel_points : ℕ → ℕ → ℤ → Option ℕ → Action (Option Account)
cancel_points now c points booking = do
  found ← get_account_by_customer c
  cancel_found now c points booking found

-- `account` is the customer's row in the session; the result is the row as it then stands.
abbrev pub emptied : ℕ → Account → Account
emptied now account = record account { balance_points = pos 0; updated_at = now }

unfoldable pub expire_account_if_needed : ℕ → ℕ → Account → Action Account
expire_account_if_needed now c account =
    if is_account_expired now account.points_expire_at
    then if ltb_ℤ (pos 0) account.balance_points
      then (do
        save c (emptied now account)
        add_transaction c expire account.balance_points none
        pure (emptied now account))
      else pure account
    else pure account

-- `abs(delta)`
abbrev pub magnitude : ℤ → ℤ
magnitude d = if ltb_ℤ d (pos 0) then pos 0 -ℤ d else d

abbrev pub adjusted : ℕ → ℤ → Account → Account
adjusted now delta account =
    if ltb_ℤ (pos 0) delta
    then record account {
      balance_points = account.balance_points +ℤ delta;
      total_earned = account.total_earned +ℤ delta;
      updated_at = now;
    }
    else record account {
      balance_points = account.balance_points -ℤ min_ℤ (magnitude delta) account.balance_points;
      updated_at = now;
    }

-- The delta as it is recorded: a deduction of more than the balance is recorded as what was taken.
abbrev pub recorded : ℤ → Account → ℤ
recorded delta account =
    if ltb_ℤ (pos 0) delta
    then delta
    else magnitude (pos 0 -ℤ min_ℤ (magnitude delta) account.balance_points)

unfoldable pub adjust_points : ℕ → ℕ → ℤ → Action Account
adjust_points now c delta = do
  account ← get_or_create_account now c
  save c (adjusted now delta account)
  add_transaction c adjust (recorded delta account) none
  pure (adjusted now delta account)
