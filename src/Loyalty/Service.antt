-- ===== src/Loyalty/Service.antt =====
-- `LoyaltyService` of app/loyalty/application/services.py.
pub mod Invariant
pub mod Credit
pub mod Redeem
use ushbooknpay.Base.{
  ℕ, ◌≡◌, Bool, true, false, ◌&&◌, ◌||◌, Option, none, some, List, [], ◌∷◌, ◌==◌, any,
  if◌then◌else◌,
}
use ushbooknpay.Base.Int.{ℤ, pos, pos_part, neg_part, ltb_ℤ, leb_ℤ}
use ushbooknpay.Loyalty.Accounts.{
  Account, Transaction, TransactionType, earn, Db, no_account, Result, ok, err, Action, ◌>>=◌, ◌>>◌,
  pure, raise, resolve_earn_points, compute_expiry,
}
use ushbooknpay.Loyalty.Repository.{
  get_account_by_customer, get_or_create_account, credit_points, debit_points, cancel_points,
  expire_account_if_needed, adjust_points,
}

-- What `credit_points` reads of a booking: whether each of its tests for a booking that was itself
-- paid with points succeeds.
pub record BookingRow : Type 0 where
  pub type_is_loyalty : Bool
  pub payment_type_is_rewarded : Bool
  pub payment_status_is_rewarded : Bool
  pub has_reward_id : Bool
  pub has_points_cost : Bool
  pub has_reward_in_data : Bool

-- The look-up of the booking: it may raise, which is logged and passed over.
pub data BookingLookup : Type 0 where
  failed missing : BookingLookup
  found : BookingRow → BookingLookup

abbrev pub is_loyalty_booking : BookingLookup → Bool
is_loyalty_booking failed = false
is_loyalty_booking missing = false
is_loyalty_booking (found bk) =
    bk.type_is_loyalty
    || (bk.payment_type_is_rewarded
        || (bk.payment_status_is_rewarded
            || (bk.has_reward_id || (bk.has_points_cost || bk.has_reward_in_data))))

abbrev expire_found : ℕ → ℕ → Option Account → Action (Option Account)
expire_found now c none = pure none
expire_found now c (some account) = do
  current ← expire_account_if_needed now c account
  pure (some current)

unfoldable pub get_account : ℕ → ℕ → Action (Option Account)
get_account now c = do row ← get_account_by_customer c; expire_found now c row

abbrev pub is_earn : TransactionType → Bool
is_earn earn = true
is_earn _ = false

abbrev pub has_id : ℕ → Option ℕ → Bool
has_id b none = false
has_id b (some x) = x == b

-- `already is not None`: the customer has an earn transaction for the booking
unfoldable pub already_credited : ℕ → ℕ → List Transaction → Bool
already_credited c b ledger =
    any (λ t. t.customer_id == c && (has_id b t.booking_id && is_earn t.transaction_type)) ledger

-- The account as it is, created if there is none: every skipped credit ends so.
abbrev pub unchanged_account : ℕ → ℕ → Action Account
unchanged_account now c = get_or_create_account now c

-- The last part: the booking, if one is named, must not have been credited before.
abbrev pub credit_once : ℕ → ℕ → ℕ → ℤ → Option ℕ → Action Account
credit_once expiry_days now c points none d =
    credit_points now c points (compute_expiry now expiry_days) none d
credit_once expiry_days now c points (some b) d =
    if already_credited c b d.ledger
    then unchanged_account now c d
    else credit_points now c points (compute_expiry now expiry_days) (some b) d

abbrev pub skips : (ℕ → BookingLookup) → Option ℕ → Bool
skips look none = false
skips look (some b) = is_loyalty_booking (look b)

-- `LoyaltyService.credit_points`; `look` finds the booking in the session.
unfoldable pub award_points :
    ℕ → (ℕ → BookingLookup) → ℕ → ℕ → ℤ → Option ℤ → Option ℕ → Action Account
award_points expiry_days look now c loyalty_points arrangement booking =
    let points = resolve_earn_points loyalty_points arrangement in
    if skips look booking
    then unchanged_account now c
    else if leb_ℤ points (pos 0)
    then unchanged_account now c
    else credit_once expiry_days now c points booking

abbrev pub or_no_account : Option Account → Action Account
or_no_account none = raise no_account
or_no_account (some a) = pure a

unfoldable pub redeem_points : ℕ → ℕ → ℤ → Option ℕ → Action Account
redeem_points now c cost booking = do
  or_no_account (← get_account now c)
  debit_points now c cost booking

unfoldable pub cancel_booking_points : ℕ → ℕ → ℤ → Option ℕ → Action (Option Account)
cancel_booking_points now c points booking =
    if leb_ℤ points (pos 0) then pure none else cancel_points now c points booking

-- The calls that other parts make, as data.
pub data Request : Type 0 where
  award : ℕ → ℤ → Option ℤ → Option ℕ → Request
  spend cancelled : ℕ → ℤ → Option ℕ → Request
  correct : ℕ → ℤ → Request
  view : ℕ → Request

-- The session after a request at an instant, whether or not it raised.
unfoldable pub serve : ℕ → (ℕ → BookingLookup) → ℕ → Request → Db → Db
serve days look now (award c lp ap b) d = (award_points days look now c lp ap b d).1
serve days look now (spend c cost b) d = (redeem_points now c cost b d).1
serve days look now (cancelled c points b) d = (cancel_booking_points now c points b d).1
serve days look now (correct c delta) d = (adjust_points now c delta d).1
serve days look now (view c) d = (get_account now c d).1
