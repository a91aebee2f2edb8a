-- ===== src/Loyalty/Accounts.antt =====
-- The tables of app/loyalty/infrastructure/models.py, the transaction types of domain/models.py,
-- the rules of domain/rules.py, and the session that the repository works in. Instants are
-- microseconds; account and booking ids are numbers.
use ushbooknpay.Base.{ℕ, ◌+◌, ◌*◌, Bool, false, Option, none, some, List, leb, if◌then◌else◌}
use ushbooknpay.Base.Int.{ℤ, pos, ltb_ℤ, leb_ℤ, max_ℤ}
use ushbooknpay.Base.Dict.{Dict}

pub data TransactionType : Type 0 where
  earn redeem expire adjust cancel : TransactionType

pub record Account : Type 0 where
  pub balance_points : ℤ
  pub total_earned : ℤ
  pub total_redeemed : ℤ
  pub points_expire_at : Option ℕ
  pub updated_at : ℕ

pub record Transaction : Type 0 where
  pub customer_id : ℕ
  pub transaction_type : TransactionType
  pub points : ℤ
  pub booking_id : Option ℕ

-- What a database session sees: the accounts by customer, and the transactions, newest first.
pub record Db : Type 0 where
  pub accounts : Dict Account
  pub ledger : List Transaction

-- The `ValueError`s.
pub data LoyaltyError : Type 0 where
  nothing_to_credit no_account bad_cost insufficient : LoyaltyError

pub data Result {ℓ} (A : Type ℓ) : Type ℓ where
  ok : A → Result A
  err : LoyaltyError → Result A

-- A call within a session: what was written before a raise is still in the session.
abbrev pub Action : Type 0 → Type 0
Action A = Db → Result A × Db

infixl 5 ◌>>=◌ ◌>>◌
abbrev pub ◌>>=◌ : {A B : Type 0} → Action A → (A → Action B) → Action B
◌>>=◌ m f d = let (r, d') = m d in elim r [ ok a ↦ f a d' | err e ↦ (err e, d') ]

abbrev pub ◌>>◌ : {A B : Type 0} → Action A → Action B → Action B
m >> k = m >>= λ _. k

abbrev pub pure : {A : Type 0} → A → Action A
pure a d = (ok a, d)

abbrev pub raise : {A : Type 0} → LoyaltyError → Action A
raise e d = (err e, d)

abbrev pub raise_if : Bool → LoyaltyError → Action (Unit {0})
raise_if c e d = (if c then err e else ok tt, d)

-- `LoyaltyAccount(customer_id=...)` with the columns' defaults
abbrev pub new_account : ℕ → Account
new_account now = record {
  balance_points = pos 0;
  total_earned = pos 0;
  total_redeemed = pos 0;
  points_expire_at = none;
  updated_at = now;
}

unfoldable pub resolve_earn_points : ℤ → Option ℤ → ℤ
resolve_earn_points loyalty_points none = max_ℤ (pos 0) loyalty_points
resolve_earn_points loyalty_points (some arrangement) =
    if ltb_ℤ (pos 0) arrangement then arrangement else max_ℤ (pos 0) loyalty_points

-- `timedelta(days=n)`
abbrev pub days : ℕ → ℕ
days n = n * 86400000000

unfoldable pub compute_expiry : ℕ → ℕ → ℕ
compute_expiry now expiry_days = now + days expiry_days

unfoldable pub is_account_expired : ℕ → Option ℕ → Bool
is_account_expired now none = false
is_account_expired now (some at) = leb at now

unfoldable pub assert_sufficient_balance : ℤ → ℤ → Action (Unit {0})
assert_sufficient_balance balance cost = do
  raise_if (leb_ℤ cost (pos 0)) bad_cost
  raise_if (ltb_ℤ balance cost) insufficient
