-- ===== src/Voucher/Status.antt =====
-- `GiftVoucherStatus` of app/voucher/domain/value_objects.py and the state machine of
-- app/voucher/domain/state_machine.py.
use ushbooknpay.Base.{ℕ, Bool, ◌||◌, List, [], ◌∷◌, ◌==◌, any}

pub data GiftVoucherStatus : Type 0 where
  created payment_pending scheduled active partially_redeemed redeemed fulfilled expired cancelled :
      GiftVoucherStatus

abbrev pub index : GiftVoucherStatus → ℕ
index created = 0
index payment_pending = 1
index scheduled = 2
index active = 3
index partially_redeemed = 4
index redeemed = 5
index fulfilled = 6
index expired = 7
index cancelled = 8

abbrev pub is_in : GiftVoucherStatus → List GiftVoucherStatus → Bool
is_in s l = any (λ x. index x == index s) l

-- `_TRANSITIONS`
unfoldable pub allowed_transitions : GiftVoucherStatus → List GiftVoucherStatus
allowed_transitions created = payment_pending ∷ active ∷ scheduled ∷ cancelled ∷ []
allowed_transitions payment_pending = active ∷ scheduled ∷ payment_pending ∷ cancelled ∷ []
allowed_transitions scheduled = scheduled ∷ active ∷ cancelled ∷ []
allowed_transitions active = partially_redeemed ∷ redeemed ∷ expired ∷ cancelled ∷ []
allowed_transitions partially_redeemed = partially_redeemed ∷ redeemed ∷ expired ∷ cancelled ∷ []
allowed_transitions redeemed = fulfilled ∷ []
allowed_transitions fulfilled = []
allowed_transitions expired = []
allowed_transitions cancelled = []

-- `false` is the ValueError.
unfoldable pub validate_transition : GiftVoucherStatus → GiftVoucherStatus → Bool
unfolding allowed_transitions
validate_transition current new =
    index current == index new || is_in new (allowed_transitions current)
