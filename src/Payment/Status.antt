-- ===== src/Payment/Status.antt =====
-- `PaymentTransactionStatus` of app/payment/domain/value_objects.py and the state machine of
-- app/payment/domain/state_machine.py.
use ushbooknpay.Base.{
  ℕ, ◌≡◌, refl, Bool, true, false, Option, none, some, List, [], ◌∷◌, ◌==◌, any, if◌then◌else◌,
}

pub data PaymentTransactionStatus : Type 0 where
  initiated pending success failed cancelled refunded partially_refunded : PaymentTransactionStatus

abbrev pub index : PaymentTransactionStatus → ℕ
index initiated = 0
index pending = 1
index success = 2
index failed = 3
index cancelled = 4
index refunded = 5
index partially_refunded = 6

abbrev pub is_in : PaymentTransactionStatus → List PaymentTransactionStatus → Bool
is_in s l = any (λ x. index x == index s) l

unfoldable pub valid_transitions : PaymentTransactionStatus → List PaymentTransactionStatus
valid_transitions initiated = pending ∷ failed ∷ cancelled ∷ []
valid_transitions pending = success ∷ failed ∷ cancelled ∷ []
valid_transitions success = refunded ∷ partially_refunded ∷ []
valid_transitions failed = pending ∷ []
valid_transitions cancelled = []
valid_transitions refunded = []
valid_transitions partially_refunded = refunded ∷ []

abbrev pub terminal_payment_statuses : List PaymentTransactionStatus
terminal_payment_statuses = cancelled ∷ refunded ∷ []

unfoldable pub can_transition_to : PaymentTransactionStatus → PaymentTransactionStatus → Bool
unfolding valid_transitions
can_transition_to current target = is_in target (valid_transitions current)

-- `none` is PaymentStateError; the machine's status is then as before.
unfoldable pub transition_to :
    PaymentTransactionStatus → PaymentTransactionStatus → Option PaymentTransactionStatus
unfolding can_transition_to
transition_to current target = if can_transition_to current target then some target else none

unfoldable pub is_terminal : PaymentTransactionStatus → Bool
is_terminal s = is_in s terminal_payment_statuses

-- The terminal statuses are exactly those that no transition leaves.
is_terminal_iff :
    (s : PaymentTransactionStatus)
    → (is_terminal s ≡ true → (t : PaymentTransactionStatus) → can_transition_to s t ≡ false)
      × (is_terminal s ≡ false → (t : PaymentTransactionStatus) × (can_transition_to s t ≡ true))
unfolding is_terminal can_transition_to
is_terminal_iff initiated = (λ h. cc, λ h. (pending, refl))
is_terminal_iff pending = (λ h. cc, λ h. (success, refl))
is_terminal_iff success = (λ h. cc, λ h. (refunded, refl))
is_terminal_iff failed = (λ h. cc, λ h. (pending, refl))
is_terminal_iff cancelled = (λ h t. refl, λ h. cc)
is_terminal_iff refunded = (λ h t. refl, λ h. cc)
is_terminal_iff partially_refunded = (λ h. cc, λ h. (refunded, refl))
