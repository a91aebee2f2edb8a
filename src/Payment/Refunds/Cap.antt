-- ===== src/Payment/Refunds/Cap.antt =====
-- The cap on what is paid out for a payment, and how it passes through the calls that the operations
-- of app/payment/application/refund_lifecycle.py are made of.
pub mod Steps
pub mod Complete
use ushbooknpay.Base.{
  ℕ, ◌+◌, ◌≤◌, ◌≡◌, ◌⊎◌, inl, inr, Bool-cases, Option-cases, refl, Bool, true, false, ◌&&◌, not,
  Option, none, some, List, [], ◌∷◌, arith, ◌==◌, if◌then◌else◌,
}
use ushbooknpay.Base.Int.{ℤ}
use ushbooknpay.Base.Dict.{Dict, lookup, insert, lookup-insert}
use ushbooknpay.Base.Session.{
  Outcome, ok, err, Exec, ◌>>=◌, ◌>>◌, pure, raise, raise_if, gets, modify,
}
use ushbooknpay.Payment.Status.{PaymentTransactionStatus}
use ushbooknpay.Payment.Refunds.Tables.{
  Refund, RefundMethod, Payment, Booking, Db, RefundError, wrong_status, is_completed, is_loyalty,
  RefundStatus, is_open,
}
use ushbooknpay.Payment.Refunds.Sums.{
  sum_where, of_payment, paid_out, IsKeyed, amount_if, sum-insert, sum-insert_new, insert-IsKeyed,
}
use ushbooknpay.Payment.Refunds.{Call, fetch, store, row_of, add_audit, audit_unchanged, check_cap}
use ushbooknpay.Payment.Refunds.Transitions.{on_booking}

-- Each refund has one row, and what completed refunds pay out for a payment is within its total.
abbrev pub IsWithin : Dict Refund → Dict Payment → Type 0
IsWithin rows payments =
    IsKeyed rows
    × ((p : ℕ) (pay : Payment) → lookup p payments ≡ some pay → paid_out p rows ≤ pay.total_amount)

abbrev pub IsCapped : Db → Type 0
IsCapped d = IsWithin d.refunds d.payments

-- A row that pays nothing out.
abbrev pub is_paying : Refund → Bool
is_paying r = is_completed r.status && not (is_loyalty r.refund_method)

pub paid_out-insert :
    (p k : ℕ) (new : Refund) (rows : Dict Refund)
    → (of_payment p new && is_paying new) ≡ false
    → paid_out p (insert k new rows) ≤ paid_out p rows
paid_out-insert p k new rows h = elim (Option-cases (lookup k rows)) [
  | inl e ↦ ground (arith, sum-insert_new (λ i r. of_payment p r && is_paying r) k new rows e)
  | inr (old, e) ↦
      ground (arith, sum-insert (λ i r. of_payment p r && is_paying r) k old new rows e)
]

pub insert-IsWithin :
    (k : ℕ) (new : Refund) (rows : Dict Refund) (payments : Dict Payment)
    → is_paying new ≡ false
    → IsWithin rows payments
    → IsWithin (insert k new rows) payments
insert-IsWithin k new rows payments h w = (
  insert-IsKeyed k new rows w.0,
  λ p pay e. ground (arith, paid_out-insert p k new rows, w.1 p pay e),
)

pub payment-IsWithin :
    (p : ℕ) (old new : Payment) (rows : Dict Refund) (payments : Dict Payment)
    → lookup p payments ≡ some old
    → new.total_amount ≡ old.total_amount
    → IsWithin rows payments
    → IsWithin rows (insert p new payments)
payment-IsWithin p old new rows payments found same w =
    (w.0, λ q pay e. ground (arith, lookup-insert p q new payments, w.1 q pay, w.1 p old found))

-- A call after which the cap holds, where it did before.
unfoldable pub IsCapping : {A : Type 0} → Call A → Type 0
IsCapping m = (d : Db) → IsCapped d → IsCapped (m d).1

Outcome-cases : {E A : Type 0} (o : Outcome E A) → ((e : E) × (o ≡ err e)) ⊎ ((a : A) × (o ≡ ok a))
Outcome-cases (ok a) = inr (a, refl)
Outcome-cases (err e) = inl (e, refl)

pub bind-IsCapping :
    {A B : Type 0} (m : Call A) (f : A → Call B)
    → IsCapping m
    → ((a : A) → IsCapping (f a))
    → IsCapping (m >>= f)
unfolding IsCapping
bind-IsCapping m f hm hf d w = elim (Outcome-cases (m d).0) [
  | inl (e, h) ↦ rw (◌>>=◌, h) (hm d w)
  | inr (a, h) ↦ rw (◌>>=◌, h) (hf a (m d).1 (hm d w))
]

pub store-IsCapping : (k : ℕ) (r : Refund) → is_paying r ≡ false → IsCapping (store k r)
unfolding IsCapping
store-IsCapping k r h d w = insert-IsWithin k r d.refunds d.payments h w

pub raise_if-IsCapping : (c : Bool) (e : RefundError) → IsCapping (raise_if c e)
unfolding IsCapping
raise_if-IsCapping c e d w = w

pub fetch-IsCapping : (k : ℕ) → IsCapping (fetch k)
unfolding IsCapping
fetch-IsCapping k d w = w

pub if-IsCapping :
    {A : Type 0} (c : Bool) (m n : Call A)
    → IsCapping m
    → IsCapping n
    → IsCapping (if c then m else n)
if-IsCapping true m n hm hn = hm
if-IsCapping false m n hm hn = hn

pub add_audit-IsCapped :
    (k : ℕ) (s : PaymentTransactionStatus) (p : Option ℕ) (d : Db)
    → IsCapped d
    → IsCapped (add_audit k s p d)
add_audit-IsCapped k s none d w = w
add_audit-IsCapped k s (some p) d w = elim (Option-cases (lookup p d.payments)) [
  | inl e ↦ rw (add_audit, e) w
  | inr (pay, e) ↦ rw (add_audit, e) w
]

pub on_booking-IsCapped :
    (b : Option ℕ) (f : Booking → Booking) (d : Db) → IsCapped d → IsCapped (on_booking b f d)
on_booking-IsCapped none f d w = w
on_booking-IsCapped (some b) f d w = elim (Option-cases (lookup b d.bookings)) [
  | inl e ↦ rw (on_booking, e) w
  | inr (row, e) ↦ rw (on_booking, e) w
]

pub audit_unchanged-IsCapping : (k : ℕ) (p : Option ℕ) → IsCapping (audit_unchanged k p)
unfolding IsCapping
audit_unchanged-IsCapping k p d w = elim (Option-cases (row_of p d.payments)) [
  | inl e ↦ rw (audit_unchanged, e) w
  | inr (pay, e) ↦ rw (audit_unchanged, e) (add_audit-IsCapped k pay.status p d w)
]

pub pure-IsCapping : {A : Type 0} (a : A) → IsCapping (pure a)
unfolding IsCapping
pure-IsCapping a d w = w

pub raise-IsCapping : (A : Type 0) (e : RefundError) → IsCapping {A = A} (raise e)
unfolding IsCapping
raise-IsCapping A e d w = w

-- A check, and then the rest, which may rely on it.
pub checked-IsCapping :
    {A : Type 0} (c : Bool) (e : RefundError) (m : Call A)
    → (c ≡ false → IsCapping m)
    → IsCapping (raise_if c e >> m)
unfolding IsCapping
checked-IsCapping true e m h d w = w
checked-IsCapping false e m h d w = h refl d w

-- A branch, which may rely on what was tested.
pub branch-IsCapping :
    {A : Type 0} (c : Bool) (m n : Call A)
    → IsCapping m
    → (c ≡ false → IsCapping n)
    → IsCapping (if c then m else n)
branch-IsCapping true m n h k = h
branch-IsCapping false m n h k = k refl

pub check_cap-IsCapping :
    (total : ℕ → Dict Refund → ℕ) (p : Option ℕ) (amount : ℕ) → IsCapping (check_cap total p amount)
unfolding IsCapping
check_cap-IsCapping total p amount d w = w

pub then-IsCapping :
    {A B : Type 0} (m : Call A) (n : Call B) → IsCapping m → IsCapping n → IsCapping (m >> n)
then-IsCapping m n h k = bind-IsCapping m (λ _. n) h (λ _. k)

pub modify-IsCapping :
    (f : Db → Db) → ((d : Db) → IsCapped d → IsCapped (f d)) → IsCapping (modify f)
unfolding IsCapping
modify-IsCapping f h d w = h d w

pub ruleset capping = (
  bind-IsCapping, store-IsCapping, raise_if-IsCapping, fetch-IsCapping, if-IsCapping,
  audit_unchanged-IsCapping, pure-IsCapping, raise-IsCapping, check_cap-IsCapping, then-IsCapping,
  refl,
)
