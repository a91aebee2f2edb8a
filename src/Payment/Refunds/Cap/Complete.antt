-- ===== src/Payment/Refunds/Cap/Complete.antt =====
-- The cap through `complete` of app/payment/application/refund_lifecycle.py, and through all calls.
use ushbooknpay.Base.{
  ℕ, ◌+◌, ◌≤◌, ◌≡◌, ◌⊎◌, inl, inr, Bool-cases, Option-cases, refl, Bool, true, false, ◌&&◌, ◌||◌,
  Option, none, some, ◌∷◌, arith,
}
use ushbooknpay.Base.Dict.{Dict, lookup, insert}
use ushbooknpay.Base.Session.{ok, err, ◌>>=◌, raise_if}
use ushbooknpay.Payment.Refunds.Tables.{
  Refund, Payment, Db, over_balance, unknown_refund, is_completed, is_loyalty, is_open, exceeds,
  has_id,
}
use ushbooknpay.Payment.Refunds.Sums.{
  sum_where, of_payment, paid_out, completed_total, completed_total_but, IsKeyed, but, sum-but,
  sum-le, sum-insert, insert-IsKeyed,
}
use ushbooknpay.Payment.Refunds.{Call, fetch, row_of, check_cap, over_cap}
use ushbooknpay.Payment.Refunds.Transitions.{put_payment, on_booking}
use ushbooknpay.Payment.Refunds.Completion.{
  completed_row, settle, finish, check_paid, complete_found, complete, settled_payment,
  settled_booking, id_of, is_missing,
}
use ushbooknpay.Payment.Refunds.Cap
use ushbooknpay.Payment.Refunds.Cap.Steps as Steps

-- The completed row pays its amount, beside the other rows.
paid_out-completed :
    (p rid : ℕ) (old new : Refund) (rows : Dict Refund)
    → IsKeyed rows
    → lookup rid rows ≡ some old
    → paid_out p (insert rid new rows) ≤ completed_total_but rid p rows + new.refunded_amount
paid_out-completed p rid old new rows u found = ground (
  arith,
  sum-insert (λ i r. of_payment p r && Cap.is_paying r) rid old new rows found,
  sum-but (λ i r. of_payment p r && Cap.is_paying r) rid old rows u found,
  others rid p rows,
)
  where
    others :
        (k q : ℕ) (rows : Dict Refund)
        → sum_where (but k (λ i r. of_payment q r && Cap.is_paying r)) rows
          ≤ completed_total_but k q rows
    others k q rows = sum-le _ _ rows (λ i r h. ground arith)

-- What the check of the cap says of the payment that the refund is of.
within_cap :
    (total : ℕ → Dict Refund → ℕ) (pid : Option ℕ) (amount p : ℕ) (pay : Payment) (d : Db)
    → has_id p pid ≡ true
    → lookup p d.payments ≡ some pay
    → over_cap total pid amount d ≡ false
    → total p d.refunds + amount ≤ pay.total_amount
within_cap total none amount p pay d h found passed = absurd (ground arith)
within_cap total (some x) amount p pay d h found passed =
    let same : x ≡ p = ground arith in
    let known : lookup x d.payments ≡ some pay = cc in
    let within : total x d.refunds + amount ≤ pay.total_amount =
      let e : exceeds (total x d.refunds + amount) pay.total_amount ≡ false =
        rw (over_cap, known) at passed in
      ground arith in
    ground (arith, within)

-- Whether the check before a completion passes.
abbrev pub IsPayable : ℕ → Refund → Db → Type 0
IsPayable rid r d =
    (is_loyalty r.refund_method ≡ true)
    ⊎ (over_cap (completed_total_but rid) r.payment_id r.refunded_amount d ≡ false)

completed-IsWithin :
    (rid : ℕ) (reference : Option ℕ) (r : Refund) (d : Db)
    → Cap.IsCapped d
    → lookup rid d.refunds ≡ some r
    → IsPayable rid r d
    → Cap.IsWithin (insert rid (completed_row reference r) d.refunds) d.payments
completed-IsWithin rid reference r d w found (inl points) =
    Cap.insert-IsWithin rid (completed_row reference r) d.refunds d.payments (ground arith) w
completed-IsWithin rid reference r d w found (inr passed) = (
  insert-IsKeyed rid (completed_row reference r) d.refunds w.0,
  λ p pay e. elim (Bool-cases (of_payment p r)) [
    | inl h ↦ ground (
      arith,
      paid_out-completed p rid r (completed_row reference r) d.refunds w.0 found,
      within_cap (completed_total_but rid) r.payment_id r.refunded_amount p pay d h e passed,
    )
    | inr h ↦ ground (
      arith,
      Cap.paid_out-insert p rid (completed_row reference r) d.refunds (rw h refl),
      w.1 p pay e,
    )
  ],
)

put-IsCapped :
    (p : Option ℕ) (old new : Payment) (d : Db)
    → row_of p d.payments ≡ some old
    → new.total_amount ≡ old.total_amount
    → Cap.IsCapped d
    → Cap.IsCapped (put_payment p new d)
put-IsCapped none old new d found same w = w
put-IsCapped (some p) old new d found same w = Steps.put_payment-IsCapped p old new d found same w

settle-IsCapped : (rid : ℕ) (r : Refund) (d : Db) → Cap.IsCapped d → Cap.IsCapped (settle rid r d).1
settle-IsCapped rid r d w = elim (Option-cases (row_of r.payment_id d.payments)) [
  | inl e ↦ rw (settle, e) w
  | inr (pay, e) ↦ elim (Bool-cases (is_loyalty r.refund_method)) [
    | inl points ↦ rw (settle, e, points) (Cap.add_audit-IsCapped rid pay.status r.payment_id d w)
    | inr money ↦
        rw (settle, e, money)
          (Cap.add_audit-IsCapped rid pay.status r.payment_id _ (
            put-IsCapped r.payment_id pay
              (settled_payment (completed_total (id_of r.payment_id) d.refunds) r pay) d e refl w))
  ]
]

finish-IsCapped :
    (rid : ℕ) (reference : Option ℕ) (publish : Bool) (r : Refund) (d : Db)
    → Cap.IsCapped d
    → lookup rid d.refunds ≡ some r
    → IsPayable rid r d
    → Cap.IsCapped (finish rid reference publish r d)
finish-IsCapped rid reference publish r d w found payable =
    let row = completed_row reference r in
    let stored = record d { refunds = insert rid row d.refunds } in
    let h = settle-IsCapped rid row stored (completed-IsWithin rid reference r d w found payable) in
    let (fully, settled) = settle rid row stored in
    let all_done = fully || is_missing (row_of r.payment_id d.payments) in
    let final =
      on_booking r.booking_id (settled_booking (is_loyalty r.refund_method) all_done) settled in
    let k =
      Cap.on_booking-IsCapped r.booking_id (settled_booking (is_loyalty r.refund_method) all_done)
        settled h in
    Steps.either-IsCapped publish (record final { events = (rid, fully) ∷ final.events }) final k k

pub check_paid-ok :
    (rid : ℕ) (r : Refund) (d : Db) → IsPayable rid r d → check_paid rid r d ≡ (ok tt, d)
unfolding check_paid
check_paid-ok rid r d (inl points) = rw points refl
check_paid-ok rid r d (inr within) = elim (Bool-cases (is_loyalty r.refund_method)) [
  | inl points ↦ rw points refl
  | inr money ↦ rw (money, check_cap, raise_if, within) refl
]

check_paid-over :
    (rid : ℕ) (r : Refund) (d : Db)
    → is_loyalty r.refund_method ≡ false
    → over_cap (completed_total_but rid) r.payment_id r.refunded_amount d ≡ true
    → check_paid rid r d ≡ (err over_balance, d)
unfolding check_paid
check_paid-over rid r d money over = rw (money, check_cap, raise_if, over) refl

pub complete_found-finish :
    (rid : ℕ) (reference : Option ℕ) (publish : Bool) (r : Refund) (d : Db)
    → is_completed r.status ≡ false
    → is_open r.status ≡ true
    → IsPayable rid r d
    → complete_found rid reference publish r d ≡ (ok true, finish rid reference publish r d)
unfolding complete_found
complete_found-finish rid reference publish r d e h k =
    rw (e, h, ◌>>=◌, check_paid-ok rid r d k, check_paid-ok rid r d k) refl

complete_found-over :
    (rid : ℕ) (reference : Option ℕ) (publish : Bool) (r : Refund) (d : Db)
    → is_completed r.status ≡ false
    → is_open r.status ≡ true
    → is_loyalty r.refund_method ≡ false
    → over_cap (completed_total_but rid) r.payment_id r.refunded_amount d ≡ true
    → complete_found rid reference publish r d ≡ (err over_balance, d)
unfolding complete_found
complete_found-over rid reference publish r d e h money over =
    rw (e, h, ◌>>=◌, check_paid-over rid r d money over, check_paid-over rid r d money over) refl

complete_found-IsCapped :
    (rid : ℕ) (reference : Option ℕ) (publish : Bool) (r : Refund) (d : Db)
    → Cap.IsCapped d
    → lookup rid d.refunds ≡ some r
    → Cap.IsCapped (complete_found rid reference publish r d).1
unfolding complete_found
complete_found-IsCapped rid reference publish r d w found =
    elim (Bool-cases (is_completed r.status)) [
      | inl e ↦ rw (complete_found, e) w
      | inr e ↦ elim (Bool-cases (is_open r.status)) [
        | inr h ↦ rw (complete_found, e, h) w
        | inl h ↦ elim (Bool-cases (is_loyalty r.refund_method)) [
          | inl points ↦
              rw (complete_found-finish rid reference publish r d e h (inl points))
                (finish-IsCapped rid reference publish r d w found (inl points))
          | inr money ↦
              elim (Bool-cases
                (over_cap (completed_total_but rid) r.payment_id r.refunded_amount d)) [
                  | inl over ↦ rw (complete_found-over rid reference publish r d e h money over) w
                  | inr within ↦
                      rw (complete_found-finish rid reference publish r d e h (inr within))
                        (finish-IsCapped rid reference publish r d w found (inr within))
                ]
        ]
      ]
    ]

-- A call on a refund that is there, and on one that is not.
pub on_found :
    {A : Type 0} (rid : ℕ) (r : Refund) (f : Refund → Call A) (d : Db)
    → lookup rid d.refunds ≡ some r
    → (fetch rid >>= f) d ≡ f r d
on_found rid r f d e = rw (◌>>=◌, fetch, e) refl

pub on_missing :
    {A : Type 0} (rid : ℕ) (f : Refund → Call A) (d : Db)
    → lookup rid d.refunds ≡ none
    → (fetch rid >>= f) d ≡ (err unknown_refund, d)
on_missing rid f d e = rw (◌>>=◌, fetch, e) refl

pub complete-IsCapping :
    (rid : ℕ) (reference : Option ℕ) (publish : Bool)
    → Cap.IsCapping (complete rid reference publish)
unfolding complete Cap.IsCapping
complete-IsCapping rid reference publish d w = elim (Option-cases (lookup rid d.refunds)) [
  | inl e ↦ rw (on_missing rid (complete_found rid reference publish) d e) w
  | inr (r, e) ↦
      rw (on_found rid r (complete_found rid reference publish) d e)
        (complete_found-IsCapped rid reference publish r d w e)
]
