-- ===== src/Payment/Service/Manual.antt =====
-- What an accepted refund by hand leaves in the rows, for `record_manual_refund` of
-- app/payment/application/refund_service.py.
use ushbooknpay.Base.{
  ℕ, ◌≡◌, refl, ap, sym, ◌∙◌, inl, inr, Bool, true, false, not, Option, none, some, arith,
  Bool-cases,
}
use mathlib.Core.Path.{subst}
use ushbooknpay.Base.Int.{ℤ, pos, ◌≤ℤ◌, leb_ℤ, ltb_ℤ}
use ushbooknpay.Base.Dict.{lookup}
use ushbooknpay.Base.Session.{Outcome, ok, ◌>>=◌, ◌>>◌, pure, raise_if, modify, bind-ok, ok-ok}
use ushbooknpay.Payment.Refunds.Tables.{
  RefundMethod, Refund, Db, completed, wrong_status, is_open, is_completed, is_loyalty,
}
use ushbooknpay.Payment.Refunds.Sums.{IsKeyed}
use ushbooknpay.Payment.Refunds.{fetch}
use ushbooknpay.Payment.Refunds.Completion.{
  check_paid, finish, completed_row, complete_found, complete,
}
use ushbooknpay.Payment.Refunds.Lifecycle.{finished_row}
use ushbooknpay.Payment.Service.{
  Desk, ServiceError, not_above_zero, below_zero, fee_too_large, Wanted, on_db, manual_refund,
  check_manual, complete_as, record_checked, record_manual_refund, resolve_refund_to_execute,
}
use ushbooknpay.Payment.Service.Open.{IsSubmittable}
use ushbooknpay.Payment.Service.Recorded.{lifted-ok, resolve-ok}

-- A check changes no row.
check_paid-rows : (rid : ℕ) (r : Refund) (d : Db) → (check_paid rid r d).1 ≡ d
unfolding check_paid
check_paid-rows rid r d = elim (Bool-cases (is_loyalty r.refund_method)) [
  | inl t ↦ rw t refl
  | inr f ↦ rw f refl
]

module _ (rid : ℕ) (reference : Option ℕ) (publish : Bool) (r : Refund) (d : Db) where
  complete_found-ok :
      (b : Bool)
      → is_completed r.status ≡ false
      → (complete_found rid reference publish r d).0 ≡ ok b
      → complete_found rid reference publish r d ≡ (ok true, finish rid reference publish r d)
  unfolding complete_found
  complete_found-ok b new h =
      let end = modify (finish rid reference publish r) >> pure true in
      let checked = check_paid rid r >> end in
      let guarded = raise_if (not (is_open r.status)) wrong_status >> checked in
      let start : complete_found rid reference publish r d ≡ guarded d = rw new refl in
      let h0 : (guarded d).0 ≡ ok b = ap (λ x. x.0) (sym start) ∙ h in
      let (u, e, p) =
        bind-ok (raise_if (not (is_open r.status)) wrong_status) (λ x. checked) d b h0 in
      let h1 : (checked d).0 ≡ ok b = ap (λ x. x.0) (sym p) ∙ h0 in
      let (v, f, q) = bind-ok (check_paid rid r) (λ x. end) d b h1 in
      start ∙ (p ∙ (q ∙ ap end (check_paid-rows rid r d)))

  completed_by :
      (b : Bool)
      → lookup rid d.refunds ≡ some r
      → is_completed r.status ≡ false
      → (complete rid reference publish d).0 ≡ ok b
      → lookup rid (complete rid reference publish d).1.refunds ≡ some (completed_row reference r)
  unfolding complete
  completed_by b found new h =
      let same : complete rid reference publish d ≡ complete_found rid reference publish r d =
        rw (fetch, found, ◌>>=◌) refl in
      ap (λ x. lookup rid x.1.refunds)
        (same ∙ complete_found-ok b new (ap (λ x. x.0) (sym same) ∙ h))
      ∙ finished_row rid reference publish r d

-- The refund is there and is completed.
abbrev pub IsCompleted : ℕ → Db → Type 0
IsCompleted rid d = (r : Refund) × (lookup rid d.refunds ≡ some r) × (r.status ≡ completed)

-- The amount is above zero, and the fee neither negative nor above the amount.
abbrev pub IsAllowed : ℤ → ℤ → Type 0
IsAllowed amount fee = (pos 1 ≤ℤ amount) × (pos 0 ≤ℤ fee) × (fee ≤ℤ amount)

check_manual-none : (amount fee : ℤ) → check_manual amount fee ≡ none → IsAllowed amount fee
check_manual-none amount fee h = elim (Bool-cases (leb_ℤ amount (pos 0))) [
  | inl a ↦ let no : some not_above_zero ≡ none = rw a at h in absurd (cc)
  | inr a ↦ elim (Bool-cases (ltb_ℤ fee (pos 0))) [
    | inl b ↦ let no : some below_zero ≡ none = rw (a, b) at h in absurd (cc)
    | inr b ↦ elim (Bool-cases (ltb_ℤ amount fee)) [
      | inl c ↦ let no : some fee_too_large ≡ none = rw (a, b, c) at h in absurd (cc)
      | inr c ↦ (ground (arith, a), ground (arith, b), ground (arith, c))
    ]
  ]
]

complete_as-ok :
    (reference : Option ℕ) (rid x : ℕ) (s : Desk)
    → IsSubmittable rid s.db
    → (complete_as reference rid s).0 ≡ ok x
    → (x ≡ rid) × IsCompleted x (complete_as reference rid s).1.db
complete_as-ok reference rid x s (r, found, able) h =
    let (b, e, p) = bind-ok (on_db (complete rid reference false)) (λ y. pure rid) s x h in
    let done = lifted-ok ((complete rid reference false s.db).0) b e in
    let same : x ≡ rid = ok-ok x rid ((complete_as reference rid s).0) h (ap (λ y. y.0) p) in
    (
      same,
      (
        completed_row reference r,
        ap (λ y. lookup x y.1.db.refunds) p
            ∙ subst
                (λ k.
                  lookup k (complete rid reference false s.db).1.refunds
                  ≡ some (completed_row reference r))
                (sym same)
                (completed_by rid reference false r s.db b found (ground (arith, able)) done),
        refl,
      ),
    )

module _ (new_id : ℕ) (reference : Option ℕ) (s : Desk) (keyed : IsKeyed s.db.refunds) where
  record_checked-ok :
      (w : Wanted) (c : Option ServiceError) (x : ℕ)
      → (record_checked new_id w reference c s).0 ≡ ok x
      → (c ≡ none) × IsCompleted x (record_checked new_id w reference c s).1.db
  record_checked-ok w (some e) x h = absurd (cc)
  record_checked-ok w none x h =
      let (rid, e, p) =
        bind-ok (resolve_refund_to_execute new_id w) (complete_as reference) s x h in
      let t = (resolve_refund_to_execute new_id w s).1 in
      let (same, done) =
        complete_as-ok reference rid x t (resolve-ok w s new_id rid keyed e)
          (ap (λ y. y.0) (sym p) ∙ h) in
      (refl, subst (λ (y : Outcome ServiceError ℕ × Desk). IsCompleted x y.1.db) (sym p) done)

  -- A refund by hand that is accepted has an amount above zero and a fee that is neither negative nor
  -- above the amount, and the refund that was found or made for it is completed.
  pub record_manual_refund-IsCompleted :
      (booking : ℕ) (payment : Option ℕ) (amount fee : ℤ) (method : RefundMethod) (rid : ℕ)
      → (record_manual_refund new_id booking payment amount fee method reference s).0 ≡ ok rid
      → IsAllowed amount fee
        × IsCompleted rid
            (record_manual_refund new_id booking payment amount fee method reference s).1.db
  unfolding record_manual_refund
  record_manual_refund-IsCompleted booking payment amount fee method rid h =
      let (checked, done) =
        record_checked-ok (manual_refund booking payment amount fee method)
          (check_manual amount fee) rid h in
      (check_manual-none amount fee checked, done)
