-- ===== src/Payment/Refunds/Sums.antt =====
-- The sums over the refunds of a payment: `_sum`, `completed_total`, `committed_total` and
-- `_retained_fee` of app/payment/application/refund_lifecycle.py.
use ushbooknpay.Base.{
  ℕ, ◌+◌, ◌≤◌, ◌≡◌, ◌⊎◌, inl, inr, Bool-cases, refl, Bool, true, false, ◌&&◌, not, Option, none,
  some, [], ◌∷◌, arith, ◌==◌, if◌then◌else◌,
}
use ushbooknpay.Base.Int.{ℤ, pos, max_ℤ}
use ushbooknpay.Base.Dict.{Dict, lookup, insert, lookup-insert}
use ushbooknpay.Payment.Refunds.Tables.{Refund, is_completed, is_committed, is_loyalty, has_id}

-- `SUM(refunded_amount)` over the rows that pass the test.
unfoldable pub sum_where : (ℕ → Refund → Bool) → Dict Refund → ℕ
sum_where p [] = 0
sum_where p (e ∷ rows) = (if p e.0 e.1 then e.1.refunded_amount else 0) + sum_where p rows

abbrev pub of_payment : ℕ → Refund → Bool
of_payment p r = has_id p r.payment_id

abbrev pub completed_total : ℕ → Dict Refund → ℕ
completed_total p rows = sum_where (λ i r. of_payment p r && is_completed r.status) rows

abbrev pub completed_total_but : ℕ → ℕ → Dict Refund → ℕ
completed_total_but x p rows =
    sum_where (λ i r. not (i == x) && (of_payment p r && is_completed r.status)) rows

abbrev pub committed_total : ℕ → Dict Refund → ℕ
committed_total p rows = sum_where (λ i r. of_payment p r && is_committed r.status) rows

abbrev pub committed_total_but : ℕ → ℕ → Dict Refund → ℕ
committed_total_but x p rows =
    sum_where (λ i r. not (i == x) && (of_payment p r && is_committed r.status)) rows

-- `MAX(cancellation_fee)` over the committed refunds of the payment, if there are any.
unfoldable pub max_fee : ℕ → Dict Refund → Option ℤ
max_fee p [] = none
max_fee p (e ∷ rows) =
    let rest = max_fee p rows in
    if of_payment p e.1 && is_committed e.1.status
    then elim rest [
      | none ↦ some e.1.cancellation_fee
      | some f ↦ some (max_ℤ e.1.cancellation_fee f)
    ]
    else rest

-- `coalesce(..., ZERO)`
unfoldable pub retained_fee : ℕ → Dict Refund → ℤ
unfolding max_fee
retained_fee p rows = elim (max_fee p rows) [ none ↦ pos 0 | some f ↦ f ]

-- Money that leaves by another way than loyalty points.
abbrev pub paid_out : ℕ → Dict Refund → ℕ
paid_out p rows =
    sum_where (λ i r. of_payment p r && (is_completed r.status && not (is_loyalty r.refund_method)))
      rows

-- Each id stands for one row.
abbrev pub IsKeyed : Dict Refund → Type 0
IsKeyed [] = Unit
IsKeyed (e ∷ rows) = (lookup e.0 rows ≡ none) × IsKeyed rows

abbrev pub amount_if : (ℕ → Refund → Bool) → ℕ → Refund → ℕ
amount_if p i r = if p i r then r.refunded_amount else 0

-- At the head of a table: the row is the one looked for, or the look-up goes on.
head-cases :
    (k i : ℕ) (r found : Refund) (rows : Dict Refund)
    → lookup k ((i, r) ∷ rows) ≡ some found
    → ((i ≡ k) × (r ≡ found) × ((i == k) ≡ true))
      ⊎ (((i == k) ≡ false) × (lookup k rows ≡ some found))
unfolding lookup
head-cases k i r found rows h = ground arith

pub sum-insert :
    (p : ℕ → Refund → Bool) (k : ℕ) (old new : Refund) (rows : Dict Refund)
    → lookup k rows ≡ some old
    → sum_where p (insert k new rows) + amount_if p k old ≡ sum_where p rows + amount_if p k new
unfolding sum_where insert
sum-insert p k old new [] h = unfold lookup in cc
sum-insert p k old new ((i, r) ∷ rows) h = elim (head-cases k i r old rows h) [
  | inl (ik, ro, e) ↦ rw e (rw (ik, ro) (omega arith))
  | inr (e, found) ↦ rw e (omega (arith, sum-insert p k old new rows found))
]

pub sum-insert_new :
    (p : ℕ → Refund → Bool) (k : ℕ) (new : Refund) (rows : Dict Refund)
    → lookup k rows ≡ none
    → sum_where p (insert k new rows) ≡ sum_where p rows + amount_if p k new
unfolding sum_where lookup insert
sum-insert_new p k new [] h = omega arith
sum-insert_new p k new ((i, r) ∷ rows) h = elim (Bool-cases (i == k)) [
  | inl e ↦ absurd (ground arith)
  | inr e ↦ rw e (omega (arith, sum-insert_new p k new rows (ground arith)))
]

abbrev pub but : ℕ → (ℕ → Refund → Bool) → ℕ → Refund → Bool
but k p i r = not (i == k) && p i r

sum-but-none :
    (p : ℕ → Refund → Bool) (k : ℕ) (rows : Dict Refund)
    → lookup k rows ≡ none
    → sum_where (but k p) rows ≡ sum_where p rows
unfolding sum_where lookup
sum-but-none p k [] h = refl
sum-but-none p k ((i, r) ∷ rows) h = elim (Bool-cases (i == k)) [
  | inl e ↦ absurd (ground arith)
  | inr e ↦ rw e (omega (arith, sum-but-none p k rows (ground arith)))
]

-- A sum is the sum over the other rows and what the row itself adds.
pub sum-but :
    (p : ℕ → Refund → Bool) (k : ℕ) (r : Refund) (rows : Dict Refund)
    → IsKeyed rows
    → lookup k rows ≡ some r
    → sum_where p rows ≡ sum_where (but k p) rows + amount_if p k r
unfolding sum_where
sum-but p k found [] u h = unfold lookup in cc
sum-but p k found ((i, r) ∷ rows) u h = elim (head-cases k i r found rows h) [
  | inl (ik, ro, e) ↦ rw e (rw (ik, ro) (omega (arith, sum-but-none p k rows (rw ik at (u.0)))))
  | inr (e, later) ↦ rw e (omega (arith, sum-but p k found rows u.1 later))
]

-- A test that passes fewer rows gives a smaller sum.
pub sum-le :
    (p q : ℕ → Refund → Bool) (rows : Dict Refund)
    → ((i : ℕ) (r : Refund) → p i r ≡ true → q i r ≡ true)
    → sum_where p rows ≤ sum_where q rows
unfolding sum_where
sum-le p q [] h = omega arith
sum-le p q ((i, r) ∷ rows) h = elim (Bool-cases (p i r)) [
  | inl e ↦ rw (e, h i r e) (omega (arith, sum-le p q rows h))
  | inr e ↦ rw e (omega (arith, sum-le p q rows h))
]

insert-lookup_ne :
    (k j : ℕ) (new : Refund) (rows : Dict Refund)
    → ¬ (k ≡ j)
    → lookup j rows ≡ none
    → lookup j (insert k new rows) ≡ none
insert-lookup_ne k j new rows n h = ground (arith, lookup-insert k j new rows)

pub insert-IsKeyed :
    (k : ℕ) (new : Refund) (rows : Dict Refund) → IsKeyed rows → IsKeyed (insert k new rows)
unfolding insert
insert-IsKeyed k new [] u = (unfold lookup in refl, tt)
insert-IsKeyed k new ((i, r) ∷ rows) u = elim (Bool-cases (i == k)) [
  | inl e ↦ let ik : i ≡ k = ground arith in rw e (rw ik at u)
  | inr e ↦ rw e (insert-lookup_ne k i new rows (ground arith) u.0, insert-IsKeyed k new rows u.1)
]
