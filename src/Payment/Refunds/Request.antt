-- ===== src/Payment/Refunds/Request.antt =====
-- `request` of app/payment/application/refund_lifecycle.py made twice with one key.
use ushbooknpay.Base.{
  ℕ, ◌≡◌, ◌∙◌, ap, inl, inr, Bool-cases, Option-cases, refl, Bool, true, false, Option, none, some,
  [], ◌∷◌, arith, ◌==◌,
}
use ushbooknpay.Base.Int.{pos, pos_part, ltb_ℤ, leb_ℤ}
use ushbooknpay.Base.Dict.{Dict, lookup, insert}
use ushbooknpay.Base.Session.{err-ok, ok-ok, ok, err, ◌>>=◌, ◌>>◌, raise_if}
use ushbooknpay.Payment.Refunds.Tables.{Refund, Db, not_positive, negative_fee, over_balance}
use ushbooknpay.Payment.Refunds.Sums.{committed_total}
use ushbooknpay.Payment.Refunds.{
  row_of, audit_unchanged, same_key, with_key, existing, Order, requested_row, over_cap, check_cap,
  create, request,
}
use ushbooknpay.Payment.Refunds.Lifecycle.{add_audit-refunds}

with_key-insert :
    (k rid : ℕ) (new : Refund) (rows : Dict Refund)
    → lookup rid rows ≡ none
    → with_key k rows ≡ none
    → same_key k new ≡ true
    → with_key k (insert rid new rows) ≡ some rid
unfolding with_key lookup insert
with_key-insert k rid new [] fresh h s = rw s refl
with_key-insert k rid new ((i, r) ∷ rows) fresh h s = elim (Bool-cases (i == rid)) [
  | inl e ↦ absurd (ground arith)
  | inr e ↦ elim (Bool-cases (same_key k r)) [
    | inl t ↦ absurd (ground arith)
    | inr t ↦ rw (e, t) (with_key-insert k rid new rows (rw e at fresh) (rw t at h) s)
  ]
]

pub audit_unchanged-refunds :
    (k : ℕ) (p : Option ℕ) (d : Db) → (audit_unchanged k p d).1.refunds ≡ d.refunds
audit_unchanged-refunds k p d = elim (Option-cases (row_of p d.payments)) [
  | inl e ↦ rw (audit_unchanged, e) refl
  | inr (pay, e) ↦ rw (audit_unchanged, e) (add_audit-refunds k pay.status p d)
]

same_number : (k : ℕ) → (k == k) ≡ true
same_number k = ground arith

module _ (rid : ℕ) (o : Order) (d : Db) where
  abbrev pub stored : Db
  stored = record d { refunds = insert rid (requested_row o) d.refunds }

  create-not_positive :
      leb_ℤ o.refund_amount (pos 0) ≡ true → create rid o d ≡ (err not_positive, d)
  unfolding create
  create-not_positive a = rw (a) refl

  create-negative_fee :
      leb_ℤ o.refund_amount (pos 0) ≡ false
      → ltb_ℤ o.fee (pos 0) ≡ true
      → create rid o d ≡ (err negative_fee, d)
  unfolding create
  create-negative_fee a b = rw (a, ◌>>◌, ◌>>=◌, raise_if, b) refl

  create-over_balance :
      leb_ℤ o.refund_amount (pos 0) ≡ false
      → ltb_ℤ o.fee (pos 0) ≡ false
      → over_cap committed_total o.payment (pos_part o.refund_amount) d ≡ true
      → create rid o d ≡ (err over_balance, d)
  unfolding create
  create-over_balance a b c = rw (a, ◌>>◌, ◌>>=◌, raise_if, b, check_cap, c) refl

  create-new :
      leb_ℤ o.refund_amount (pos 0) ≡ false
      → ltb_ℤ o.fee (pos 0) ≡ false
      → over_cap committed_total o.payment (pos_part o.refund_amount) d ≡ false
      → create rid o d ≡ (ok (rid, true), (audit_unchanged rid o.payment stored).1)
  unfolding create
  create-new a b c = rw (a, ◌>>◌, ◌>>=◌, raise_if, b, check_cap, c) refl

  -- A creation that returns has stored the new row and no other.
  pub create-stored :
      (x : ℕ × Bool)
      → (create rid o d).0 ≡ ok x
      → (x ≡ (rid, true)) × ((create rid o d).1.refunds ≡ stored.refunds)
  create-stored x h = elim (Bool-cases (leb_ℤ o.refund_amount (pos 0))) [
    | inl a ↦
        absurd (err-ok not_positive x (create rid o d).0 (ap (λ y. y.0) (create-not_positive a)) h)
    | inr a ↦ elim (Bool-cases (ltb_ℤ o.fee (pos 0))) [
      | inl b ↦
          absurd
            (err-ok negative_fee x (create rid o d).0 (ap (λ y. y.0) (create-negative_fee a b)) h)
      | inr b ↦
          elim (Bool-cases (over_cap committed_total o.payment (pos_part o.refund_amount) d)) [
            | inl c ↦ absurd (
                err-ok over_balance x (create rid o d).0 (ap (λ y. y.0) (create-over_balance a b c))
                  h)
            | inr c ↦ (
              ok-ok x (rid, true) (create rid o d).0 h (ap (λ y. y.0) (create-new a b c)),
              rw (create-new a b c) (audit_unchanged-refunds rid o.payment stored),
            )
          ]
    ]
  ]

  pub request-new : existing o.key d.refunds ≡ none → request rid o d ≡ create rid o d
  unfolding request
  request-new e = rw (request, e) refl

  request-found : (i : ℕ) → existing o.key d.refunds ≡ some i → request rid o d ≡ (ok (i, false), d)
  unfolding request
  request-found i e = rw (request, e) refl

  -- After a request that returned, its key finds the refund that it returned.
  request-existing :
      (k i : ℕ) (c : Bool)
      → o.key ≡ some k
      → lookup rid d.refunds ≡ none
      → (request rid o d).0 ≡ ok (i, c)
      → existing (some k) (request rid o d).1.refunds ≡ some i
  request-existing k i c key fresh h = elim (Option-cases (existing o.key d.refunds)) [
    | inr (j, e) ↦
        let same : (j, false) ≡ (i, c) =
          ok-ok (j, false) (i, c) (request rid o d).0 (ap (λ y. y.0) (request-found j e)) h in
        rw (request-found j e) ((rw key at e) ∙ ap (λ x. some x.0) same)
    | inl e ↦
        let (same, rows) = create-stored (i, c) (rw (request-new e) at h) in
        rw (request-new e, rows, ap (λ x. x.0) same)
          (with_key-insert k rid (requested_row o) d.refunds fresh (rw key at e)
            (rw key (same_number k)))
  ]

-- A second request with the key of a first that returned, whatever else it asks for, gets the refund of
-- the first, as one that was there, and changes nothing; the first had a new id for its row.
pub request-once :
    (rid later : ℕ) (o second : Order) (d : Db) (k i : ℕ) (created : Bool)
    → o.key ≡ some k
    → second.key ≡ some k
    → lookup rid d.refunds ≡ none
    → (request rid o d).0 ≡ ok (i, created)
    → let after = (request rid o d).1 in request later second after ≡ (ok (i, false), after)
request-once rid later o second d k i created key again fresh h =
    request-found later second (request rid o d).1 i
      (rw again (request-existing rid o d k i created key fresh h))
