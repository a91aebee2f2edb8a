-- ===== src/Payment/Service/Open.antt =====
-- The refund that `_resolve_refund_to_execute` of app/payment/application/refund_service.py chooses.
use ushbooknpay.Base.{
  ℕ, ◌≡◌, refl, ap, sym, ◌∙◌, inl, inr, Bool, true, false, ◌&&◌, ◌||◌, not, Option, some, [], ◌∷◌,
  arith, ◌==◌, Bool-cases,
}
use mathlib.Core.Path.{subst}
use ushbooknpay.Base.Int.{ℤ, pos, pos_part, ◌+ℤ◌, leb_ℤ}
use ushbooknpay.Base.Dict.{Dict, lookup, insert, lookup-insert}
use ushbooknpay.Base.Session.{ok, ◌>>=◌, ◌>>◌, raise_if, bind-ok}
use ushbooknpay.Payment.Refunds.Tables.{
  Refund, RefundStatus, Db, not_positive, wrong_status, is_open, is_completed, has_id,
}
use ushbooknpay.Payment.Refunds.Sums.{IsKeyed, committed_total_but}
use ushbooknpay.Payment.Refunds.{
  fetch, store, audit_unchanged, check_cap, is_requested, update_found, update_requested_amounts,
}
use ushbooknpay.Payment.Refunds.Request.{audit_unchanged-refunds}
use ushbooknpay.Payment.Refunds.Transitions.{
  is_approved, is_processing, processing_row, mark_processing_found, mark_processing,
}
use ushbooknpay.Payment.Service.{
  Wanted, find_open_refund, retyped, set_method, amend_if, or_nothing,
}

-- A refund that the gateway can be asked for.
abbrev pub is_submittable : RefundStatus → Bool
is_submittable s = is_requested s || is_approved s

abbrev pub IsSubmittable : ℕ → Db → Type 0
IsSubmittable rid d =
    (r : Refund) × (lookup rid d.refunds ≡ some r) × (is_submittable r.status ≡ true)

pub lookup_self : (k : ℕ) (r : Refund) (rows : Dict Refund) → lookup k (insert k r rows) ≡ some r
lookup_self k r rows =
    let same : (k == k) ≡ true = ground arith in lookup-insert k k r rows ∙ rw same refl

pub find_open_refund-lookup :
    (booking : ℕ) (rows : Dict Refund) (rid : ℕ)
    → IsKeyed rows
    → find_open_refund booking rows ≡ some rid
    → (r : Refund) × (lookup rid rows ≡ some r) × (is_open r.status ≡ true)
unfolding find_open_refund lookup
find_open_refund-lookup booking [] rid k h = absurd (cc)
find_open_refund-lookup booking (e ∷ rows) rid k h =
    elim (Bool-cases (has_id booking e.1.booking_id && is_open e.1.status)) [
      | inl t ↦
          let first : some e.0 ≡ some rid = rw t at h in
          let same : e.0 ≡ rid = cc in (e.1, ground (arith, same), ground (arith, t))
      | inr f ↦
          let later : find_open_refund booking rows ≡ some rid = rw f at h in
          let (r, found, opened) = find_open_refund-lookup booking rows rid k.1 later in
          elim (Bool-cases (e.0 == rid)) [
            | inl s ↦
                let same : rid ≡ e.0 = ground (arith, s) in
                let twice : lookup e.0 rows ≡ some r =
                  subst (λ x. lookup x rows ≡ some r) same found in
                let once = k.0 in absurd (cc)
            | inr s ↦ (r, rw s found, opened)
          ]
    ]

module _ (rid : ℕ) (d : Db) (r : Refund) (found : lookup rid d.refunds ≡ some r) where
  abbrev amended : ℤ → ℤ → Refund
  amended amount fee = record r {
    refunded_amount = pos_part amount;
    cancellation_fee = fee;
    requested_amount = amount +ℤ fee;
  }

  update_found-store :
      (amount fee : ℤ)
      → (update_found rid amount fee r d).0 ≡ ok tt
      → update_found rid amount fee r d ≡ store rid (amended amount fee) d
  unfolding update_found
  update_found-store amount fee h =
      let write = store rid (amended amount fee) in
      let check = check_cap (committed_total_but rid) r.payment_id (pos_part amount) in
      let paying = raise_if (leb_ℤ amount (pos 0)) not_positive >> (check >> write) in
      let (u, e, p) =
        bind-ok (raise_if (not (is_requested r.status)) wrong_status) (λ x. paying) d tt h in
      let h' : (paying d).0 ≡ ok tt = ap (λ x. x.0) (sym p) ∙ h in
      let (v, f, q) =
        bind-ok (raise_if (leb_ℤ amount (pos 0)) not_positive) (λ x. check >> write) d tt h' in
      let h2 : ((check >> write) d).0 ≡ ok tt = ap (λ x. x.0) (sym q) ∙ h' in
      let (w, g, s) = bind-ok check (λ x. write) d tt h2 in p ∙ (q ∙ s)

  update-ok :
      (amount fee : ℤ)
      → (update_requested_amounts rid amount fee d).0 ≡ ok tt
      → (update_requested_amounts rid amount fee d).1.refunds
        ≡ insert rid (amended amount fee) d.refunds
  unfolding update_requested_amounts
  update-ok amount fee h =
      let same : update_requested_amounts rid amount fee d ≡ update_found rid amount fee r d =
        rw (fetch, found, ◌>>=◌) refl in
      let h' : (update_found rid amount fee r d).0 ≡ ok tt = ap (λ x. x.0) (sym same) ∙ h in
      ap (λ x. x.1.refunds) (same ∙ update_found-store amount fee h')

  -- Amending keeps the status of the refund.
  pub amend_if-status :
      (changed : Bool) (w : Wanted)
      → (amend_if changed rid w d).0 ≡ ok tt
      → (r' : Refund) × (lookup rid (amend_if changed rid w d).1.refunds ≡ some r')
        × (r'.status ≡ r.status)
  amend_if-status false w h = (r, found, refl)
  amend_if-status true w h = (
    amended (or_nothing w.net_amount) w.cancellation_fee,
    ap (lookup rid) (update-ok (or_nothing w.net_amount) w.cancellation_fee h)
        ∙ lookup_self rid (amended (or_nothing w.net_amount) w.cancellation_fee) d.refunds,
    refl,
  )

  pub set_method-found :
      (w : Wanted)
      → set_method rid w d ≡ (ok rid, record d { refunds = insert rid (retyped w r) d.refunds })
  unfolding set_method
  set_method-found w = rw (fetch, found, ◌>>=◌) refl

  -- A refund that is requested or approved starts to be processed.
  pub mark_processing-found :
      (reference : Option ℕ)
      → is_submittable r.status ≡ true
      → ((mark_processing rid reference d).0 ≡ ok tt)
        × ((mark_processing rid reference d).1.refunds
            ≡ insert rid (processing_row reference r) d.refunds)
  unfolding mark_processing mark_processing_found
  mark_processing-found reference h =
      let idle : (is_completed r.status || is_processing r.status) ≡ false = ground (arith, h) in
      let same : mark_processing rid reference d
          ≡ audit_unchanged rid r.payment_id
              (record d { refunds = insert rid (processing_row reference r) d.refunds }) =
        rw (fetch, found, ◌>>=◌) (rw (idle, raise_if, h) refl) in
      (
        ap (λ x. x.0) same,
        ap (λ x. x.1.refunds) same
            ∙ audit_unchanged-refunds rid r.payment_id
                (record d { refunds = insert rid (processing_row reference r) d.refunds }),
      )
