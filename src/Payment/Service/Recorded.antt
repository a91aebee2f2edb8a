-- ===== src/Payment/Service/Recorded.antt =====
-- What `process_gateway_refund` of app/payment/application/refund_service.py asks of a gateway, and what it
-- records of it.
use ushbooknpay.Base.{
  ℕ, ◌≡◌, ◌⊎◌, refl, ap, sym, ◌∙◌, inl, inr, true, Option, none, some, ◌∷◌, arith, Bool-cases,
}
use mathlib.Core.Path.{subst}
use ushbooknpay.Base.Dict.{lookup, insert}
use ushbooknpay.Base.Session.{Outcome, ok, err, ◌>>=◌, ◌>>◌, pure, err-ok, ok-ok, bind-ok}
use ushbooknpay.Payment.Refunds.Tables.{Refund, processing, RefundError, is_open}
use ushbooknpay.Payment.Refunds.Sums.{IsKeyed}
use ushbooknpay.Payment.Refunds.{fetch, request, requested_row}
use ushbooknpay.Payment.Refunds.Request.{create-stored, request-new}
use ushbooknpay.Payment.Refunds.Transitions.{is_processing}
use ushbooknpay.Payment.Service.{
  Desk, Job, ServiceError, already_processing, gateway_failed, gateway_declined, lifted, on_db,
  Wanted, find_open_refund, retyped, set_method, amend_if, is_changed, reuse, order_of,
  requested_id, amount_of, request_new, resolve_found, resolve_refund_to_execute, RefundOrder,
  GatewayAnswer, failed, declined, accepted,
}
use ushbooknpay.Payment.Service.Open.{
  is_submittable, IsSubmittable, lookup_self, find_open_refund-lookup, amend_if-status,
  set_method-found,
}

pub lifted-ok : {A : Type 0} (r : Outcome RefundError A) (a : A) → lifted r ≡ ok a → r ≡ ok a
lifted-ok (ok b) a h = cc
lifted-ok (err e) a h = absurd (cc)

-- A job that asks no gateway for anything.
abbrev IsQuiet : {A : Type 0} → Job A → Type 0
IsQuiet m = (s : Desk) → (m s).1.asked ≡ s.asked

module _ (w : Wanted) (s : Desk) where
  reuse-ok :
      (rid x : ℕ) (r : Refund)
      → lookup rid s.db.refunds ≡ some r
      → is_open r.status ≡ true
      → (reuse rid w r s).0 ≡ ok x
      → IsSubmittable x (reuse rid w r s).1.db
  unfolding reuse
  reuse-ok rid x r found opened h = elim (Bool-cases (is_processing r.status)) [
    | inl t ↦ absurd (err-ok already_processing x ((reuse rid w r s).0) (rw t refl) h)
    | inr f ↦
        let both = amend_if (is_changed w r) rid w >> set_method rid w in
        let same : reuse rid w r s ≡ on_db both s = rw f refl in
        let done : (both s.db).0 ≡ ok x =
          lifted-ok ((both s.db).0) x (ap (λ y. y.0) (sym same) ∙ h) in
        let (u, first, next) =
          bind-ok (amend_if (is_changed w r) rid w) (λ y. set_method rid w) s.db x done in
        let (row, there, status) = amend_if-status rid s.db r found (is_changed w r) w first in
        let d = (amend_if (is_changed w r) rid w s.db).1 in
        let whole = next ∙ set_method-found rid d row there w in
        let same_id : x ≡ rid = ok-ok x rid ((both s.db).0) done (ap (λ y. y.0) whole) in
        let able : is_submittable row.status ≡ true = ground (arith, status, opened, f) in
        (
          retyped w row,
          ap (λ y. lookup x y.1.db.refunds) same
              ∙ (ap (λ y. lookup x y.1.refunds) whole
                  ∙ subst
                      (λ k. lookup k (insert rid (retyped w row) d.refunds) ≡ some (retyped w row))
                      (sym same_id) (lookup_self rid (retyped w row) d.refunds)),
          able,
        )
  ]

  request_new-ok :
      (new_id x : ℕ)
      → (request_new new_id w s).0 ≡ ok x
      → IsSubmittable x (request_new new_id w s).1.db
  unfolding request_new
  request_new-ok new_id x h =
      let (n, amount, next) =
        bind-ok (amount_of w) (λ n. on_db (requested_id new_id (order_of w n))) s x h in
      let o = order_of w n in
      let done : (requested_id new_id o s.db).0 ≡ ok x =
        lifted-ok ((requested_id new_id o s.db).0) x (ap (λ y. y.0) (sym next) ∙ h) in
      let (answer, made, last) = bind-ok (request new_id o) (λ a. pure (a.0)) s.db x done in
      let new = request-new new_id o s.db refl in
      let (same, rows) = create-stored new_id o s.db answer (ap (λ y. y.0) (sym new) ∙ made) in
      let same_id : x ≡ new_id =
        ok-ok x (answer.0) ((requested_id new_id o s.db).0) done (ap (λ y. y.0) last)
        ∙ ap (λ a. a.0) same in
      let stored_rows : (requested_id new_id o s.db).1.refunds
          ≡ insert new_id (requested_row o) s.db.refunds =
        ap (λ y. y.1.refunds) last ∙ (ap (λ y. y.1.refunds) new ∙ rows) in
      (
        requested_row o,
        ap (λ y. lookup x y.1.db.refunds) next
            ∙ (ap (lookup x) stored_rows
                ∙ subst
                    (λ k.
                      lookup k (insert new_id (requested_row o) s.db.refunds)
                      ≡ some (requested_row o))
                    (sym same_id) (lookup_self new_id (requested_row o) s.db.refunds)),
        refl,
      )

  found_reused :
      (rid x : ℕ) (r : Refund)
      → lookup rid s.db.refunds ≡ some r
      → is_open r.status ≡ true
      → (on_db (fetch rid) >>= reuse rid w) s ≡ reuse rid w r s
  found_reused rid x r found opened = rw (fetch, found, ◌>>=◌) refl

  resolve_found-ok :
      (new_id x : ℕ) (o : Option ℕ)
      → find_open_refund w.booking s.db.refunds ≡ o
      → IsKeyed s.db.refunds
      → (resolve_found new_id w o s).0 ≡ ok x
      → IsSubmittable x (resolve_found new_id w o s).1.db
  resolve_found-ok new_id x none e k h = request_new-ok new_id x h
  resolve_found-ok new_id x (some rid) e k h =
      let (r, found, opened) = find_open_refund-lookup w.booking s.db.refunds rid k e in
      let same = found_reused rid x r found opened in
      subst (λ (y : Outcome ServiceError ℕ × Desk). IsSubmittable x y.1.db) (sym same)
        (reuse-ok rid x r found opened (ap (λ y. y.0) (sym same) ∙ h))

  pub resolve-ok :
      (new_id x : ℕ)
      → IsKeyed s.db.refunds
      → (resolve_refund_to_execute new_id w s).0 ≡ ok x
      → IsSubmittable x (resolve_refund_to_execute new_id w s).1.db
  unfolding resolve_refund_to_execute
  resolve-ok new_id x k h =
      resolve_found-ok new_id x (find_open_refund w.booking s.db.refunds) refl k h

-- What is known after a gateway was asked for the amount of a refund.
abbrev pub IsAnswered : GatewayAnswer → ℕ → ℕ → Outcome ServiceError ℕ × Desk → Type 0
IsAnswered failed rid amount res = res.0 ≡ err gateway_failed
IsAnswered declined rid amount res = res.0 ≡ err gateway_declined
IsAnswered (accepted reference) rid amount res =
    (res.0 ≡ ok rid)
    × ((r : Refund) × (lookup rid res.1.db.refunds ≡ some r)
        × (r.status ≡ processing)
        × (r.refunded_amount ≡ amount))

module _ (refund_payment : ℕ → ℕ → GatewayAnswer) (new_id : ℕ) (o : RefundOrder) (s : Desk) where
  -- Refused before the gateway was asked; or asked once, with its answer recorded.
  abbrev pub IsRecorded : Outcome ServiceError ℕ × Desk → Type 0
  IsRecorded res =
      (((e : ServiceError) × (res.0 ≡ err e)) × (res.1.asked ≡ s.asked))
      ⊎ ((gid : ℕ) × (rid : ℕ) × (amount : ℕ) × (o.gateway_payment_id ≡ some gid)
          × (res.1.asked ≡ (rid, amount) ∷ s.asked)
          × IsAnswered (refund_payment gid amount) rid amount res)
