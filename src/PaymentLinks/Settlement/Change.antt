-- ===== src/PaymentLinks/Settlement/Change.antt =====
-- What `apply` of app/payment_links/application/settlement.py makes of a link that is not settled.
use ushbooknpay.Base.{
  ℕ, ◌≡◌, inl, inr, refl, sym, ap, ◌∙◌, Bool, true, false, Option, none, some, List, [], ◌∷◌, ◌++◌,
  ◌==◌, total, Bool-cases, if◌then◌else◌,
}
use mathlib.Core.List.{append-nil}
use ushbooknpay.Base.Session.{Outcome, ok, err}
use ushbooknpay.PaymentLinks.Tables.{
  PaymentLinkStatus, PaymentLinkTarget, booking, gift_voucher, product, PaymentLink,
  GatewayPaymentState, BookingRow, Event, paid_event, failed_event, RefundRequest, Tables, Work,
}
use ushbooknpay.PaymentLinks.Tables as T
use ushbooknpay.PaymentLinks.Settlement.{SettleError, is_settled, settle_target, set_link}
use ushbooknpay.PaymentLinks.Settlement.Apply.{
  is_mismatch, mark_paid, refund_request, refund_through, auto_refund, settle_or_refund, apply_paid,
  is_booking, record_failure, close_link, apply_status,
}
use ushbooknpay.PaymentLinks.Settlement.Settling.{
  paid_events_of, paid_events_same, IsSettling, settle_target-IsSettling,
}

-- One refund at most is asked for, of this link.
abbrev pub IsAsked : ℕ → List RefundRequest → Type 0
IsAsked id [] = Unit
IsAsked id (r ∷ rest) = (r.link_id ≡ id) × (rest ≡ [])

-- What happens to a link that is not settled: it stays unsettled without a paid event or a refund, or
-- it is paid, with the event of its target, or it is refunded, with no event and a refund at most.
pub data Change : Type 0 where
  stays pays refunds : Change

abbrev pub is_paid_for : ℕ → Event → ℕ
is_paid_for k (paid_event i) = if i == k then 1 else 0
is_paid_for k (failed_event i) = 0

-- The paid events of a link, and the refunds asked for it.
abbrev pub paid_count : ℕ → List Event → ℕ
paid_count k es = total (is_paid_for k) es

abbrev pub refund_count : ℕ → List RefundRequest → ℕ
refund_count k rs = total (λ r. if r.link_id == k then 1 else 0) rs

abbrev pub IsQueued : Change → PaymentLink → List Event → Type 0
IsQueued stays l es = (k : ℕ) → paid_count k es ≡ 0
IsQueued pays l es = es ≡ paid_events_of l
IsQueued refunds l es = es ≡ []

abbrev pub IsAskedIn : Change → ℕ → List RefundRequest → Type 0
IsAskedIn refunds id rs = IsAsked id rs
IsAskedIn _ id rs = rs ≡ []

abbrev pub IsNow : Change → PaymentLinkStatus → Type 0
IsNow stays s = is_settled s ≡ false
IsNow pays s = s ≡ T.PaymentLinkStatus.paid
IsNow refunds s = s ≡ T.refunded

abbrev pub IsChange : Work → Work → Change → Type 0
IsChange w w' c =
    ((w'.link.id ≡ w.link.id) × (w'.link.target_type ≡ w.link.target_type))
    × IsNow c w'.link.status
    × ((es : List Event) × (w'.tables.pending_events ≡ w.tables.pending_events ++ es)
        × IsQueued c w.link es)
    × ((rs : List RefundRequest) × (w'.tables.refund_requests ≡ w.tables.refund_requests ++ rs)
        × IsAskedIn c w.link.id rs)

pub stays_with :
    (w : Work) (l : PaymentLink)
    → l.id ≡ w.link.id
    → l.target_type ≡ w.link.target_type
    → is_settled l.status ≡ false
    → IsChange w (record w { link = l }) stays
stays_with w l id type open_still = (
  (id, type),
  open_still,
  ([], sym (append-nil w.tables.pending_events), λ k. refl),
  ([], sym (append-nil w.tables.refund_requests), refl),
)

refund_through-IsChange :
    (accepts_refund : RefundRequest → Bool) (state : GatewayPaymentState) (key : Option ℕ)
    (w w' : Work)
    → (w'.link.id ≡ w.link.id) × (w'.link.target_type ≡ w.link.target_type)
    → w'.link.status ≡ T.refunded
    → w'.tables.pending_events ≡ w.tables.pending_events
    → w'.tables.refund_requests ≡ w.tables.refund_requests
    → IsChange w (refund_through accepts_refund state key w') refunds
refund_through-IsChange accepts_refund state none w w' same status events requests = (
  same,
  status,
  ([], events ∙ sym (append-nil w.tables.pending_events), refl),
  ([], requests ∙ sym (append-nil w.tables.refund_requests), tt),
)
refund_through-IsChange accepts_refund state (some key) w w' same status events requests = (
  same,
  status,
  ([], events ∙ sym (append-nil w.tables.pending_events), refl),
  (
    refund_request state key w'.link ∷ [],
    ap (λ rs. rs ++ (refund_request state key w'.link ∷ [])) requests,
    (same.0, refl),
  ),
)

module _ (accepts_refund : RefundRequest → Bool) (create_voucher_schedule : ℕ → Option ℕ)
    (now new_id : ℕ) where
  settle_or_refund-IsChange :
      (state : GatewayPaymentState) (w v : Work) (r : Outcome SettleError Unit × Work)
      → IsSettling v r
      → (v.link.id ≡ w.link.id)
        × (v.link.target_type ≡ w.link.target_type)
        × (v.link.status ≡ T.PaymentLinkStatus.paid)
      → (v.tables ≡ w.tables)
      → (c : Change) × IsChange w
          (settle_or_refund accepts_refund create_voucher_schedule state r).1
          c
  unfolding auto_refund
  settle_or_refund-IsChange state w v (ok x, w') (same, requests, events) (id, type, status)
        tables =
      (
        pays,
        (
          (same.0 ∙ id, same.1 ∙ type),
          same.2 ∙ status,
          (
            paid_events_of w.link,
            events
                ∙ ap (λ t. t.pending_events ++ paid_events_of v.link) tables
                ∙ ap (λ es. w.tables.pending_events ++ es) (paid_events_same v.link w.link id type),
            refl,
          ),
          (
            [],
            requests
                ∙ ap (λ t. t.refund_requests) tables
                ∙ sym (append-nil w.tables.refund_requests),
            refl,
          ),
        ),
      )
  settle_or_refund-IsChange state w v (err e, w') (same, requests, events) (id, type, status)
        tables =
      (
        refunds,
        refund_through-IsChange accepts_refund state _ w
            (set_link (λ l. record l { status = T.refunded }) w') (same.0 ∙ id, same.1 ∙ type) refl
            (events ∙ append-nil v.tables.pending_events ∙ ap (λ t. t.pending_events) tables)
            (requests ∙ ap (λ t. t.refund_requests) tables),
      )

  -- What `apply` makes of a link that is not settled.
  apply_paid-IsChange :
      (state : GatewayPaymentState) (w : Work)
      → is_settled w.link.status ≡ false
      → (c : Change) × IsChange w
          (apply_paid accepts_refund create_voucher_schedule now new_id state w).1
          c
  unfolding apply_paid mark_paid
  apply_paid-IsChange state w live = elim (Bool-cases (is_mismatch state.amount w.link.amount)) [
    | inl e ↦
        rw (live, e)
          (stays, stays_with w (record w.link { amount_mismatch = state.amount }) refl refl live)
    | inr e ↦
        let v = set_link (mark_paid now state) w in
        rw (live, e)
          (settle_or_refund-IsChange state w v
            (settle_target accepts_refund create_voucher_schedule w.link.target_type now new_id v)
            (settle_target-IsSettling accepts_refund create_voucher_schedule now new_id
              w.link.target_type v refl)
            (refl, refl, refl) refl)
  ]

  pub record_failure-IsChange :
      (state : GatewayPaymentState) (w : Work)
      → is_settled w.link.status ≡ false
      → IsChange w (record_failure state w).1 stays
  unfolding record_failure is_settled
  record_failure-IsChange state w live = elim (Bool-cases (is_booking w.link.target_type)) [
    | inl e ↦
        rw (live, e)
          (
            (refl, refl),
            refl,
            (failed_event w.link.id ∷ [], refl, λ k. refl),
            ([], sym (append-nil w.tables.refund_requests), refl),
          )
    | inr e ↦
        rw (live, e)
          (
            (refl, refl),
            refl,
            ([], sym (append-nil w.tables.pending_events), λ k. refl),
            ([], sym (append-nil w.tables.refund_requests), refl),
          )
  ]

  close_link-IsChange :
      (s : PaymentLinkStatus) (w : Work)
      → is_settled w.link.status ≡ false
      → is_settled s ≡ false
      → IsChange w (close_link s w) stays
  unfolding close_link
  close_link-IsChange s w live closed =
      rw live (stays_with w (record w.link { status = s }) refl refl closed)

  pub apply_status-IsChange :
      (s : T.GatewayPaymentStatus) (state : GatewayPaymentState) (w : Work)
      → is_settled w.link.status ≡ false
      → (c : Change) × IsChange w
          (apply_status accepts_refund create_voucher_schedule s now new_id state w).1
          c
  unfolding apply_status is_settled
  apply_status-IsChange T.GatewayPaymentStatus.paid state w live = apply_paid-IsChange state w live
  apply_status-IsChange T.GatewayPaymentStatus.failed state w live =
      (stays, record_failure-IsChange state w live)
  apply_status-IsChange T.GatewayPaymentStatus.expired state w live =
      (stays, close_link-IsChange T.expired w live refl)
  apply_status-IsChange T.GatewayPaymentStatus.canceled state w live =
      (stays, close_link-IsChange T.cancelled w live refl)
  apply_status-IsChange T.GatewayPaymentStatus.pending state w live =
      (stays, stays_with w w.link refl refl live)

  -- Whatever the gateway reports of a settled link, nothing changes: neither the link nor any table.
  pub settled-apply :
      (s : T.GatewayPaymentStatus) (state : GatewayPaymentState) (w : Work)
      → is_settled w.link.status ≡ true
      → (apply_status accepts_refund create_voucher_schedule s now new_id state w).1 ≡ w
  unfolding apply_status apply_paid record_failure close_link
  settled-apply T.GatewayPaymentStatus.paid state w h = rw h refl
  settled-apply T.GatewayPaymentStatus.failed state w h = rw h refl
  settled-apply T.GatewayPaymentStatus.expired state w h = rw h refl
  settled-apply T.GatewayPaymentStatus.canceled state w h = rw h refl
  settled-apply T.GatewayPaymentStatus.pending state w h = refl
