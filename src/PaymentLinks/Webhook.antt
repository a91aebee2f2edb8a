-- ===== src/PaymentLinks/Webhook.antt =====
-- `_handle_payment_event` of app/payment_links/application/webhook_service.py: which payment state a
-- gateway's message settles a link with.
use ushbooknpay.Base.{
  ℕ, ◌≡◌, refl, inl, inr, arith, Bool, true, false, ◌||◌, Option, none, some, Bool-cases,
  if◌then◌else◌,
}
use ushbooknpay.PaymentLinks.Tables.{
  PaymentLink, GatewayPaymentStatus, GatewayPaymentState, RefundRequest, Work,
}
use ushbooknpay.PaymentLinks.Tables as T
use ushbooknpay.PaymentLinks.Settlement.{SettlementOutcome, is_settled}
use ushbooknpay.PaymentLinks.Settlement as S
use ushbooknpay.PaymentLinks.Settlement.Apply.{apply, apply_status}
use ushbooknpay.PaymentLinks.Settlement.Change.{
  stays, IsChange, stays_with, record_failure-IsChange,
}

-- `GatewayWebhookEvent`: what the message says of the payment.
pub record GatewayWebhookEvent : Type 0 where
  pub invoice_id : Option ℕ
  pub status : Option GatewayPaymentStatus
  pub state : Option GatewayPaymentState

-- `WebhookRetryRequired` is `retry_required`; a message of no link is `ignored`.
pub data WebhookOutcome : Type 0 where
  ignored retry_required : WebhookOutcome
  processed : SettlementOutcome → WebhookOutcome

-- What to do with the link.
pub data Choice : Type 0 where
  retries leaves : Choice
  applies : GatewayPaymentState → Choice

abbrev pub is_paid : GatewayPaymentStatus → Bool
is_paid T.GatewayPaymentStatus.paid = true
is_paid T.GatewayPaymentStatus.pending = false
is_paid T.GatewayPaymentStatus.failed = false
is_paid T.GatewayPaymentStatus.canceled = false
is_paid T.GatewayPaymentStatus.expired = false

abbrev pub is_failed : GatewayPaymentStatus → Bool
is_failed T.GatewayPaymentStatus.failed = true
is_failed T.GatewayPaymentStatus.paid = false
is_failed T.GatewayPaymentStatus.pending = false
is_failed T.GatewayPaymentStatus.canceled = false
is_failed T.GatewayPaymentStatus.expired = false

abbrev pub holds {ℓ} : {A : Type ℓ} → (A → Bool) → Option A → Bool
holds p none = false
holds p (some x) = p x

-- `GatewayPaymentState(status=PAID, invoice_id=event.invoice_id)`
abbrev pub bare_paid : Option ℕ → GatewayPaymentState
bare_paid invoice = record {
  status = T.GatewayPaymentStatus.paid;
  invoice_id = invoice;
  payment_id = none;
  transaction_id = none;
  track_id = none;
  reference_id = none;
  payment_method = none;
  amount = none;
  failure_reason = none;
}

abbrev pub state_or : Option GatewayPaymentState → GatewayPaymentState → GatewayPaymentState
state_or none y = y
state_or (some x) y = x

abbrev pub choose_failed : Option GatewayPaymentStatus → Option GatewayPaymentState → Choice
choose_failed current none = leaves
choose_failed current (some x) = if holds is_failed current then applies x else leaves

-- `verified` is what the gateway says itself; `none` if it could not be asked.
unfoldable pub choose : Option GatewayPaymentState → GatewayWebhookEvent → Choice
choose none event =
    if holds is_paid event.status
    then applies (state_or event.state (bare_paid event.invoice_id))
    else choose_failed event.status event.state
choose (some v) event =
    if is_paid v.status || holds is_paid event.status
    then if is_paid v.status
      then elim v.payment_id [ some i ↦ applies v | none ↦ applies (state_or event.state v) ]
      else retries
    else choose_failed (some v.status) (some v)

module _ (accepts_refund : RefundRequest → Bool) (create_voucher_schedule : ℕ → Option ℕ) where
  abbrev pub carry_out : Choice → ℕ → ℕ → Work → WebhookOutcome × Work
  carry_out retries now new_id w = (retry_required, w)
  carry_out leaves now new_id w = (processed S.pending, w)
  carry_out (applies state) now new_id w =
      let (outcome, w') = apply accepts_refund create_voucher_schedule now new_id state w in
      (processed outcome, w')

  -- For the link that the message's identifiers lead to.
  unfoldable pub handle_payment_event :
      Option GatewayPaymentState → GatewayWebhookEvent → ℕ → ℕ → Work → WebhookOutcome × Work
  unfolding choose
  handle_payment_event verified event now new_id w = carry_out (choose verified event) now new_id w

  failed-IsChange :
      (s : GatewayPaymentStatus) (now new_id : ℕ) (state : GatewayPaymentState) (w : Work)
      → is_failed s ≡ true
      → is_settled w.link.status ≡ false
      → IsChange w
          (apply_status accepts_refund create_voucher_schedule s now new_id state w).1
          stays
  unfolding apply_status
  failed-IsChange T.GatewayPaymentStatus.failed now new_id state w h live =
      record_failure-IsChange accepts_refund create_voucher_schedule now new_id state w live
  failed-IsChange T.GatewayPaymentStatus.paid now new_id state w h live = absurd (ground arith)
  failed-IsChange T.GatewayPaymentStatus.pending now new_id state w h live = absurd (ground arith)
  failed-IsChange T.GatewayPaymentStatus.canceled now new_id state w h live = absurd (ground arith)
  failed-IsChange T.GatewayPaymentStatus.expired now new_id state w h live = absurd (ground arith)

  -- Nobody settles a link against the gateway's word: where the gateway, asked itself, does not say
  -- that the payment is paid, whatever the message says, a link that is not settled stays unsettled,
  -- with no paid event queued and no refund asked for.
  pub handle_payment_event-IsChange :
      (v : GatewayPaymentState) (event : GatewayWebhookEvent) (now new_id : ℕ) (w : Work)
      → is_paid v.status ≡ false
      → is_settled w.link.status ≡ false
      → IsChange w (handle_payment_event (some v) event now new_id w).1 stays
  unfolding handle_payment_event
  handle_payment_event-IsChange v event now new_id w unpaid live =
      elim (Bool-cases (holds is_paid event.status)) [
        | inl e ↦ rw (unpaid, e) (stays_with w w.link refl refl live)
        | inr e ↦ elim (Bool-cases (is_failed v.status)) [
          | inl f ↦ rw (unpaid, e, f) (failed-IsChange v.status now new_id v w f live)
          | inr f ↦ rw (unpaid, e, f) (stays_with w w.link refl refl live)
        ]
      ]
