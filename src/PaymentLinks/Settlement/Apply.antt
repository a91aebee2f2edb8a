-- ===== src/PaymentLinks/Settlement/Apply.antt =====
-- `apply`, `_apply_paid` and `_record_failure` of app/payment_links/application/settlement.py.
use ushbooknpay.Base.{
  ℕ, Bool, true, false, ◌||◌, Option, none, some, [], ◌∷◌, ◌++◌, ◌+◌, ◌==◌, ltb, if◌then◌else◌,
}
use ushbooknpay.Base.Session.{Outcome, ok, err}
use ushbooknpay.Voucher.Service.{given}
use ushbooknpay.PaymentLinks.Tables.{
  PaymentLinkStatus, PaymentLinkTarget, booking, gift_voucher, product, Attention, auto_refunded,
  auto_refund_error, PaymentLink, GatewayPaymentState, failed_event, RefundRequest, Tables, Work,
}
use ushbooknpay.PaymentLinks.Tables as T
use ushbooknpay.PaymentLinks.Settlement.{
  SettlementOutcome, settled, already_settled, failure_recorded, pending, amount_mismatch,
  SettleError, is_settled, set_link, set_tables, or_else, queue, settle_target,
}

-- `abs(state.amount - expected) > _AMOUNT_TOLERANCE`, in thousandths
abbrev pub differs : ℕ → ℕ → Bool
differs received expected = ltb (expected + 1) received || ltb (received + 1) expected

abbrev pub is_mismatch : Option ℕ → ℕ → Bool
is_mismatch none expected = false
is_mismatch (some received) expected = differs received expected

unfoldable pub mark_paid : ℕ → GatewayPaymentState → PaymentLink → PaymentLink
mark_paid now state l = record l {
  status = T.paid;
  paid_at = some now;
  gateway_payment_id = given state.payment_id l.gateway_payment_id;
  transaction_id = given state.transaction_id l.transaction_id;
  track_id = given state.track_id l.track_id;
  reference_id = given state.reference_id l.reference_id;
  payment_method = given state.payment_method l.payment_method;
  failure_data = none;
}

-- `link.gateway_invoice_id or link.gateway_payment_id or str(state.invoice_id or state.payment_id or "")`
abbrev pub refund_key : GatewayPaymentState → PaymentLink → Option ℕ
refund_key state l =
    or_else (or_else l.gateway_invoice_id l.gateway_payment_id)
      (or_else state.invoice_id state.payment_id)

-- `state.amount or link.amount`
abbrev pub refund_amount : Option ℕ → ℕ → ℕ
refund_amount none expected = expected
refund_amount (some x) expected = if x == 0 then expected else x

abbrev pub mark_attention : Bool → PaymentLink → PaymentLink
mark_attention refunded l = record l {
  needs_attention = some (if refunded then auto_refunded else auto_refund_error);
}

abbrev pub request_refund : RefundRequest → Work → Work
request_refund r w =
    set_tables (λ t. record t { refund_requests = t.refund_requests ++ (r ∷ []) }) w

abbrev pub refund_request : GatewayPaymentState → ℕ → PaymentLink → RefundRequest
refund_request state key l = record {
  link_id = l.id;
  provider_payment_id = key;
  amount = refund_amount state.amount l.amount;
}

-- Without a key nothing is asked of the gateway, and no error is noted.
abbrev pub refund_through : (RefundRequest → Bool) → GatewayPaymentState → Option ℕ → Work → Work
refund_through accepts_refund state none w = set_link (mark_attention true) w
refund_through accepts_refund state (some key) w =
    set_link (mark_attention (accepts_refund (refund_request state key w.link)))
      (request_refund (refund_request state key w.link) w)

-- The customer has paid for what cannot be activated any more: the money goes back.
unfoldable pub auto_refund : (RefundRequest → Bool) → GatewayPaymentState → Work → Work
auto_refund accepts_refund state w =
    let w' = set_link (λ l. record l { status = T.refunded }) w in
    refund_through accepts_refund state (refund_key state w'.link) w'

module _ (accepts_refund : RefundRequest → Bool) (create_voucher_schedule : ℕ → Option ℕ) where
  abbrev pub settle_or_refund :
      GatewayPaymentState → Outcome SettleError Unit × Work → SettlementOutcome × Work
  settle_or_refund state (ok x, w) = (settled, w)
  settle_or_refund state (err e, w) = (failure_recorded, auto_refund accepts_refund state w)

  abbrev pub settle_paid : ℕ → ℕ → GatewayPaymentState → Work → SettlementOutcome × Work
  settle_paid now new_id state w = settle_or_refund state (
      settle_target accepts_refund create_voucher_schedule w.link.target_type now new_id
        (set_link (mark_paid now state) w))

  unfoldable pub apply_paid : ℕ → ℕ → GatewayPaymentState → Work → SettlementOutcome × Work
  unfolding mark_paid auto_refund is_settled
  apply_paid now new_id state w =
      if is_settled w.link.status
      then (already_settled, w)
      else if is_mismatch state.amount w.link.amount
      then (amount_mismatch, set_link (λ l. record l { amount_mismatch = state.amount }) w)
      else settle_paid now new_id state w

abbrev pub is_booking : PaymentLinkTarget → Bool
is_booking booking = true
is_booking gift_voucher = false
is_booking product = false

abbrev pub mark_failed : GatewayPaymentState → PaymentLink → PaymentLink
mark_failed state l = record l {
  status = T.failed;
  payment_method = given state.payment_method l.payment_method;
  failure_data = some state.failure_reason;
}

unfoldable pub record_failure : GatewayPaymentState → Work → SettlementOutcome × Work
unfolding is_settled
record_failure state w =
    if is_settled w.link.status
    then (already_settled, w)
    else let failed = set_link (mark_failed state) w in
      (
        failure_recorded,
        if is_booking w.link.target_type then queue (failed_event w.link.id) failed else failed,
      )

unfoldable pub close_link : PaymentLinkStatus → Work → Work
unfolding is_settled
close_link s w = if is_settled w.link.status then w else set_link (λ l. record l { status = s }) w

module _ (accepts_refund : RefundRequest → Bool) (create_voucher_schedule : ℕ → Option ℕ) where
  unfoldable pub apply_status :
      T.GatewayPaymentStatus → ℕ → ℕ → GatewayPaymentState → Work → SettlementOutcome × Work
  unfolding apply_paid record_failure close_link
  apply_status T.GatewayPaymentStatus.paid now new_id state w =
      apply_paid accepts_refund create_voucher_schedule now new_id state w
  apply_status T.GatewayPaymentStatus.failed now new_id state w = record_failure state w
  apply_status T.GatewayPaymentStatus.expired now new_id state w = (pending, close_link T.expired w)
  apply_status T.GatewayPaymentStatus.canceled now new_id state w =
      (pending, close_link T.cancelled w)
  apply_status T.GatewayPaymentStatus.pending now new_id state w = (pending, w)

  -- `apply`
  abbrev pub apply : ℕ → ℕ → GatewayPaymentState → Work → SettlementOutcome × Work
  apply now new_id state w = apply_status state.status now new_id state w
