-- ===== src/Booking/Outbox/Runs.antt =====
-- Runs of app/booking/application/cache_outbox_relay.py: requests that are enqueued, and passes.
use ushbooknpay.Base.{ℕ, ◌≤◌, ◌<◌, List, [], ◌∷◌, All}
use ushbooknpay.Booking.Outbox.{
  OutboxRow, Outbox, Reply, process_outbox_once, enqueue_cache_request,
}
use ushbooknpay.Booking.Outbox.Order.{IsInOrder}

-- A pass has its limit and instant, the client's replies and the clock.
pub data Action : Type 0 where
  enqueues : ℕ → ℕ → ℕ → Action
  passes : ℕ → ℕ → (OutboxRow → Reply) → (OutboxRow → ℕ) → Action

-- `CACHE_OUTBOX_MAX_ATTEMPTS`
module _ (max_attempts : ℕ) where
  abbrev pub act : Action → Outbox → Outbox
  act (enqueues id booking_id now) o = enqueue_cache_request max_attempts id booking_id now o
  act (passes limit now post clock) o = process_outbox_once max_attempts post clock limit now o

  unfoldable pub run_actions : List Action → Outbox → Outbox
  run_actions [] o = o
  run_actions (a ∷ rest) o = run_actions rest (act a o)

abbrev IsEarly : ℕ → OutboxRow → Type 0
IsEarly t r = r.created_at ≤ t

-- Between passes: nothing is from the future, and what is delivered comes in order and before what is pending.
abbrev IsOrderly : ℕ → Outbox → Type 0
IsOrderly t o = (All (IsEarly t) o.rows × All (IsEarly t) o.log) × IsInOrder [] o

-- Every request is made at an instant after that of the one before it.
abbrev pub IsClocked : ℕ → List Action → Type 0
IsClocked t [] = Unit
IsClocked t (enqueues id booking_id now ∷ rest) = (t < now) × IsClocked now rest
IsClocked t (passes limit now post clock ∷ rest) = IsClocked t rest
