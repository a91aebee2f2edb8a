-- ===== src/Booking/Outbox.antt =====
-- The retry queue of app/booking/application/cache_outbox_relay.py, over the rows of
-- app/booking/infrastructure/cache_outbox.py. Instants are microseconds, ids numbers; the request of a
-- row (path and payload) stands under its id. One relay works at a time.
pub mod Order
pub mod Rows
pub mod Runs
pub mod Calls
use ushbooknpay.Base.{
  ℕ, zero, suc, ◌+◌, ◌-◌, ◌*◌, ◌^◌, min, ◌≡◌, Bool, true, false, not, ◌&&◌, ◌||◌, List, [], ◌∷◌,
  ◌++◌, arith, ltb, leb, ◌==◌, any, keep, map, if◌then◌else◌,
}
use ushbooknpay.Base.Sorting.{sort_by}

pub data OutboxStatus : Type 0 where
  pending delivered dead : OutboxStatus

pub record OutboxRow : Type 0 where
  pub id : ℕ
  pub booking_id : ℕ
  pub status : OutboxStatus
  pub attempts : ℕ
  pub max_attempts : ℕ
  pub created_at : ℕ
  pub next_attempt_at : ℕ

-- The table, the rows whose request the client has accepted, in the order of the calls, and the ids of
-- the rows of all calls of the client, which the program does not keep.
pub record Outbox : Type 0 where
  pub rows : List OutboxRow
  pub log : List OutboxRow
  pub calls : List ℕ

abbrev pub empty_outbox : Outbox
empty_outbox = record { rows = []; log = []; calls = [] }

-- How a call of the client ends: without an exception, with one that is retried, or with another.
pub data Reply : Type 0 where
  accepted retryable refused : Reply

abbrev pub seconds : ℕ → ℕ
seconds n = n * 1000000

abbrev pub lease_seconds : ℕ
lease_seconds = 90

abbrev pub max_backoff_seconds : ℕ
max_backoff_seconds = 900

unfoldable pub backoff_seconds : ℕ → ℕ
backoff_seconds attempts = min (10 * 2 ^ (attempts - 1)) max_backoff_seconds

abbrev pub is_pending : OutboxRow → Bool
is_pending r = elim r.status [ pending ↦ true | delivered ↦ false | dead ↦ false ]

-- The synchronous attempt has failed already.
unfoldable pub enqueue_cache_request : ℕ → ℕ → ℕ → ℕ → Outbox → Outbox
unfolding backoff_seconds
enqueue_cache_request max_attempts id booking_id now o = record o {
  rows =
      o.rows
      ++ (record {
        id = id;
        booking_id = booking_id;
        status = pending;
        attempts = 1;
        max_attempts = max_attempts;
        created_at = now;
        next_attempt_at = now + seconds (backoff_seconds 1);
      }
          ∷ []);
}

abbrev pub has_pending_for_booking : ℕ → List OutboxRow → Bool
has_pending_for_booking b rows = any (λ r. r.booking_id == b && is_pending r) rows

abbrev pub is_before : OutboxRow → OutboxRow → Bool
is_before r older =
    older.booking_id == r.booking_id && (is_pending older && ltb older.created_at r.created_at)

abbrev pub is_claimable : ℕ → List OutboxRow → OutboxRow → Bool
is_claimable now rows r =
    is_pending r && (leb r.next_attempt_at now && not (any (is_before r) rows))

unfoldable pub take : ℕ → List OutboxRow → List OutboxRow
take n [] = []
take zero (r ∷ rs) = []
take (suc n) (r ∷ rs) = r ∷ take n rs

-- The rows that a pass claims.
unfoldable pub due_batch : ℕ → ℕ → List OutboxRow → List OutboxRow
unfolding take
due_batch limit now rows =
    take limit (sort_by (λ r. r.created_at) (keep (is_claimable now rows) rows))

-- `update(...).where(id == row_id).values(...)`
unfoldable pub finish : ℕ → (OutboxRow → OutboxRow) → List OutboxRow → List OutboxRow
finish i change [] = []
finish i change (r ∷ rows) = (if r.id == i then change r else r) ∷ finish i change rows

unfoldable pub lease : ℕ → List OutboxRow → List OutboxRow → List OutboxRow
unfolding finish
lease until [] rows = rows
lease until (r ∷ claimed) rows =
    lease until claimed (finish r.id (λ x. record x { next_attempt_at = until }) rows)

abbrev pub postpone : ℕ → ℕ → OutboxRow → OutboxRow
postpone at attempts r = record r { next_attempt_at = at + seconds (backoff_seconds attempts) }

abbrev pub in_rows : (List OutboxRow → List OutboxRow) → Outbox → Outbox
in_rows f o = record o { rows = f o.rows }

abbrev pub deliver : OutboxRow → Outbox → Outbox
deliver r o = record o {
  rows = finish r.id (λ x. record x { status = delivered }) o.rows;
  log = o.log ++ (r ∷ []);
}

-- `row.max_attempts or settings.CACHE_OUTBOX_MAX_ATTEMPTS`
abbrev pub limit_of : ℕ → OutboxRow → ℕ
limit_of default r = if r.max_attempts == 0 then default else r.max_attempts

abbrev pub bury : ℕ → OutboxRow → Outbox → Outbox
bury attempts r o = in_rows (finish r.id (λ x. record x { status = dead; attempts = attempts })) o

abbrev pub retry : ℕ → ℕ → OutboxRow → Outbox → Outbox
retry at attempts r o =
    in_rows (finish r.id (λ x. postpone at attempts (record x { attempts = attempts }))) o

-- `client.post` is called for the row.
abbrev pub called : OutboxRow → Outbox → Outbox
called r o = record o { calls = o.calls ++ (r.id ∷ []) }

abbrev pub is_blocked : OutboxRow → List ℕ → Bool
is_blocked r blocked = any (λ b. b == r.booking_id) blocked

-- The setting, the client and the clock, each of the row at hand.
module _ (default_max : ℕ) (post : OutboxRow → Reply) (clock : OutboxRow → ℕ) where
  abbrev pub replay : Reply → OutboxRow → List ℕ → Outbox → List ℕ × Outbox
  replay accepted r blocked o = (blocked, deliver r o)
  replay refused r blocked o = (blocked, bury (r.attempts + 1) r o)
  replay retryable r blocked o =
      if leb (limit_of default_max r) (r.attempts + 1)
      then (blocked, bury (r.attempts + 1) r o)
      else (r.booking_id ∷ blocked, retry (clock r) (r.attempts + 1) r o)

  -- One turn of the loop: the bookings that are blocked, and the outbox.
  unfoldable pub process_row : OutboxRow → List ℕ → Outbox → List ℕ × Outbox
  unfolding finish backoff_seconds
  process_row r blocked o =
      if is_blocked r blocked
      then (blocked, in_rows (finish r.id (postpone (clock r) 1)) o)
      else replay (post r) r blocked (called r o)

  unfoldable pub process_rows : List OutboxRow → List ℕ → Outbox → Outbox
  unfolding process_row
  process_rows [] blocked o = o
  process_rows (r ∷ rest) blocked o =
      let (blocked', o') = process_row r blocked o in process_rows rest blocked' o'

  unfoldable pub process_outbox_once : ℕ → ℕ → Outbox → Outbox
  unfolding process_rows due_batch lease
  process_outbox_once limit now o =
      let claimed = due_batch limit now o.rows in
      process_rows claimed [] (in_rows (lease (now + seconds lease_seconds) claimed) o)
