-- ===== src/Booking/Outbox/Calls.antt =====
-- Rows and the calls of the client for them, for app/booking/application/cache_outbox_relay.py.
pub mod Passes
use ushbooknpay.Base.{
  ℕ, suc, zero, ◌+◌, ◌≤◌, ◌<◌, ◌≡◌, ◌⊎◌, inl, inr, refl, ap, sym, ◌∙◌, Bool, true, false, List, [],
  ◌∷◌, ◌++◌, arith, leb, ◌==◌, keep, total, total-append, All, All-append, Bool-cases,
  if◌then◌else◌,
}
use ushbooknpay.Base.Sorting.{sort_by, All-sort_by, total-sort_by}
use ushbooknpay.Base.Pairs.{All-map}
use ushbooknpay.Booking.Outbox.{
  OutboxStatus, OutboxRow, Outbox, Reply, accepted, retryable, refused, is_pending, is_claimable,
  take, due_batch, finish, lease, postpone, in_rows, limit_of, is_blocked, called, replay,
  process_row, process_rows, process_outbox_once, enqueue_cache_request, empty_outbox,
  backoff_seconds, seconds, lease_seconds,
}
use ushbooknpay.Booking.Outbox.Order.{All-take}
use ushbooknpay.Booking.Outbox.Rows.{All-kept, All-finish, claimable-pending}
use ushbooknpay.Booking.Outbox.Runs.{Action, enqueues, passes, act, run_actions}

-- How often an id is among some, and how many rows have it.
abbrev pub times : ℕ → List ℕ → ℕ
times i xs = total (λ j. if j == i then 1 else 0) xs

abbrev pub has : ℕ → OutboxRow → ℕ
has i r = if r.id == i then 1 else 0

abbrev pub rows_of : ℕ → List OutboxRow → ℕ
rows_of i rows = total (has i) rows

pub finish-rows_of :
    (i k : ℕ) (change : OutboxRow → OutboxRow) (rows : List OutboxRow)
    → ((x : OutboxRow) → (change x).id ≡ x.id)
    → rows_of i (finish k change rows) ≡ rows_of i rows
unfolding finish
finish-rows_of i k change [] same = refl
finish-rows_of i k change (x ∷ rows) same = elim (Bool-cases (x.id == k)) [
  | inl e ↦ rw (e, same x, finish-rows_of i k change rows same) refl
  | inr e ↦ rw (e, finish-rows_of i k change rows same) refl
]

pub lease-rows_of :
    (i until : ℕ) (claimed rows : List OutboxRow)
    → rows_of i (lease until claimed rows) ≡ rows_of i rows
unfolding lease
lease-rows_of i until [] rows = refl
lease-rows_of i until (r ∷ claimed) rows =
    let change = λ (x : OutboxRow). record x { next_attempt_at = until } in
    lease-rows_of i until claimed (finish r.id change rows)
    ∙ finish-rows_of i r.id change rows (λ x. refl)

keep-rows_of :
    (i : ℕ) (p : OutboxRow → Bool) (rows : List OutboxRow)
    → rows_of i (keep p rows) ≤ rows_of i rows
keep-rows_of i p [] = omega arith
keep-rows_of i p (x ∷ rows) = elim (Bool-cases (p x)) [
  | inl e ↦ rw e (omega (arith, keep-rows_of i p rows))
  | inr e ↦ rw e (omega (arith, keep-rows_of i p rows))
]

take-rows_of : (i n : ℕ) (rows : List OutboxRow) → rows_of i (take n rows) ≤ rows_of i rows
unfolding take
take-rows_of i n [] = omega arith
take-rows_of i zero (x ∷ rows) = omega arith
take-rows_of i (suc n) (x ∷ rows) = omega (arith, take-rows_of i n rows)

pub due_batch-rows_of :
    (i limit now : ℕ) (rows : List OutboxRow)
    → rows_of i (due_batch limit now rows) ≤ rows_of i rows
unfolding due_batch
due_batch-rows_of i limit now rows =
    let free = keep (is_claimable now rows) rows in
    omega (
      arith,
      take-rows_of i limit (sort_by (λ (r : OutboxRow). r.created_at) free),
      total-sort_by (λ (r : OutboxRow). r.created_at) (has i) free,
      keep-rows_of i (is_claimable now rows) rows,
    )

module _ (m : ℕ) where
  -- The calls for a row and the failed one that enqueued it are no more than `m`, nor than the attempts of
  -- a row that waits, which has one left.
  abbrev pub IsCalled : List ℕ → OutboxRow → Type 0
  IsCalled calls r =
      (r.max_attempts ≡ m)
      × (times r.id calls + 1 ≤ m)
      × ((is_pending r ≡ false) ⊎ ((times r.id calls + 1 ≤ r.attempts) × (r.attempts < m)))

  abbrev pub IsClaimed : List ℕ → OutboxRow → Type 0
  IsClaimed calls r = (r.max_attempts ≡ m) × (times r.id calls + 1 ≤ r.attempts) × (r.attempts < m)

  pub IsClaimed-of :
      (calls : List ℕ) (r : OutboxRow) → is_pending r ≡ true → IsCalled calls r → IsClaimed calls r
  IsClaimed-of calls r live (same, most, inl h) = absurd (cc)
  IsClaimed-of calls r live (same, most, inr (left, less)) = (same, left, less)

  pub other_call :
      (calls : List ℕ) (i k : ℕ) → (i == k) ≡ false → times i (calls ++ (k ∷ [])) ≡ times i calls
  other_call calls i k other =
      let no : (k == i) ≡ false = ground (arith, other) in
      total-append (λ j. if j == i then 1 else 0) calls (k ∷ []) ∙ rw no (omega arith)

  same_call : (calls : List ℕ) (k : ℕ) → times k (calls ++ (k ∷ [])) ≡ times k calls + 1
  same_call calls k =
      let yes : (k == k) ≡ true = ground arith in
      total-append (λ j. if j == k then 1 else 0) calls (k ∷ []) ∙ rw yes refl

  -- Rows after a call for `r`, when the rows with its id are changed.
  pub IsCalled-finish :
      (calls : List ℕ) (r : OutboxRow) (change : OutboxRow → OutboxRow) (rows : List OutboxRow)
      → ((x : OutboxRow)
          → x.id ≡ r.id
          → IsCalled calls x
          → IsCalled (calls ++ (r.id ∷ [])) (change x))
      → All (IsCalled calls) rows
      → All (IsCalled (calls ++ (r.id ∷ []))) (finish r.id change rows)
  unfolding finish
  IsCalled-finish calls r change [] f h = tt
  IsCalled-finish calls r change (x ∷ rows) f h = elim (Bool-cases (x.id == r.id)) [
    | inl e ↦ rw e (f x (ground (arith, e)) h.0, IsCalled-finish calls r change rows f h.1)
    | inr e ↦
        rw e (rw (other_call calls x.id r.id e) h.0, IsCalled-finish calls r change rows f h.1)
  ]

  -- Such a change, which leaves a row of as many attempts as calls, or one that does not wait.
  pub IsCalled-row :
      (calls : List ℕ) (r x y : OutboxRow)
      → IsClaimed calls r
      → x.id ≡ r.id
      → IsCalled calls x
      → y.id ≡ x.id
      → y.max_attempts ≡ x.max_attempts
      → ((is_pending y ≡ false) ⊎ ((y.attempts ≡ r.attempts + 1) × (r.attempts + 1 < m)))
      → IsCalled (calls ++ (r.id ∷ [])) y
  IsCalled-row calls r x y (top, left, less) same k named kept end =
      let id_of : y.id ≡ r.id = named ∙ same in
      let more : times y.id (calls ++ (r.id ∷ [])) ≡ times r.id calls + 1 =
        ap (λ i. times i (calls ++ (r.id ∷ []))) id_of ∙ same_call calls r.id in
      (
        kept ∙ k.0,
        omega (arith, more, left, less),
        elim end [
          | inl e ↦ inl e
          | inr (e, lt) ↦ inr (omega (arith, more, left, e), omega (arith, e, lt))
        ],
      )

  pub rest-IsClaimed :
      (calls : List ℕ) (k : ℕ) (rest : List OutboxRow)
      → rows_of k rest ≡ 0
      → All (IsClaimed calls) rest
      → All (IsClaimed (calls ++ (k ∷ []))) rest
  rest-IsClaimed calls k [] none h = tt
  rest-IsClaimed calls k (c ∷ rest) none h = elim (Bool-cases (c.id == k)) [
    | inl e ↦ let one : has k c ≡ 1 = rw e refl in absurd (omega (arith, none, one))
    | inr e ↦
        let no : has k c ≡ 0 = rw e refl in
        (
          rw (other_call calls c.id k e) h.0,
          rest-IsClaimed calls k rest (omega (arith, none, no)) h.1,
        )
  ]
