-- ===== src/Booking/Outbox/Order.antt =====
-- The order in which app/booking/application/cache_outbox_relay.py replays the requests of a booking.
use ushbooknpay.Base.{
  ℕ, zero, suc, ◌+◌, ◌≤◌, ◌≡◌, ◌≢◌, ◌⊎◌, inl, inr, refl, false, List, [], ◌∷◌, ◌++◌, arith, leb,
  ◌==◌, any, All, All-append, Bool-cases,
}
use ushbooknpay.Base.Sorting.{IsSorted}
use ushbooknpay.Base.Pairs.{AllPairs, All-map}
use ushbooknpay.Booking.Outbox.{
  OutboxStatus, OutboxRow, Outbox, Reply, accepted, retryable, refused, is_pending, is_before, take,
  finish, lease, postpone, in_rows, deliver, limit_of, is_blocked, replay, process_row, called,
  process_rows,
}

-- Of two requests of one booking, the first was made first.
abbrev pub IsBefore : OutboxRow → OutboxRow → Type 0
IsBefore r s = (r.booking_id ≢ s.booking_id) ⊎ (r.created_at ≤ s.created_at)

-- Every pending row comes after this one.
abbrev pub IsAhead : List OutboxRow → OutboxRow → Type 0
IsAhead rows r = All (λ p. (is_pending p ≡ false) ⊎ IsBefore r p) rows

-- A change of a row that keeps its booking and instant, and makes no finished row pending again.
abbrev pub IsQuiet : (OutboxRow → OutboxRow) → Type 0
IsQuiet change =
    (x : OutboxRow)
    → ((change x).booking_id ≡ x.booking_id)
      × ((change x).created_at ≡ x.created_at)
      × ((is_pending (change x) ≡ false) ⊎ (is_pending (change x) ≡ is_pending x))

quiet_ahead :
    (change : OutboxRow → OutboxRow) (r x : OutboxRow)
    → IsQuiet change
    → (is_pending x ≡ false) ⊎ IsBefore r x
    → (is_pending (change x) ≡ false) ⊎ IsBefore r (change x)
quiet_ahead change r x quiet h =
    let (booking, created, status) = quiet x in ground (arith, booking, created, status, h)

finish-IsAhead :
    (i : ℕ) (change : OutboxRow → OutboxRow) (rows : List OutboxRow) (r : OutboxRow)
    → IsQuiet change
    → IsAhead rows r
    → IsAhead (finish i change rows) r
unfolding finish
finish-IsAhead i change [] r quiet h = tt
finish-IsAhead i change (x ∷ rows) r quiet h = elim (Bool-cases (x.id == i)) [
  | inl e ↦ rw e (quiet_ahead change r x quiet h.0, finish-IsAhead i change rows r quiet h.1)
  | inr e ↦ rw e (h.0, finish-IsAhead i change rows r quiet h.1)
]

pub lease-IsAhead :
    (until : ℕ) (claimed rows : List OutboxRow) (r : OutboxRow)
    → IsAhead rows r
    → IsAhead (lease until claimed rows) r
unfolding lease
lease-IsAhead until [] rows r h = h
lease-IsAhead until (c ∷ claimed) rows r h =
    lease-IsAhead until claimed (finish c.id (λ x. record x { next_attempt_at = until }) rows) r (
      finish-IsAhead c.id (λ x. record x { next_attempt_at = until }) rows r
        (λ x. (refl, refl, inr refl)) h)

-- No older pending row of the booking.
pub unblocked-IsAhead :
    (r : OutboxRow) (rows : List OutboxRow) → any (is_before r) rows ≡ false → IsAhead rows r
unblocked-IsAhead r [] h = tt
unblocked-IsAhead r (x ∷ rows) h = (ground (arith, h), unblocked-IsAhead r rows (ground (arith, h)))

pub All-take : (P : OutboxRow → Type 0) (n : ℕ) (xs : List OutboxRow) → All P xs → All P (take n xs)
unfolding take
All-take P n [] h = tt
All-take P zero (x ∷ xs) h = tt
All-take P (suc n) (x ∷ xs) h = (h.0, All-take P n xs h.1)

pub AllPairs-take :
    (n : ℕ) (xs : List OutboxRow) → AllPairs IsBefore xs → AllPairs IsBefore (take n xs)
unfolding take
AllPairs-take n [] h = tt
AllPairs-take zero (x ∷ xs) h = tt
AllPairs-take (suc n) (x ∷ xs) h = (All-take (IsBefore x) n xs h.0, AllPairs-take n xs h.1)

pub sorted-AllPairs : (xs : List OutboxRow) → IsSorted (λ r. r.created_at) xs → AllPairs IsBefore xs
sorted-AllPairs [] h = tt
sorted-AllPairs (x ∷ xs) h =
    (All-map _ (IsBefore x) xs (λ y le. inr le) h.0, sorted-AllPairs xs h.1)

AllPairs-snoc :
    (xs : List OutboxRow) (y : OutboxRow)
    → AllPairs IsBefore xs
    → All (λ x. IsBefore x y) xs
    → AllPairs IsBefore (xs ++ (y ∷ []))
AllPairs-snoc [] y h k = (tt, tt)
AllPairs-snoc (x ∷ xs) y h k =
    (All-append (IsBefore x) xs (y ∷ []) h.0 (k.0, tt), AllPairs-snoc xs y h.1 k.1)

-- The loop's state: what is delivered comes before what is claimed, in order, and both before what is pending.
abbrev pub IsInOrder : List OutboxRow → Outbox → Type 0
IsInOrder claimed o =
    All (λ d. All (IsBefore d) claimed) o.log
    × All (IsAhead o.rows) claimed
    × All (IsAhead o.rows) o.log
    × AllPairs IsBefore o.log
    × AllPairs IsBefore claimed

All-head :
    (P : OutboxRow → OutboxRow → Type 0) (r : OutboxRow) (rest ds : List OutboxRow)
    → All (λ d. All (P d) (r ∷ rest)) ds
    → All (λ d. P d r) ds × All (λ d. All (P d) rest) ds
All-head P r rest [] h = (tt, tt)
All-head P r rest (d ∷ ds) h =
    let later = All-head P r rest ds h.1 in ((h.0.0, later.0), (h.0.1, later.1))

changed-IsInOrder :
    (i : ℕ) (change : OutboxRow → OutboxRow) (claimed : List OutboxRow) (o : Outbox)
    → IsQuiet change
    → IsInOrder claimed o
    → IsInOrder claimed (in_rows (finish i change) o)
changed-IsInOrder i change claimed o quiet (before, ahead, behind, log, ordered) = (
  before,
  All-map (IsAhead o.rows) (IsAhead (finish i change o.rows)) claimed
      (λ r h. finish-IsAhead i change o.rows r quiet h) ahead,
  All-map (IsAhead o.rows) (IsAhead (finish i change o.rows)) o.log
      (λ r h. finish-IsAhead i change o.rows r quiet h) behind,
  log,
  ordered,
)

skip-IsInOrder :
    (r : OutboxRow) (rest : List OutboxRow) (o : Outbox) → IsInOrder (r ∷ rest) o → IsInOrder rest o
skip-IsInOrder r rest o (before, ahead, behind, log, ordered) =
    ((All-head IsBefore r rest o.log before).1, ahead.1, behind, log, ordered.1)

deliver-IsInOrder :
    (r : OutboxRow) (rest : List OutboxRow) (o : Outbox)
    → IsInOrder (r ∷ rest) o
    → IsInOrder rest (deliver r o)
deliver-IsInOrder r rest o h =
    let change = λ (x : OutboxRow). record x { status = OutboxStatus.delivered } in
    let (before, ahead, behind, log, ordered) =
      changed-IsInOrder r.id change (r ∷ rest) o (λ x. (refl, refl, inl refl)) h in
    let (to_r, to_rest) = All-head IsBefore r rest o.log before in
    let rows = finish r.id change o.rows in
    (
      All-append (λ d. All (IsBefore d) rest) o.log (r ∷ []) to_rest (ordered.0, tt),
      ahead.1,
      All-append (IsAhead rows) o.log (r ∷ []) behind (ahead.0, tt),
      AllPairs-snoc o.log r log to_r,
      ordered.1,
    )

module _ (default_max : ℕ) (post : OutboxRow → Reply) (clock : OutboxRow → ℕ) where
  replay-IsInOrder :
      (reply : Reply) (r : OutboxRow) (rest : List OutboxRow) (blocked : List ℕ) (o : Outbox)
      → IsInOrder (r ∷ rest) o
      → IsInOrder rest (replay default_max post clock reply r blocked o).1
  replay-IsInOrder accepted r rest blocked o h = deliver-IsInOrder r rest o h
  replay-IsInOrder refused r rest blocked o h =
      changed-IsInOrder r.id _ rest o (λ x. (refl, refl, inl refl)) (skip-IsInOrder r rest o h)
  replay-IsInOrder retryable r rest blocked o h =
      elim (Bool-cases (leb (limit_of default_max r) (r.attempts + 1))) [
        | inl e ↦ rw e (
            changed-IsInOrder r.id _ rest o (λ x. (refl, refl, inl refl))
              (skip-IsInOrder r rest o h))
        | inr e ↦ rw e (
            changed-IsInOrder r.id _ rest o (λ x. (refl, refl, inr refl))
              (skip-IsInOrder r rest o h))
      ]

  process_row-IsInOrder :
      (r : OutboxRow) (rest : List OutboxRow) (blocked : List ℕ) (o : Outbox)
      → IsInOrder (r ∷ rest) o
      → IsInOrder rest (process_row default_max post clock r blocked o).1
  unfolding process_row
  process_row-IsInOrder r rest blocked o h = elim (Bool-cases (is_blocked r blocked)) [
    | inl e ↦ rw e (
        changed-IsInOrder r.id (postpone (clock r) 1) rest o (λ x. (refl, refl, inr refl))
          (skip-IsInOrder r rest o h))
    | inr e ↦ rw e (replay-IsInOrder (post r) r rest blocked (called r o) h)
  ]

  pub process_rows-IsInOrder :
      (claimed : List OutboxRow) (blocked : List ℕ) (o : Outbox)
      → IsInOrder claimed o
      → IsInOrder [] (process_rows default_max post clock claimed blocked o)
  unfolding process_rows
  process_rows-IsInOrder [] blocked o h = h
  process_rows-IsInOrder (r ∷ rest) blocked o h =
      let next = process_row default_max post clock r blocked o in
      process_rows-IsInOrder rest next.0 next.1 (process_row-IsInOrder r rest blocked o h)
