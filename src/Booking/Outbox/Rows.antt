-- ===== src/Booking/Outbox/Rows.antt =====
-- What one pass of app/booking/application/cache_outbox_relay.py keeps of every row.
use ushbooknpay.Base.{
  ℕ, ◌+◌, ◌<◌, ◌≡◌, inl, inr, Bool, true, List, [], ◌∷◌, arith, leb, ◌==◌, keep, All, All-append,
  Bool-cases,
}
use ushbooknpay.Base.Sorting.{All-sort_by}
use ushbooknpay.Booking.Outbox.{
  OutboxStatus, OutboxRow, Outbox, Reply, accepted, retryable, refused, is_pending, is_claimable,
  due_batch, finish, lease, postpone, in_rows, limit_of, is_blocked, replay, process_row, called,
  process_rows, process_outbox_once, seconds, lease_seconds,
}
use ushbooknpay.Booking.Outbox.Order.{All-take}

pub All-finish :
    (Q : OutboxRow → Type 0) (i : ℕ) (change : OutboxRow → OutboxRow) (rows : List OutboxRow)
    → ((x : OutboxRow) → Q x → Q (change x))
    → All Q rows
    → All Q (finish i change rows)
unfolding finish
All-finish Q i change [] f h = tt
All-finish Q i change (x ∷ rows) f h = elim (Bool-cases (x.id == i)) [
  | inl e ↦ rw e (f x h.0, All-finish Q i change rows f h.1)
  | inr e ↦ rw e (h.0, All-finish Q i change rows f h.1)
]

-- What holds of the rows that pass the test, given what holds of all.
pub All-kept :
    (P Q : OutboxRow → Type 0) (p : OutboxRow → Bool) (xs : List OutboxRow)
    → ((x : OutboxRow) → p x ≡ true → P x → Q x)
    → All P xs
    → All Q (keep p xs)
All-kept P Q p [] f h = tt
All-kept P Q p (x ∷ xs) f h = elim (Bool-cases (p x)) [
  | inl e ↦ rw e (f x e h.0, All-kept P Q p xs f h.1)
  | inr e ↦ rw e (All-kept P Q p xs f h.1)
]

pub claimable-pending :
    (now : ℕ) (rows : List OutboxRow) (r : OutboxRow)
    → is_claimable now rows r ≡ true
    → is_pending r ≡ true
claimable-pending now rows r h = ground (arith, h)

-- A property of rows that every change keeps which a pass makes.
pub record IsKept (default_max : ℕ) (Q : OutboxRow → Type 0) : Type 0 where
  pub on_time : (n : ℕ) (x : OutboxRow) → Q x → Q (record x { next_attempt_at = n })
  pub on_delivered : (x : OutboxRow) → Q x → Q (record x { status = OutboxStatus.delivered })
  pub on_dead :
      (r x : OutboxRow)
      → Q r
      → is_pending r ≡ true
      → Q x
      → Q (record x { status = OutboxStatus.dead; attempts = r.attempts + 1 })
  pub on_retry :
      (r x : OutboxRow)
      → Q r
      → is_pending r ≡ true
      → r.attempts + 1 < limit_of default_max r
      → Q x
      → Q (record x { attempts = r.attempts + 1 })

module _ (default_max : ℕ) (Q : OutboxRow → Type 0) (kept : IsKept default_max Q) where
  abbrev pub IsClaimed : OutboxRow → Type 0
  IsClaimed r = Q r × (is_pending r ≡ true)

  lease-All :
      (until : ℕ) (claimed rows : List OutboxRow) → All Q rows → All Q (lease until claimed rows)
  unfolding lease
  lease-All until [] rows h = h
  lease-All until (c ∷ claimed) rows h =
      lease-All until claimed (finish c.id (λ x. record x { next_attempt_at = until }) rows) (
        All-finish Q c.id (λ x. record x { next_attempt_at = until }) rows
          (λ x q. kept.on_time until x q) h)

  due_batch-IsClaimed :
      (limit now : ℕ) (rows : List OutboxRow)
      → All Q rows
      → All IsClaimed (due_batch limit now rows)
  unfolding due_batch
  due_batch-IsClaimed limit now rows h = All-take IsClaimed limit _ (
      All-sort_by (λ r. r.created_at) IsClaimed (keep (is_claimable now rows) rows)
        (All-kept Q IsClaimed (is_claimable now rows) rows
          (λ x e q. (q, claimable-pending now rows x e)) h))

  abbrev pub IsAllKept : Outbox → Type 0
  IsAllKept o = All Q o.rows × All Q o.log

  module _ (post : OutboxRow → Reply) (clock : OutboxRow → ℕ) where
    replay-All :
        (reply : Reply) (r : OutboxRow) (blocked : List ℕ) (o : Outbox)
        → IsClaimed r
        → IsAllKept o
        → IsAllKept (replay default_max post clock reply r blocked o).1
    replay-All accepted r blocked o c (rows, log) = (
      All-finish Q r.id _ o.rows (λ x q. kept.on_delivered x q) rows,
      All-append Q o.log (r ∷ []) log (c.0, tt),
    )
    replay-All refused r blocked o c (rows, log) =
        (All-finish Q r.id _ o.rows (λ x q. kept.on_dead r x c.0 c.1 q) rows, log)
    replay-All retryable r blocked o c (rows, log) =
        elim (Bool-cases (leb (limit_of default_max r) (r.attempts + 1))) [
          | inl e ↦ rw e (All-finish Q r.id _ o.rows (λ x q. kept.on_dead r x c.0 c.1 q) rows, log)
          | inr e ↦ rw e (
            All-finish Q r.id _ o.rows
                (λ x q. kept.on_time _ _ (kept.on_retry r x c.0 c.1 (ground (arith, e)) q)) rows,
            log,
          )
        ]

    process_row-All :
        (r : OutboxRow) (blocked : List ℕ) (o : Outbox)
        → IsClaimed r
        → IsAllKept o
        → IsAllKept (process_row default_max post clock r blocked o).1
    unfolding process_row
    process_row-All r blocked o c h = elim (Bool-cases (is_blocked r blocked)) [
      | inl e ↦
          rw e
            (All-finish Q r.id (postpone (clock r) 1) o.rows (λ x q. kept.on_time _ x q) h.0, h.1)
      | inr e ↦ rw e (replay-All (post r) r blocked (called r o) c h)
    ]

    process_rows-All :
        (claimed : List OutboxRow) (blocked : List ℕ) (o : Outbox)
        → All IsClaimed claimed
        → IsAllKept o
        → IsAllKept (process_rows default_max post clock claimed blocked o)
    unfolding process_rows
    process_rows-All [] blocked o c h = h
    process_rows-All (r ∷ rest) blocked o c h =
        let next = process_row default_max post clock r blocked o in
        process_rows-All rest next.0 next.1 c.1 (process_row-All r blocked o c.0 h)

    pub process_outbox_once-All :
        (limit now : ℕ) (o : Outbox)
        → IsAllKept o
        → IsAllKept (process_outbox_once default_max post clock limit now o)
    unfolding process_outbox_once
    process_outbox_once-All limit now o (rows, log) =
        let claimed = due_batch limit now o.rows in
        process_rows-All claimed [] (in_rows (lease (now + seconds lease_seconds) claimed) o)
          (due_batch-IsClaimed limit now o.rows rows)
          (lease-All (now + seconds lease_seconds) claimed o.rows rows, log)
