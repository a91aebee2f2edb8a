-- ===== src/Booking/Outbox/Calls/Passes.antt =====
-- How often app/booking/application/cache_outbox_relay.py calls the client for one request.
use ushbooknpay.Base.{
  ℕ, ◌+◌, ◌≤◌, ◌<◌, ◌≡◌, inl, inr, refl, ap, sym, ◌∙◌, true, List, [], ◌∷◌, ◌++◌, arith, leb, ◌==◌,
  keep, total-append, All, All-append, Bool-cases,
}
use ushbooknpay.Base.Sorting.{All-sort_by}
use ushbooknpay.Base.Pairs.{All-map}
use ushbooknpay.Booking.Outbox.{
  OutboxStatus, OutboxRow, Outbox, Reply, accepted, retryable, refused, is_claimable, due_batch,
  finish, lease, postpone, in_rows, limit_of, is_blocked, called, replay, process_row, process_rows,
  process_outbox_once, enqueue_cache_request, empty_outbox, backoff_seconds, seconds, lease_seconds,
}
use ushbooknpay.Booking.Outbox.Order.{All-take}
use ushbooknpay.Booking.Outbox.Rows.{All-kept, All-finish, claimable-pending}
use ushbooknpay.Booking.Outbox.Runs.{Action, enqueues, passes, run_actions}
use ushbooknpay.Booking.Outbox.Calls.{
  times, has, rows_of, finish-rows_of, lease-rows_of, due_batch-rows_of, IsCalled, IsClaimed,
  IsClaimed-of, other_call, IsCalled-finish, IsCalled-row, rest-IsClaimed,
}

module _ (m : ℕ) where
  abbrev buried : OutboxRow → OutboxRow → OutboxRow
  buried r x = record x { status = OutboxStatus.dead; attempts = r.attempts + 1 }

  -- Between two rows of a pass, with the rows that are still to come, and ids that rows may have.
  abbrev IsCounted : List ℕ → List OutboxRow → Outbox → Type 0
  IsCounted used claimed o =
      All (IsCalled m o.calls) o.rows
      × All (IsClaimed m o.calls) claimed
      × ((i : ℕ) → rows_of i claimed ≤ rows_of i o.rows)
      × ((i : ℕ) → rows_of i o.rows ≤ times i used)
      × ((i : ℕ) → rows_of i o.rows ≡ 0 → times i o.calls ≡ 0)

  module _ (used : List ℕ) (distinct : (i : ℕ) → times i used ≤ 1) (post : OutboxRow → Reply)
      (clock : OutboxRow → ℕ) where
    replay-IsCalled :
        (reply : Reply) (r : OutboxRow) (blocked : List ℕ) (o : Outbox)
        → IsClaimed m o.calls r
        → All (IsCalled m o.calls) o.rows
        → let next = (replay m post clock reply r blocked (called r o)).1 in
          All (IsCalled m next.calls) next.rows
          × (next.calls ≡ o.calls ++ (r.id ∷ []))
          × ((i : ℕ) → rows_of i next.rows ≡ rows_of i o.rows)
    replay-IsCalled accepted r blocked o c h = (
      IsCalled-finish m o.calls r _ o.rows
          (λ x e k.
            IsCalled-row m o.calls r x (record x { status = OutboxStatus.delivered }) c e k refl
              refl (inl refl))
          h,
      refl,
      λ i. finish-rows_of i r.id _ o.rows (λ x. refl),
    )
    replay-IsCalled refused r blocked o c h = (
      IsCalled-finish m o.calls r _ o.rows
          (λ x e k. IsCalled-row m o.calls r x (buried r x) c e k refl refl (inl refl)) h,
      refl,
      λ i. finish-rows_of i r.id _ o.rows (λ x. refl),
    )
    replay-IsCalled retryable r blocked o c h =
        elim (Bool-cases (leb (limit_of m r) (r.attempts + 1))) [
          | inl e ↦ rw e (
            IsCalled-finish m o.calls r _ o.rows
                (λ x e k. IsCalled-row m o.calls r x (buried r x) c e k refl refl (inl refl)) h,
            refl,
            λ i. finish-rows_of i r.id _ o.rows (λ x. refl),
          )
          | inr e ↦
              let less : r.attempts + 1 < m = ground (arith, e, c) in
              rw e (
                IsCalled-finish m o.calls r _ o.rows
                    (λ x e k.
                      IsCalled-row m o.calls r x
                        (postpone (clock r) (r.attempts + 1)
                          (record x { attempts = r.attempts + 1 }))
                        c e k refl refl (inr (refl, less)))
                    h,
                refl,
                λ i. finish-rows_of i r.id _ o.rows (λ x. refl),
              )
        ]

    process_row-IsCounted :
        (r : OutboxRow) (rest : List OutboxRow) (blocked : List ℕ) (o : Outbox)
        → IsCounted used (r ∷ rest) o
        → IsCounted used rest (process_row m post clock r blocked o).1
    unfolding process_row
    process_row-IsCounted r rest blocked o (rows, claimed, among, once, known) =
        elim (Bool-cases (is_blocked r blocked)) [
          | inl e ↦
              let same =
                λ (i : ℕ). finish-rows_of i r.id (postpone (clock r) 1) o.rows (λ x. refl) in
              rw e (
                All-finish (IsCalled m o.calls) r.id (postpone (clock r) 1) o.rows (λ x q. q) rows,
                claimed.1,
                λ i. omega (arith, same i, among i),
                λ i. omega (arith, same i, once i),
                λ i z. known i (omega (arith, same i, z)),
              )
          | inr e ↦
              let (called_rows, calls, same) =
                replay-IsCalled (post r) r blocked o claimed.0 rows in
              let one : has r.id r ≡ 1 =
                let yes : (r.id == r.id) ≡ true = ground arith in rw yes refl in
              let alone : rows_of r.id rest ≡ 0 =
                omega (arith, one, among r.id, once r.id, distinct r.id) in
              rw e (
                called_rows,
                rw calls (rest-IsClaimed m o.calls r.id rest alone claimed.1),
                λ i. omega (arith, same i, among i),
                λ i. omega (arith, same i, once i),
                λ i z. elim (Bool-cases (i == r.id)) [
                  | inl f ↦
                      let it : i ≡ r.id = ground (arith, f) in
                      absurd (
                        omega (
                          arith,
                          one,
                          among r.id,
                          same r.id,
                          ap
                              (λ j.
                                rows_of j
                                  (replay m post clock (post r) r blocked (called r o)).1.rows)
                              it,
                          z,
                        ))
                  | inr f ↦
                      ap (times i) calls
                      ∙ (other_call m o.calls i r.id f ∙ known i (omega (arith, same i, z)))
                ],
              )
        ]

    process_rows-IsCounted :
        (claimed : List OutboxRow) (blocked : List ℕ) (o : Outbox)
        → IsCounted used claimed o
        → IsCounted used [] (process_rows m post clock claimed blocked o)
    unfolding process_rows
    process_rows-IsCounted [] blocked o h = h
    process_rows-IsCounted (r ∷ rest) blocked o h =
        let next = process_row m post clock r blocked o in
        process_rows-IsCounted rest next.0 next.1 (process_row-IsCounted r rest blocked o h)

    lease-IsCalled :
        (calls : List ℕ) (until : ℕ) (claimed rows : List OutboxRow)
        → All (IsCalled m calls) rows
        → All (IsCalled m calls) (lease until claimed rows)
    unfolding lease
    lease-IsCalled calls until [] rows h = h
    lease-IsCalled calls until (c ∷ claimed) rows h =
        let change = λ (x : OutboxRow). record x { next_attempt_at = until } in
        lease-IsCalled calls until claimed (finish c.id change rows)
          (All-finish (IsCalled m calls) c.id change rows (λ x q. q) h)

    due_batch-IsClaimed :
        (calls : List ℕ) (limit now : ℕ) (rows : List OutboxRow)
        → All (IsCalled m calls) rows
        → All (IsClaimed m calls) (due_batch limit now rows)
    unfolding due_batch
    due_batch-IsClaimed calls limit now rows h = All-take (IsClaimed m calls) limit _ (
        All-sort_by (λ r. r.created_at) (IsClaimed m calls) (keep (is_claimable now rows) rows)
          (All-kept (IsCalled m calls) (IsClaimed m calls) (is_claimable now rows) rows
            (λ x e q. IsClaimed-of m calls x (claimable-pending now rows x e) q) h))

    pass-IsCounted :
        (limit now : ℕ) (o : Outbox)
        → IsCounted used [] o
        → IsCounted used [] (process_outbox_once m post clock limit now o)
    unfolding process_outbox_once
    pass-IsCounted limit now o (rows, claimed, among, once, known) =
        let batch = due_batch limit now o.rows in
        let until = now + seconds lease_seconds in
        let same = λ (i : ℕ). lease-rows_of i until batch o.rows in
        process_rows-IsCounted batch [] (in_rows (lease until batch) o) (
          lease-IsCalled o.calls until batch o.rows rows,
          due_batch-IsClaimed o.calls limit now o.rows rows,
          λ i. omega (arith, same i, due_batch-rows_of i limit now o.rows),
          λ i. omega (arith, same i, once i),
          λ i z. known i (omega (arith, same i, z)),
        )

-- The requests have ids that no other has.
abbrev pub HasFreshIds : List ℕ → List Action → Type 0
HasFreshIds used [] = Unit
HasFreshIds used (enqueues id booking_id now ∷ rest) =
    (times id used ≡ 0) × HasFreshIds (id ∷ used) rest
HasFreshIds used (passes limit now post clock ∷ rest) = HasFreshIds used rest

fresh-distinct :
    (id : ℕ) (used : List ℕ)
    → times id used ≡ 0
    → ((i : ℕ) → times i used ≤ 1)
    → (i : ℕ) → times i (id ∷ used) ≤ 1
fresh-distinct id used fresh distinct i = elim (Bool-cases (id == i)) [
  | inl e ↦
      let same : id ≡ i = ground (arith, e) in
      let none : times i used ≡ 0 = ap (λ j. times j used) (sym same) ∙ fresh in
      rw e (omega (arith, none))
  | inr e ↦ rw e (omega (arith, distinct i))
]

module _ (m : ℕ) (some_left : 1 < m) where
  abbrev new_row : ℕ → ℕ → ℕ → OutboxRow
  new_row id booking_id now = record {
    id = id;
    booking_id = booking_id;
    status = OutboxStatus.pending;
    attempts = 1;
    max_attempts = m;
    created_at = now;
    next_attempt_at = now + seconds (backoff_seconds 1);
  }

  enqueue-IsCounted :
      (used : List ℕ) (id booking_id now : ℕ) (o : Outbox)
      → times id used ≡ 0
      → IsCounted m used [] o
      → IsCounted m (id ∷ used) [] (enqueue_cache_request m id booking_id now o)
  unfolding enqueue_cache_request
  enqueue-IsCounted used id booking_id now o fresh (rows, claimed, among, once, known) =
      let none : times id o.calls ≡ 0 = known id (omega (arith, once id, fresh)) in
      let row = new_row id booking_id now in
      let more = λ (i : ℕ). total-append (has i) o.rows (row ∷ []) in
      (
        All-append (IsCalled m o.calls) o.rows (row ∷ []) rows
            ((refl, omega (arith, none), inr (omega (arith, none), some_left)), tt),
        tt,
        λ i. omega arith,
        λ i. omega (arith, more i, once i),
        λ i z. known i (omega (arith, more i, z)),
      )

  run_actions-IsCounted :
      (used : List ℕ) (actions : List Action) (o : Outbox)
      → ((i : ℕ) → times i used ≤ 1)
      → HasFreshIds used actions
      → IsCounted m used [] o
      → All (IsCalled m (run_actions m actions o).calls) (run_actions m actions o).rows
  unfolding run_actions
  run_actions-IsCounted used [] o distinct fresh h = h.0
  run_actions-IsCounted used (enqueues id booking_id now ∷ rest) o distinct fresh h =
      run_actions-IsCounted (id ∷ used) rest _ (fresh-distinct id used fresh.0 distinct) fresh.1
        (enqueue-IsCounted used id booking_id now o fresh.0 h)
  run_actions-IsCounted used (passes limit now post clock ∷ rest) o distinct fresh h =
      run_actions-IsCounted used rest _ distinct fresh
        (pass-IsCounted m used distinct post clock limit now o h)

  -- From an empty outbox, with a setting of two attempts or more, over any sequence of requests, each with
  -- an id of its own, and of passes, whatever the client replies: the client is called for a request no
  -- more often than the setting allows, the failed call that enqueued it included.
  pub run_actions-calls :
      (actions : List Action)
      → HasFreshIds [] actions
      → All
          (λ r. times r.id (run_actions m actions empty_outbox).calls + 1 ≤ m)
          (run_actions m actions empty_outbox).rows
  run_actions-calls actions fresh =
      All-map (IsCalled m (run_actions m actions empty_outbox).calls) _
        (run_actions m actions empty_outbox).rows (λ r h. h.1)
        (run_actions-IsCounted [] actions empty_outbox (λ i. omega arith) fresh
          (tt, tt, (λ i. omega arith), (λ i. omega arith), (λ i z. refl)))
