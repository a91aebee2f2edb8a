-- ===== src/Booking/Sessions/Validity.antt =====
-- Which sessions `validate_sessions` of app/booking/domain/sessions.py accepts.
use ushbooknpay.Base.{
  ℕ, suc, ◌≤◌, ◌<◌, ◌≡◌, ◌↔◌, inl, inr, refl, sym, ap, ◌∙◌, false, Option, none, List, [], ◌∷◌,
  arith, ltb, length, All, Bool-cases, Option-cases,
}
use mathlib.Core.Path.{subst}
use ushbooknpay.Base.Sorting.{sort_by, sort_by-IsSorted, All-sort_by}
use ushbooknpay.Base.Pairs.{AllPairs, All-map, sort_by-All, AllPairs-sort_by, sort_by-AllPairs}
use ushbooknpay.Base.Session.{err-ok, ok-ok, ok}
use ushbooknpay.Booking.Sessions.{
  Session, SessionError, too_many_sessions, starts, ends, start_key, renumber, sort_sessions,
  check_each, check_order, first_start, validate_sessions, or_ordered,
}
use ushbooknpay.Booking.Sessions.Chain.{
  IsComplete, IsApart, IsProper, IsChain, IsComplete-IsProper, check_each-none, IsApart-sym,
  chain-IsApart, apart-IsChain, All-start,
}

module _ (date : ℕ → ℕ) where
  abbrev pub IsOn : ℕ → Session → Type 0
  IsOn day s = (date (starts s) ≡ day) × (date (ends s) ≡ day)

  check_order-none :
      (day a i : ℕ) (xs : List Session)
      → (check_order date day a i xs ≡ none) ↔ (All (IsOn day) xs × IsChain a xs)
  unfolding check_order
  check_order-none day a i [] = (λ _. (tt, tt), λ _. refl)
  check_order-none day a i (s ∷ rest) = ground (arith, check_order-none day (ends s) (suc i) rest)

  check_order-renumber :
      (day a i j : ℕ) (xs : List Session)
      → check_order date day a i (renumber j xs) ≡ check_order date day a i xs
  unfolding check_order renumber
  check_order-renumber day a i j [] = refl
  check_order-renumber day a i j (s ∷ rest) =
      ground (arith, check_order-renumber day (ends s) (suc i) (suc j) rest)

  first_start-renumber :
      (j : ℕ) (xs : List Session) → first_start date (renumber j xs) ≡ first_start date xs
  unfolding renumber
  first_start-renumber j [] = refl
  first_start-renumber j (s ∷ rest) = refl

  first_day :
      (day : ℕ) (xs : List Session) → All (IsOn day) xs → All (IsOn (date (first_start date xs))) xs
  first_day day [] h = tt
  first_day day (s ∷ rest) h = subst (λ d. All (IsOn d) (s ∷ rest)) (sym h.0.0) h

  -- What the checks on the sorted sessions come to.
  order_check : List Session → Option SessionError
  order_check xs =
      let ordered = sort_sessions xs in
      check_order date (date (first_start date ordered)) 0 0 ordered

  sorted_check :
      (xs : List Session)
      → order_check xs
        ≡ check_order date
            (date (first_start date (sort_by start_key xs)))
            0
            0
            (sort_by start_key xs)
  unfolding order_check sort_sessions
  sorted_check xs =
      let sorted = sort_by start_key xs in
      check_order-renumber (date (first_start date (renumber 0 sorted))) 0 0 0 sorted
      ∙ ap (λ t. check_order date (date t) 0 0 sorted) (first_start-renumber 0 sorted)

  -- The sessions as a whole: all on one local date, and any two apart.
  abbrev pub IsCompatible : List Session → Type 0
  IsCompatible xs = ((day : ℕ) × All (IsOn day) xs) × AllPairs IsApart xs

  order_check-none :
      (xs : List Session) → All IsComplete xs → (order_check xs ≡ none) ↔ IsCompatible xs
  order_check-none xs complete = (
    λ h.
        let both = (check_order-none day 0 0 sorted).0 (sym (sorted_check xs) ∙ h) in
        (
          (day, sort_by-All start_key (IsOn day) xs both.0),
          sort_by-AllPairs start_key IsApart IsApart-sym xs (chain-IsApart 0 sorted proper both.1),
        ),
    λ h.
        sorted_check xs
        ∙ (check_order-none day 0 0 sorted).1 (
          first_day h.0.0 sorted (All-sort_by start_key (IsOn h.0.0) xs h.0.1),
          apart-IsChain 0 sorted (sort_by-IsSorted start_key xs) proper
              (AllPairs-sort_by start_key IsApart IsApart-sym xs h.1) (All-start sorted),
        ),
  )
    where
      sorted : List Session
      sorted = sort_by start_key xs

      day : ℕ
      day = date (first_start date sorted)

      proper : All IsProper sorted
      proper =
          All-sort_by start_key IsProper xs
            (All-map IsComplete IsProper xs IsComplete-IsProper complete)

  abbrev pub IsBookable : ℕ → List Session → Type 0
  IsBookable max_sessions xs =
      (0 < length xs) × (length xs ≤ max_sessions) × All IsComplete xs × IsCompatible xs

  validated :
      (max_sessions : ℕ) (xs : List Session)
      → 0 < length xs
      → length xs ≤ max_sessions
      → check_each 0 xs ≡ none
      → validate_sessions date max_sessions xs ≡ or_ordered date (order_check xs) (sort_sessions xs)
  unfolding validate_sessions order_check
  validated max_sessions [] pos le each = absurd (omega arith)
  validated max_sessions (s ∷ rest) pos le each =
      let fits : ltb max_sessions (length (s ∷ rest)) ≡ false = ground arith in rw (fits, each) refl

  accepted :
      (max_sessions : ℕ) (xs ys : List Session)
      → validate_sessions date max_sessions xs ≡ ok ys
      → (0 < length xs)
        × (length xs ≤ max_sessions)
        × (check_each 0 xs ≡ none)
        × (order_check xs ≡ none)
        × (ys ≡ sort_sessions xs)
  unfolding validate_sessions order_check
  accepted max_sessions [] ys h = absurd (ground arith)
  accepted max_sessions (s ∷ rest) ys h = elim (Bool-cases (ltb max_sessions (length (s ∷ rest)))) [
    | inl over ↦ absurd (
        err-ok too_many_sessions ys (validate_sessions date max_sessions (s ∷ rest)) (rw over refl)
          h)
    | inr fits ↦ elim (Option-cases (check_each 0 (s ∷ rest))) [
      | inr (e, wrong) ↦
          absurd
            (err-ok e ys (validate_sessions date max_sessions (s ∷ rest)) (rw (fits, wrong) refl) h)
      | inl each ↦ elim (Option-cases (order_check (s ∷ rest))) [
        | inr (e, wrong) ↦ absurd (
            err-ok e ys (validate_sessions date max_sessions (s ∷ rest))
              (rw (fits, each, wrong) refl) h)
        | inl order ↦ (
          omega arith,
          ground arith,
          each,
          order,
          ok-ok ys (sort_sessions (s ∷ rest)) (validate_sessions date max_sessions (s ∷ rest)) h
              (rw (fits, each, order) refl),
        )
      ]
    ]
  ]

  -- What is known of accepted sessions: the checks that passed, and that they come sorted.
  pub accepted_lem :
      (max_sessions : ℕ) (xs ys : List Session)
      → validate_sessions date max_sessions xs ≡ ok ys
      → (0 < length xs) × All IsComplete xs × IsChain 0 ys × (ys ≡ sort_sessions xs)
  unfolding order_check
  accepted_lem max_sessions xs ys h =
      let (pos, le, each, order, same) = accepted max_sessions xs ys h in
      let sorted = sort_sessions xs in
      (
        pos,
        (check_each-none 0 xs).0 each,
        rw same ((check_order-none (date (first_start date sorted)) 0 0 sorted).0 order).1,
        same,
      )

  -- Sessions are accepted exactly if there is one at least and no more than allowed, each by itself has
  -- a therapist, services and a start before its end, all start and end on one local date, and of any
  -- two, in whatever order they are given, one ends before the other starts or as it starts.
  pub validate_sessions_iff :
      (max_sessions : ℕ) (xs : List Session)
      → ((ys : List Session) × (validate_sessions date max_sessions xs ≡ ok ys))
        ↔ IsBookable max_sessions xs
  validate_sessions_iff max_sessions xs = (
    λ (ys, h).
        let (pos, le, each, order, same) = accepted max_sessions xs ys h in
        let complete = (check_each-none 0 xs).0 each in
        (pos, le, complete, (order_check-none xs complete).0 order),
    λ (pos, le, complete, compatible). (
      sort_sessions xs,
      validated max_sessions xs pos le ((check_each-none 0 xs).1 complete)
          ∙ ap (λ e. or_ordered date e (sort_sessions xs))
              ((order_check-none xs complete).1 compatible),
    ),
  )
