-- ===== src/Availability/Subtract/Exact.antt =====
-- What `subtract_intervals` leaves of the working time.
use ushbooknpay.Base.{ℕ, ◌≡◌, refl, not, ◌&&◌, List, [], ◌∷◌, ◌++◌, arith, any-append}
use ushbooknpay.Availability.Intervals.{
  Interval, contains, covers, covers-Follows, Follows-IsSeparated, IsSeparated,
}
use ushbooknpay.Availability.Subtract.{
  Cut, cut, tail_gap, subtract_from, subtract_intervals, cut-IsExact, cut-remaining,
  cut-IsSeparated,
}

covers-subtract_step :
    (w : Interval) (ws rest bs : List Interval) (t : ℕ)
    → IsSeparated (w ∷ ws)
    → IsSeparated bs
    → covers rest t ≡ (covers ws t && not (covers (cut w w.start bs).remaining t))
    → covers (((cut w w.start bs).pieces ++ tail_gap w (cut w w.start bs).current_start) ++ rest) t
      ≡ (covers (w ∷ ws) t && not (covers bs t))
covers-subtract_step w ws rest bs t f h ih =
    let c : Cut = cut w w.start bs in
    ground (
      arith,
      any-append (contains t) (c.pieces ++ tail_gap w c.current_start) rest,
      any-append (contains t) c.pieces (tail_gap w c.current_start),
      cut-IsExact w w.start bs t h,
      cut-remaining w w.start bs t,
      covers-Follows w.end ws t f.1,
    )

covers-subtract_from :
    (ws bs : List Interval) (t : ℕ)
    → IsSeparated ws
    → IsSeparated bs
    → covers (subtract_from ws bs) t ≡ (covers ws t && not (covers bs t))
unfolding subtract_from
covers-subtract_from [] bs t f h = refl
covers-subtract_from (w ∷ ws) bs t f h =
    let c : Cut = cut w w.start bs in
    covers-subtract_step w ws (subtract_from ws c.remaining) bs t f h (
      covers-subtract_from ws c.remaining t (Follows-IsSeparated w.end ws f.1)
        (cut-IsSeparated w w.start bs h))

-- Between merged lists, what is left covers exactly the instants of the working time that no
-- blocked interval covers.
pub covers-subtract_intervals :
    (working blocked : List Interval) (t : ℕ)
    → IsSeparated working
    → IsSeparated blocked
    → covers (subtract_intervals working blocked) t ≡ (covers working t && not (covers blocked t))
unfolding subtract_intervals
covers-subtract_intervals working [] t f h = ground arith
covers-subtract_intervals working (b ∷ bs) t f h = covers-subtract_from working (b ∷ bs) t f h
