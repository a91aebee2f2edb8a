-- ===== src/Availability/Engine/Safety.antt =====
-- What the engine promises: an available block is time in which the therapist works and is neither
-- on leave nor booked nor held.
use ushbooknpay.Base.{
  ℕ, ◌≡◌, refl, Bool, true, not, ◌&&◌, ◌||◌, ◌∙◌, List, [], ◌∷◌, ◌++◌, arith, All, All-append,
  All-keep, any-append,
}
use ushbooknpay.Availability.Intervals.{Interval, contains, covers, overlaps, IsProper, IsSeparated}
use ushbooknpay.Availability.Merge.{
  merge_intervals, covers-merge_intervals, merge_intervals-IsSeparated,
}
use ushbooknpay.Availability.Subtract.Exact.{covers-subtract_intervals}
use ushbooknpay.Availability.Subtract.Order.{subtract_intervals-IsSeparated}
use ushbooknpay.Availability.Intersect.{
  covers-intersect_with_window, intersect_with_window-IsSeparated,
}
use ushbooknpay.Availability.Engine.{
  TherapistScheduleInput, filter_for_day, effective_working, all_blocked, free_intervals,
}

-- The intervals of a schedule are proper.
pub record IsProperInput (th : TherapistScheduleInput) : Type 0 where
  pub working : All IsProper th.working_hours
  pub away : All IsProper th.leaves
  pub extra : All IsProper th.extra_hours
  pub booked : All IsProper th.existing_bookings
  pub home : All IsProper th.home_bookings
  pub held : All IsProper th.temporary_holds

-- Over the whole schedule, and not only over the day's part of it.
abbrev pub works_at : TherapistScheduleInput → ℕ → Bool
works_at th t = covers th.working_hours t || covers th.extra_hours t

abbrev pub busy_at : TherapistScheduleInput → ℕ → Bool
busy_at th t =
    covers th.leaves t
    || (covers th.existing_bookings t || (covers th.home_bookings t || covers th.temporary_holds t))

-- Filtering for the day loses no interval that covers an instant of it.
covers-filter_for_day :
    (window : Interval) (ivs : List Interval) (t : ℕ)
    → contains t window ≡ true
    → covers (filter_for_day window ivs) t ≡ covers ivs t
unfolding overlaps
covers-filter_for_day window [] t h = refl
covers-filter_for_day window (iv ∷ ivs) t h = ground (arith, covers-filter_for_day window ivs t)

module _ (th : TherapistScheduleInput) (window : Interval) (proper : IsProperInput th) where
  open proper use {working, away, extra, booked, home, held}

  kept : (ivs : List Interval) → All IsProper ivs → All IsProper (filter_for_day window ivs)
  kept ivs h = All-keep IsProper (λ iv. overlaps iv window) ivs h

  both : (a b : List Interval) → All IsProper a → All IsProper b → All IsProper (a ++ b)
  both a b h k = All-append IsProper a b h k

  effective_working-IsSeparated : IsSeparated (effective_working th window)
  unfolding effective_working
  effective_working-IsSeparated =
      subtract_intervals-IsSeparated _ _
        (intersect_with_window-IsSeparated _ window (
          merge_intervals-IsSeparated _
            (both _ _ (kept th.working_hours working) (kept th.extra_hours extra))))
        (merge_intervals-IsSeparated _ (kept th.leaves away))

  all_blocked-IsSeparated : IsSeparated (all_blocked th window)
  unfolding all_blocked
  all_blocked-IsSeparated = merge_intervals-IsSeparated _ (
      both _ _ (kept th.existing_bookings booked)
        (both _ _ (kept th.home_bookings home) (kept th.temporary_holds held)))

  -- The free intervals of a day are proper, in order, and have a gap between any two.
  pub free_intervals-IsSeparated : IsSeparated (free_intervals th window)
  unfolding free_intervals
  free_intervals-IsSeparated =
      subtract_intervals-IsSeparated _ _ effective_working-IsSeparated all_blocked-IsSeparated

  covers-base :
      (t : ℕ)
      → contains t window ≡ true
      → covers
          (merge_intervals
            (filter_for_day window th.working_hours ++ filter_for_day window th.extra_hours))
          t
        ≡ works_at th t
  covers-base t h =
      covers-merge_intervals _ t
      ∙ ground (
        arith,
        any-append (contains t) (filter_for_day window th.working_hours)
            (filter_for_day window th.extra_hours),
        covers-filter_for_day window th.working_hours t h,
        covers-filter_for_day window th.extra_hours t h,
      )

  covers-effective_working :
      (t : ℕ)
      → contains t window ≡ true
      → covers (effective_working th window) t ≡ (works_at th t && not (covers th.leaves t))
  unfolding effective_working
  covers-effective_working t h =
      covers-subtract_intervals _ _ t
        (intersect_with_window-IsSeparated _ window (
          merge_intervals-IsSeparated _
            (both _ _ (kept th.working_hours working) (kept th.extra_hours extra))))
        (merge_intervals-IsSeparated _ (kept th.leaves away))
      ∙ rw
          (
            covers-intersect_with_window,
            covers-base t h,
            covers-merge_intervals,
            covers-filter_for_day window th.leaves t h,
            h,
          )
          (ground arith)

  covers-all_blocked :
      (t : ℕ)
      → contains t window ≡ true
      → covers (all_blocked th window) t ≡ (
          covers th.existing_bookings t
          || (covers th.home_bookings t || covers th.temporary_holds t))
  unfolding all_blocked
  covers-all_blocked t h =
      covers-merge_intervals _ t
      ∙ rw (
        any-append,
        any-append,
        covers-filter_for_day window th.existing_bookings t h,
        covers-filter_for_day window th.home_bookings t h,
        covers-filter_for_day window th.temporary_holds t h,
      )

  -- Within the day's window, the free intervals cover exactly the instants at which the therapist
  -- works, and which no leave, booking, home booking or hold takes.
  pub covers-free_intervals :
      (t : ℕ)
      → contains t window ≡ true
      → covers (free_intervals th window) t ≡ (works_at th t && not (busy_at th t))
  unfolding free_intervals
  covers-free_intervals t h =
      covers-subtract_intervals _ _ t effective_working-IsSeparated all_blocked-IsSeparated
      ∙ rw (covers-effective_working t h, covers-all_blocked t h) (ground arith)

  pub free_within_working :
      (t : ℕ)
      → covers (free_intervals th window) t ≡ true
      → covers (effective_working th window) t ≡ true
  unfolding free_intervals
  free_within_working t h = ground (
    arith,
    covers-subtract_intervals (effective_working th window) (all_blocked th window) t
        effective_working-IsSeparated all_blocked-IsSeparated,
  )
