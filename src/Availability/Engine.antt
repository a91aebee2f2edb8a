-- ===== src/Availability/Engine.antt =====
-- `AppointmentAvailabilityEngine` of app/availability/domain/engine.py, over the inputs and the
-- results of value_objects.py. Dates are day numbers; the branch's zone and its opening and closing
-- times enter as the function that gives the day's instants.
pub mod Safety
pub mod Day
use Prim.Native.String.{String}
use mathlib.Core.Option
use ushbooknpay.Base.{
  ℕ, zero, suc, ◌+◌, ◌-◌, Bool, true, false, ◌&&◌, not, Option, none, some, List, [], ◌∷◌, ◌++◌,
  ltb, ◌==◌, keep, if◌then◌else◌,
}
use ushbooknpay.Availability.Intervals.{Interval, interval, overlaps}
use ushbooknpay.Availability.Merge.{merge_intervals}
use ushbooknpay.Availability.Subtract.{subtract_intervals}
use ushbooknpay.Availability.Intersect.{intersect_with_window}
use ushbooknpay.Availability.Blocks.{TimeBlock, minutes, generate_blocks, generate_closed_blocks}

pub record TherapistScheduleInput : Type 0 where
  pub therapist_id : String
  pub therapist_name : String
  pub is_available_for_home_service : Bool
  pub working_hours : List Interval
  pub leaves : List Interval
  pub extra_hours : List Interval
  pub existing_bookings : List Interval
  pub home_bookings : List Interval
  pub temporary_holds : List Interval

-- `date_str`, `branch_opening` and `branch_closing` stand for the texts that are made of them.
pub record DayAvailability : Type 0 where
  pub date_str : ℕ
  pub branch_opening : ℕ
  pub branch_closing : ℕ
  pub blocks : List TimeBlock
  pub is_closed : Bool

pub record Engine : Type 0 where
  pub duration : ℕ
  pub slot : ℕ
  pub home_buffer : ℕ

-- `_filter_for_day`
abbrev pub filter_for_day : Interval → List Interval → List Interval
filter_for_day day_window ivs = keep (λ iv. overlaps iv day_window) ivs

-- Steps 1 to 3: working and extra hours, within the day's window, less the leaves.
unfoldable pub effective_working : TherapistScheduleInput → Interval → List Interval
effective_working th day_window =
    let base_working =
      merge_intervals
        (filter_for_day day_window th.working_hours ++ filter_for_day day_window th.extra_hours) in
    subtract_intervals (intersect_with_window base_working day_window)
      (merge_intervals (filter_for_day day_window th.leaves))

-- Step 4.
unfoldable pub all_blocked : TherapistScheduleInput → Interval → List Interval
all_blocked th day_window = merge_intervals (
    filter_for_day day_window th.existing_bookings
    ++ (filter_for_day day_window th.home_bookings ++ filter_for_day day_window th.temporary_holds))

-- Step 5.
unfoldable pub free_intervals : TherapistScheduleInput → Interval → List Interval
free_intervals th day_window =
    subtract_intervals (effective_working th day_window) (all_blocked th day_window)

-- Step 6 on the working time of steps 1 to 3.
unfoldable pub day_blocks :
    Engine → List Interval → List Interval → Interval → Option (List TimeBlock)
day_blocks e [] free day_window =
    some (generate_closed_blocks day_window.start day_window.end e.slot)
day_blocks e (w ∷ ws) free day_window =
    generate_blocks free e.slot day_window.start day_window.end e.duration

abbrev pub is_empty {ℓ} : {A : Type ℓ} → List A → Bool
is_empty [] = true
is_empty (x ∷ xs) = false

-- One round of the loop over `dates`; `none` is the ZeroDivisionError of a slot of 0 minutes.
unfoldable pub compute_day :
    Engine → TherapistScheduleInput → ℕ → ℕ → ℕ → Interval → Option DayAvailability
unfolding day_blocks
compute_day e th d opening closing day_window =
    let working = effective_working th day_window in
    Option.map
      (λ bs. record {
        date_str = d;
        branch_opening = opening;
        branch_closing = closing;
        blocks = bs;
        is_closed = is_empty working;
      })
      (day_blocks e working (free_intervals th day_window) day_window)

-- `result[date_str] = day`
unfoldable pub put_day : DayAvailability → List DayAvailability → List DayAvailability
put_day day [] = day ∷ []
put_day day (x ∷ xs) = if x.date_str == day.date_str then day ∷ xs else x ∷ put_day day xs

module _ (e : Engine) (th : TherapistScheduleInput) (instant : ℕ → ℕ → ℕ)
    (opening closing : ℕ) where
  -- The loop over `dates`, with the days computed so far in the order of the dictionary.
  unfoldable pub compute_days : List ℕ → List DayAvailability → Option (List DayAvailability)
  unfolding compute_day put_day
  compute_days [] result = some result
  compute_days (d ∷ ds) result =
      elim (compute_day e th d opening closing (interval (instant d opening) (instant d closing))) [
        | none ↦ none
        | some day ↦ compute_days ds (put_day day result)
      ]

  unfoldable pub compute_therapist_availability : List ℕ → Option (List DayAvailability)
  unfolding compute_days
  compute_therapist_availability dates = compute_days dates []

-- For intervals at least the buffer away from the ends of the range of datetimes, where the source
-- raises an OverflowError.
unfoldable pub apply_home_service_buffer : Engine → Interval → Interval
apply_home_service_buffer e iv =
    interval (iv.start - minutes e.home_buffer) (iv.end + minutes e.home_buffer)
