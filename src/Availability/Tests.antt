-- ===== src/Availability/Tests.antt =====
-- A therapist's morning, worked through: two hours of work of which the second quarter is booked, a
-- service of an hour and slots of half an hour.
use ushbooknpay.Base.{
  ℕ, ◌*◌, ◌+◌, ◌≤◌, ◌<◌, ◌≡◌, ◌↔◌, refl, Bool, true, false, ◌&&◌, not, none, some, List, [], ◌∷◌,
  arith, if◌then◌else◌,
}
use ushbooknpay.Base.Sorting.{sort_by, insert_by}
use ushbooknpay.Availability.Intervals.{Interval, interval, covers, overlaps, IsSeparated}
use ushbooknpay.Availability.Merge.{sweep, merge_intervals, covers-merge_intervals}
use ushbooknpay.Availability.Subtract.{cut, subtract_from, subtract_intervals}
use ushbooknpay.Availability.Subtract.Exact.{covers-subtract_intervals}
use ushbooknpay.Availability.Intersect.{intersect_intervals, intersect_with_window}
use ushbooknpay.Availability.Blocks.{
  TimeBlock, available, booking, minutes, slots_needed, slot_starts, make_block, block_at,
  blocks_from, classify_blocking_reason, generate_blocks,
}
use ushbooknpay.Availability.Blocks.Available.{FreeThroughout}
use ushbooknpay.Availability.Blocks.Generate.{generate_blocks-is_available}
use ushbooknpay.Availability.Blocks.Overrun.{generate_blocks-overrun}
use ushbooknpay.Availability.Engine.{
  Engine, TherapistScheduleInput, DayAvailability, effective_working, all_blocked, free_intervals,
  day_blocks, compute_day,
}
use ushbooknpay.Availability.Engine.Safety.{IsProperInput, works_at, busy_at, covers-free_intervals}
use ushbooknpay.Availability.Engine.Day.{span, compute_day-is_available}

abbrev at : ℕ → ℕ → Interval
at a b = interval (minutes a) (minutes b)

abbrev work : List Interval
work = at 0 120 ∷ []

abbrev taken : List Interval
taken = at 30 60 ∷ []

abbrev rest : List Interval
rest = at 0 30 ∷ at 60 120 ∷ []

abbrev therapist : TherapistScheduleInput
therapist = record {
  therapist_id = "7";
  therapist_name = "Mona";
  is_available_for_home_service = false;
  working_hours = work;
  leaves = [];
  extra_hours = [];
  existing_bookings = taken;
  home_bookings = [];
  temporary_holds = [];
}

therapist-IsProper : IsProperInput therapist
therapist-IsProper = record {
  working = (omega arith, tt);
  away = tt;
  extra = tt;
  booked = (omega arith, tt);
  home = tt;
  held = tt;
}

abbrev hour : Engine
hour = record { duration = 60; slot = 30; home_buffer = 15 }

abbrev block : ℕ → Bool → TimeBlock
block a ok = record {
  start = minutes a;
  end = minutes (a + 30);
  is_available = ok;
  blocking_type = if ok then available else booking;
  booking_id = none;
  resource_type = none;
}

abbrev morning_blocks : List TimeBlock
morning_blocks = block 0 false ∷ block 30 false ∷ block 60 true ∷ block 90 false ∷ []

abbrev morning : DayAvailability
morning = record {
  date_str = 3;
  branch_opening = 0;
  branch_closing = 2;
  blocks = morning_blocks;
  is_closed = false;
}

free_time : free_intervals therapist (at 0 120) ≡ rest
unfolding free_intervals effective_working all_blocked merge_intervals sort_by insert_by sweep
    subtract_intervals subtract_from cut intersect_with_window intersect_intervals overlaps
free_time = refl

generated : generate_blocks rest 30 0 (minutes 120) 60 ≡ some morning_blocks
unfolding generate_blocks slot_starts slots_needed blocks_from block_at make_block
    classify_blocking_reason
generated = refl

computed : compute_day hour therapist 3 0 2 (at 0 120) ≡ some morning
unfolding compute_day day_blocks free_intervals effective_working all_blocked merge_intervals
    sort_by insert_by sweep subtract_intervals subtract_from cut intersect_with_window
    intersect_intervals overlaps generate_blocks slot_starts slots_needed blocks_from block_at
    make_block classify_blocking_reason
computed = refl

compute_day-is_available_example : (true ≡ true) ↔ (
    (minutes 60 + span hour ≤ minutes 120)
    × ((t : ℕ)
        → minutes 60 ≤ t
        → t < minutes 60 + span hour
        → (works_at therapist t ≡ true) × (busy_at therapist t ≡ false)))
compute_day-is_available_example =
    compute_day-is_available hour therapist 3 0 2 (at 0 120) morning 2 (block 60 true) (omega arith)
      therapist-IsProper computed refl

covers-free_intervals_example :
    covers (free_intervals therapist (at 0 120)) (minutes 45)
    ≡ (works_at therapist (minutes 45) && not (busy_at therapist (minutes 45)))
covers-free_intervals_example =
    covers-free_intervals therapist (at 0 120) therapist-IsProper (minutes 45) refl

covers-subtract_intervals_example :
    covers (subtract_intervals work taken) (minutes 45)
    ≡ (covers work (minutes 45) && not (covers taken (minutes 45)))
covers-subtract_intervals_example =
    covers-subtract_intervals work taken (minutes 45) (omega arith, tt) (omega arith, tt)

abbrev scattered : List Interval
scattered = at 60 90 ∷ at 0 20 ∷ at 15 40 ∷ []

covers-merge_intervals_example :
    covers (merge_intervals scattered) (minutes 30) ≡ covers scattered (minutes 30)
covers-merge_intervals_example = covers-merge_intervals scattered (minutes 30)

rest-IsSeparated : IsSeparated rest
rest-IsSeparated = (omega arith, (omega arith, omega arith, tt))

generate_blocks-is_available_example : (true ≡ true) ↔ (
    (minutes 60 + slots_needed 60 30 * minutes 30 ≤ minutes 120)
    × FreeThroughout rest (minutes 60) (minutes 60 + slots_needed 60 30 * minutes 30))
generate_blocks-is_available_example =
    generate_blocks-is_available rest 29 0 (minutes 120) 60 morning_blocks 2 (block 60 true)
      rest-IsSeparated generated refl

abbrev short_blocks : List TimeBlock
short_blocks = block 0 true ∷ block 30 false ∷ []

short_generated : generate_blocks (at 0 30 ∷ []) 30 0 (minutes 60) 45 ≡ some short_blocks
unfolding generate_blocks slot_starts slots_needed blocks_from block_at make_block
    classify_blocking_reason
short_generated = refl

generate_blocks-overrun_example :
    (true ≡ true) × (¬ FreeThroughout (at 0 30 ∷ []) 0 (0 + minutes 45))
unfolding slots_needed
generate_blocks-overrun_example =
    generate_blocks-overrun 29 0 (minutes 60) 45 short_blocks (block 0 true) (omega arith)
      (omega arith) short_generated refl
