-- ===== src/Availability/Engine/Day.antt =====
-- The blocks of a day that the engine computes.
use ushbooknpay.Base.{
  ℕ, zero, suc, ◌+◌, ◌*◌, ◌≤◌, ◌<◌, ◌≡◌, ◌↔◌, true, false, some, List, [], ◌∷◌, arith, get_elem?,
}
use ushbooknpay.Availability.Intervals.{Interval, contains, covers, IsSeparated}
use ushbooknpay.Availability.Blocks.{TimeBlock, minutes, slots_needed, generate_closed_blocks}
use ushbooknpay.Availability.Blocks.Available.{FreeThroughout}
use ushbooknpay.Availability.Blocks.Generate.{
  block_start, generate_blocks-is_available, closed_block, needed_pos,
}
use ushbooknpay.Availability.Engine.{
  Engine, DayAvailability, TherapistScheduleInput, effective_working, free_intervals, day_blocks,
  compute_day,
}
use ushbooknpay.Availability.Engine.Safety.{
  IsProperInput, works_at, busy_at, covers-free_intervals, free_intervals-IsSeparated,
  free_within_working,
}

-- The time that a service takes up in slots.
abbrev pub span : Engine → ℕ
span e = slots_needed e.duration e.slot * minutes e.slot

abbrev engine : ℕ → ℕ → ℕ → Engine
engine d s h = record { duration = d; slot = s; home_buffer = h }

-- What the blocks of a day have to do with its free time.
abbrev IsRight : Engine → List Interval → Interval → TimeBlock → Type 0
IsRight e free window b =
    (window.start ≤ b.start)
    × ((b.is_available ≡ true)
        ↔ ((b.start + span e ≤ window.end) × FreeThroughout free b.start (b.start + span e)))

span_pos : (duration m buffer : ℕ) → 0 < span (engine duration (suc m) buffer)
span_pos duration m buffer =
    let n = slots_needed duration (suc m) in
    let h : 0 < n = needed_pos [] m 0 0 duration in grind arith

day_blocks-IsRight :
    (duration slot buffer : ℕ) (working free : List Interval) (window : Interval)
    (bs : List TimeBlock) (i : ℕ) (b : TimeBlock)
    → 0 < slot
    → IsSeparated free
    → ((t : ℕ) → covers free t ≡ true → covers working t ≡ true)
    → day_blocks (engine duration slot buffer) working free window ≡ some bs
    → get_elem? bs i ≡ some b
    → IsRight (engine duration slot buffer) free window b
unfolding day_blocks
day_blocks-IsRight duration zero buffer working free window bs i b p s c g q = absurd (omega arith)
day_blocks-IsRight duration (suc m) buffer [] free window bs i b p s c g q =
    let closed = generate_closed_blocks window.start window.end (suc m) in
    let same : closed ≡ bs = cc in
    let facts = closed_block window.start window.end m i b (rw same q) in
    (
      facts.2,
      (
        λ h. cc (facts.0),
        λ f. cc (c b.start (f.1 b.start (omega arith) (omega (arith, span_pos duration m buffer)))),
      ),
    )
day_blocks-IsRight duration (suc m) buffer (w ∷ ws) free window bs i b p s c g q = (
  block_start free m window.start window.end duration bs i b g q,
  generate_blocks-is_available free m window.start window.end duration bs i b s g q,
)

contains_within :
    (window : Interval) (t : ℕ) → window.start ≤ t → t < window.end → contains t window ≡ true
contains_within window t h k = ground arith

-- A day holds the blocks made of its working and its free time.
compute_day-blocks :
    (e : Engine) (th : TherapistScheduleInput) (d opening closing : ℕ) (window : Interval)
    (day : DayAvailability)
    → compute_day e th d opening closing window ≡ some day
    → day_blocks e (effective_working th window) (free_intervals th window) window ≡ some day.blocks
unfolding compute_day
compute_day-blocks e th d opening closing window day g = ground arith

-- In the day that the engine computes, a block is available exactly if the slots that the service
-- needs end by the closing, and at every instant of them the therapist works and is neither on
-- leave nor booked, at a branch or a home, nor held.
pub compute_day-is_available :
    (e : Engine) (th : TherapistScheduleInput) (d opening closing : ℕ) (window : Interval)
    (day : DayAvailability) (i : ℕ) (b : TimeBlock)
    → 0 < e.slot
    → IsProperInput th
    → compute_day e th d opening closing window ≡ some day
    → get_elem? day.blocks i ≡ some b
    → (b.is_available ≡ true) ↔ (
        (b.start + span e ≤ window.end)
        × ((t : ℕ)
            → b.start ≤ t
            → t < b.start + span e
            → (works_at th t ≡ true) × (busy_at th t ≡ false)))
compute_day-is_available e th d opening closing window day i b p proper g q =
    let free = free_intervals th window in
    let (first, right) =
      day_blocks-IsRight e.duration e.slot e.home_buffer (effective_working th window) free window
        day.blocks i b p (free_intervals-IsSeparated th window proper)
        (free_within_working th window proper)
        (compute_day-blocks e th d opening closing window day g) q in
    let at = λ (t : ℕ) (h : window.start ≤ t) (k : t < window.end).
      covers-free_intervals th window proper t (contains_within window t h k) in
    (
      λ h.
          let (ends, open_all) = right.0 h in
          (ends, λ t a z. ground (arith, at t (omega arith) (omega arith), open_all t a z)),
      λ h.
          right.1
            (h.0, λ t a z. ground (arith, at t (omega arith) (omega (arith, h.0)), h.1 t a z)),
    )
