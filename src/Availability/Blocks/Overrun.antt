-- ===== src/Availability/Blocks/Overrun.antt =====
-- The number of slots needed is the service's duration rounded down to whole slots.
use ushbooknpay.Base.{ℕ, suc, ◌+◌, ◌*◌, ◌≤◌, ◌<◌, ◌≡◌, true, some, List, [], ◌∷◌, arith, get_elem?}
use ushbooknpay.Availability.Intervals.{interval}
use ushbooknpay.Availability.Blocks.{TimeBlock, minutes, slots_needed, generate_blocks}
use ushbooknpay.Availability.Blocks.Available.{FreeThroughout}
use ushbooknpay.Availability.Blocks.Generate.{
  generate_blocks-slots, generate_blocks-is_available, needed_pos,
}

-- Where a service lasts longer than the whole slots counted for it, a day whose only free time is
-- those slots offers its first block as available, although the service would run on into time
-- that is not free.
pub generate_blocks-overrun :
    (m opens closes duration : ℕ) (blocks : List TimeBlock) (b : TimeBlock)
    → let span = slots_needed duration (suc m) * minutes (suc m) in
      let free = interval opens (opens + span) ∷ [] in
      slots_needed duration (suc m) * suc m < duration
      → opens + span ≤ closes
      → generate_blocks free (suc m) opens closes duration ≡ some blocks
      → get_elem? blocks 0 ≡ some b
      → (b.is_available ≡ true) × (¬ FreeThroughout free b.start (b.start + minutes duration))
generate_blocks-overrun m opens closes duration blocks b short fits g e =
    let n = slots_needed duration (suc m) in
    let span = n * minutes (suc m) in
    let free = interval opens (opens + span) ∷ [] in
    let pos : 0 < n = needed_pos free m opens closes duration in
    let some_time : 0 < span = grind arith in
    let longer : span < minutes duration = grind arith in
    let at : b.start ≡ opens =
      ground (arith, generate_blocks-slots free m opens closes duration blocks 0 g) in
    (
      (generate_blocks-is_available free m opens closes duration blocks 0 b (omega arith, tt) g e).1
          (omega arith, λ t p q. ground arith),
      λ all. ground (arith, all (opens + span) (omega arith) (omega arith)),
    )
