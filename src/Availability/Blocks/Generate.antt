-- ===== src/Availability/Blocks/Generate.antt =====
-- What the list of blocks of a day says.
use mathlib.Core.Option
use mathlib.Core.Path.{subst}
use ushbooknpay.Base.{
  ℕ, zero, suc, ◌+◌, ◌*◌, ◌≤◌, ◌<◌, ◌≡◌, refl, ◌↔◌, true, false, none, some, List, [], ◌∷◌, arith,
  leb, get_elem?, map, if◌then◌else◌, sym,
}
use ushbooknpay.Availability.Intervals.{Interval, IsSeparated}
use ushbooknpay.Availability.Blocks.{
  TimeBlock, booking, minutes, slot_starts, fuel_for, slots_needed, block_at, generate_blocks,
  generate_closed_blocks, outside_working_hours, make_block, classify_blocking_reason,
}
use ushbooknpay.Availability.Blocks.Slots.{slot_starts-get_elem?}
use ushbooknpay.Availability.Blocks.Available.{FreeThroughout, all_free_iff, get_elem?-blocks_from}

module _ (free : List Interval) (m opens closes duration : ℕ) where
  abbrev slot : ℕ
  slot = minutes (suc m)

  abbrev needed : ℕ
  needed = slots_needed duration (suc m)

  abbrev starts : List ℕ
  starts = slot_starts (fuel_for opens closes) slot closes opens

  -- The block at an index is the one made for the slot of that index.
  block_lem :
      (blocks : List TimeBlock) (i : ℕ) (b : TimeBlock)
      → generate_blocks free (suc m) opens closes duration ≡ some blocks
      → get_elem? blocks i ≡ some b
      → (opens + i * slot + slot ≤ closes)
        × (b ≡ block_at free slot needed opens closes starts i (opens + i * slot))
  unfolding generate_blocks
  block_lem blocks i b g e = ground (
    arith,
    get_elem?-blocks_from free slot needed opens closes starts 0 starts i,
    slot_starts-get_elem? slot opens closes i,
  )

  pub block_start :
      (blocks : List TimeBlock) (i : ℕ) (b : TimeBlock)
      → generate_blocks free (suc m) opens closes duration ≡ some blocks
      → get_elem? blocks i ≡ some b
      → opens ≤ b.start
  unfolding block_at make_block
  block_start blocks i b g e = ground (arith, block_lem blocks i b g e)

  -- Every slot of the day that ends by the closing has its block, in order, and there are no others:
  -- the block at index `i` lasts one slot and starts `i` slots after the opening.
  pub generate_blocks-slots :
      (blocks : List TimeBlock) (i : ℕ)
      → generate_blocks free (suc m) opens closes duration ≡ some blocks
      → Option.map {B = ℕ × ℕ} (λ b. (b.start, b.end)) (get_elem? blocks i) ≡ (
          if leb (opens + i * slot + slot) closes
          then some (opens + i * slot, opens + i * slot + slot)
          else none)
  unfolding generate_blocks block_at make_block
  generate_blocks-slots blocks i g = ground (
    arith,
    get_elem?-blocks_from free slot needed opens closes starts 0 starts i,
    slot_starts-get_elem? slot opens closes i,
  )

  pub needed_pos : 0 < needed
  unfolding slots_needed
  needed_pos = omega arith

  block_at-is_available :
      (i : ℕ)
      → IsSeparated free
      → let b = block_at free slot needed opens closes starts i (opens + i * slot) in
        (b.is_available ≡ true) ↔ (
          (b.start + needed * slot ≤ closes)
          × FreeThroughout free b.start (b.start + needed * slot))
  unfolding block_at make_block
  block_at-is_available i s =
      let e : opens + (i + needed) * slot ≡ opens + i * slot + needed * slot = grind arith in
      rw e at (
        all_free_iff free slot opens closes starts (omega arith) s
          (λ j. slot_starts-get_elem? slot opens closes j (omega arith)) i needed needed_pos)

  -- Over a merged list of free time, a block is available exactly if the slots that the service
  -- needs, from this block on, end by the closing and every instant of them is free.
  pub generate_blocks-is_available :
      (blocks : List TimeBlock) (i : ℕ) (b : TimeBlock)
      → IsSeparated free
      → generate_blocks free (suc m) opens closes duration ≡ some blocks
      → get_elem? blocks i ≡ some b
      → (b.is_available ≡ true) ↔ (
          (b.start + needed * slot ≤ closes)
          × FreeThroughout free b.start (b.start + needed * slot))
  generate_blocks-is_available blocks i b s g e =
      subst
        (λ c. (c.is_available ≡ true) ↔ (
          (c.start + needed * slot ≤ closes)
          × FreeThroughout free c.start (c.start + needed * slot)))
        (sym (block_lem blocks i b g e).1) (block_at-is_available i s)

  -- Every block that is not available is labelled as a booking, whatever blocks it.
  pub generate_blocks-reason :
      (blocks : List TimeBlock) (i : ℕ) (b : TimeBlock)
      → generate_blocks free (suc m) opens closes duration ≡ some blocks
      → get_elem? blocks i ≡ some b
      → b.is_available ≡ false
      → b.blocking_type ≡ booking
  unfolding block_at classify_blocking_reason make_block
  generate_blocks-reason blocks i b g e h = ground (arith, block_lem blocks i b g e)

get_elem?-map :
    (f : ℕ → TimeBlock) (l : List ℕ) (i : ℕ) → get_elem? (map f l) i ≡ Option.map f (get_elem? l i)
get_elem?-map f [] i = refl
get_elem?-map f (x ∷ xs) zero = refl
get_elem?-map f (x ∷ xs) (suc i) = get_elem?-map f xs i

-- No block of a closed day is available; the reason is that it lies outside the working hours.
pub closed_block :
    (opens closes m i : ℕ) (b : TimeBlock)
    → get_elem? (generate_closed_blocks opens closes (suc m)) i ≡ some b
    → (b.is_available ≡ false)
      × (b.blocking_type ≡ outside_working_hours)
      × (opens ≤ b.start)
      × (b.start < closes)
unfolding generate_closed_blocks make_block
closed_block opens closes m i b e = ground (
  arith,
  get_elem?-map (λ (ss : ℕ). make_block ss (minutes (suc m)) false outside_working_hours)
      (slot_starts (fuel_for opens closes) (minutes (suc m)) closes opens) i,
  slot_starts-get_elem? (minutes (suc m)) opens closes i,
)
