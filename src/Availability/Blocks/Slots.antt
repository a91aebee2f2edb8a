-- ===== src/Availability/Blocks/Slots.antt =====
-- The slots of a day: the loop ends by its own test, with exactly the slots that fit.
use ushbooknpay.Base.{
  ℕ, zero, suc, ◌+◌, ◌*◌, ◌<◌, ◌≡◌, none, some, arith, leb, get_elem?, if◌then◌else◌,
}
use ushbooknpay.Availability.Blocks.{slot_starts, fuel_for}

-- The `i`-th slot starts `i` slots after the opening, and is there exactly if it ends by the closing.
slot_starts_lem :
    (fuel slot close start i : ℕ)
    → 0 < slot
    → close < start + fuel
    → get_elem? (slot_starts fuel slot close start) i
      ≡ (if leb (start + i * slot + slot) close then some (start + i * slot) else none)
unfolding slot_starts
slot_starts_lem zero slot close start i p h = ground arith
slot_starts_lem (suc fuel) slot close start zero p h = ground arith
slot_starts_lem (suc fuel) slot close start (suc i) p h =
    ground (arith, slot_starts_lem fuel slot close (start + slot) i p)

-- The day's slots: the one at index `i` starts `i` slots after the opening, and there is one
-- exactly if it ends by the closing.
pub slot_starts-get_elem? :
    (slot opens closes i : ℕ)
    → 0 < slot
    → get_elem? (slot_starts (fuel_for opens closes) slot closes opens) i
      ≡ (if leb (opens + i * slot + slot) closes then some (opens + i * slot) else none)
slot_starts-get_elem? slot opens closes i p =
    slot_starts_lem (fuel_for opens closes) slot closes opens i p (omega arith)
