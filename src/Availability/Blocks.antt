-- ===== src/Availability/Blocks.antt =====
-- `generate_blocks` of app/availability/domain/interval_engine.py, `_generate_closed_blocks` of
-- engine.py, and the block types of value_objects.py.
pub mod Slots
pub mod Available
pub mod Generate
pub mod Overrun
use Prim.Native.String.{String}
use ushbooknpay.Base.{
  ℕ, zero, suc, ◌+◌, ◌-◌, ◌*◌, ◌/◌, max, Bool, true, false, ◌&&◌, ◌||◌, Option, none, some, List,
  [], ◌∷◌, map, ltb, leb, any, get_elem?, if◌then◌else◌,
}
use ushbooknpay.Availability.Intervals.{Interval}

pub data BlockType : Type 0 where
  available booking home_booking leave : BlockType
  outside_working_hours outside_branch_hours temporary_hold : BlockType

pub record TimeBlock : Type 0 where
  pub start : ℕ
  pub end : ℕ
  pub is_available : Bool
  pub blocking_type : BlockType
  pub booking_id : Option String
  pub resource_type : Option String

-- `timedelta(minutes=n)`
abbrev pub minutes : ℕ → ℕ
minutes n = n * 60000000

-- The first `while`, from `start` on. A slot takes at least an instant, so a day's length is fuel
-- enough.
unfoldable pub slot_starts : ℕ → ℕ → ℕ → ℕ → List ℕ
slot_starts zero slot close start = []
slot_starts (suc fuel) slot close start = elim (leb (start + slot) close) [
  | true ↦ start ∷ slot_starts fuel slot close (start + slot)
  | false ↦ []
]

abbrev pub fuel_for : ℕ → ℕ → ℕ
fuel_for opens closes = suc closes - opens

-- `iv.start <= ss and iv.end >= slot_end` for some free interval
abbrev pub is_free : List Interval → ℕ → ℕ → Bool
is_free free slot ss = any (λ iv. leb iv.start ss && leb (ss + slot) iv.end) free

-- `idx in free_set`, for the set of the indices whose slot is free
abbrev pub in_free_set : List Interval → ℕ → List ℕ → ℕ → Bool
in_free_set free slot starts idx = elim (get_elem? starts idx) [
  | none ↦ false
  | some ss ↦ is_free free slot ss
]

-- `all(p(k) for k in range(n))`
abbrev pub all_range : ℕ → (ℕ → Bool) → Bool
all_range zero p = true
all_range (suc n) p = all_range n p && p n

unfoldable pub slots_needed : ℕ → ℕ → ℕ
slots_needed service_duration_minutes slot_minutes = max 1 (service_duration_minutes / slot_minutes)

unfoldable pub classify_blocking_reason : ℕ → ℕ → ℕ → ℕ → BlockType
classify_blocking_reason slot_start slot_end branch_open branch_close =
    if ltb slot_start branch_open || ltb branch_close slot_end
    then outside_branch_hours
    else booking

-- A block for the slot `idx` that starts at `ss`.
unfoldable pub make_block : ℕ → ℕ → Bool → BlockType → TimeBlock
make_block ss slot ok reason = record {
  start = ss;
  end = ss + slot;
  is_available = ok;
  blocking_type = if ok then available else reason;
  booking_id = none;
  resource_type = none;
}

module _ (free : List Interval) (slot needed opens closes : ℕ) (starts : List ℕ) where
  unfoldable pub block_at : ℕ → ℕ → TimeBlock
  unfolding classify_blocking_reason make_block
  block_at idx ss =
      make_block ss slot (all_range needed (λ k. in_free_set free slot starts (idx + k)))
        (classify_blocking_reason ss (ss + slot) opens closes)

  -- The second loop over `enumerate(all_slot_starts)`, from the index `idx` on.
  unfoldable pub blocks_from : ℕ → List ℕ → List TimeBlock
  unfolding block_at
  blocks_from idx [] = []
  blocks_from idx (ss ∷ rest) = block_at idx ss ∷ blocks_from (suc idx) rest

-- `none` is the ZeroDivisionError of `service_duration_minutes // slot_minutes`.
unfoldable pub generate_blocks : List Interval → ℕ → ℕ → ℕ → ℕ → Option (List TimeBlock)
unfolding slot_starts slots_needed blocks_from
generate_blocks free zero opens closes duration = none
generate_blocks free (suc m) opens closes duration =
    let slot = minutes (suc m) in
    let starts = slot_starts (fuel_for opens closes) slot closes opens in
    some (blocks_from free slot (slots_needed duration (suc m)) opens closes starts 0 starts)

-- The blocks of a day without working time; the loop is that of `generate_blocks`. The slot is
-- positive: with one of 0 minutes the source's loop does not end.
unfoldable pub generate_closed_blocks : ℕ → ℕ → ℕ → List TimeBlock
unfolding slot_starts make_block
generate_closed_blocks opens closes slot_minutes =
    let slot = minutes slot_minutes in
    map (λ ss. make_block ss slot false outside_working_hours)
      (slot_starts (fuel_for opens closes) slot closes opens)
