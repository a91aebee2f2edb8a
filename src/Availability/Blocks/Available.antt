-- ===== src/Availability/Blocks/Available.antt =====
-- When a block is available: exactly if all the slots that the service needs are free throughout.
use ushbooknpay.Base.{
  ℕ, zero, suc, ◌+◌, ◌*◌, ◌≤◌, ◌<◌, ◌≡◌, refl, ◌↔◌, Bool, true, ◌&&◌, none, some, List, [], ◌∷◌,
  arith, leb, get_elem?, if◌then◌else◌,
}
use mathlib.Core.Option
use native.Mathlib.Nat.{add-zero, add-suc, suc-add}
use native.Mathlib.Decide.{dec_lt}
use ushbooknpay.Availability.Intervals.{
  Interval, covers, covers-Follows, Follows-IsSeparated, IsSeparated,
}
use ushbooknpay.Availability.Blocks.{is_free, in_free_set, all_range, block_at, blocks_from}

-- Every instant from `s` until `e` is free.
abbrev pub FreeThroughout : List Interval → ℕ → ℕ → Type 0
FreeThroughout free s e = (t : ℕ) → s ≤ t → t < e → covers free t ≡ true

is_free_sound :
    (free : List Interval) (slot ss t : ℕ)
    → is_free free slot ss ≡ true
    → ss ≤ t
    → t < ss + slot
    → covers free t ≡ true
is_free_sound [] slot ss t h a b = cc
is_free_sound (iv ∷ rest) slot ss t h a b = ground (arith, is_free_sound rest slot ss t)

is_free_complete :
    (free : List Interval) (slot ss : ℕ)
    → 0 < slot
    → IsSeparated free
    → FreeThroughout free ss (ss + slot)
    → is_free free slot ss ≡ true
is_free_complete [] slot ss p s h = ground (arith, h ss (omega arith) (omega arith))
is_free_complete (iv ∷ rest) slot ss p s h = elim (dec_lt ss iv.end) [
  | no past ↦ ground (
    arith,
    is_free_complete rest slot ss p (Follows-IsSeparated iv.end rest s.1)
        (λ t a b. ground (arith, h t a b)),
  )
  | yes before ↦ ground (
    arith,
    h ss (omega arith) (omega arith),
    h iv.end,
    covers-Follows iv.end rest ss s.1 (omega arith),
    covers-Follows iv.end rest iv.end s.1 (omega arith),
  )
]

-- The slots of a day that opens at `opens`, by index.
abbrev pub AreSlots : List ℕ → ℕ → ℕ → ℕ → Type 0
AreSlots starts slot opens closes =
    (i : ℕ)
    → get_elem? starts i
      ≡ (if leb (opens + i * slot + slot) closes then some (opens + i * slot) else none)

-- `n` slots from the index `idx` on lie before the closing and are free.
abbrev pub IsFit : List Interval → ℕ → ℕ → ℕ → ℕ → ℕ → Type 0
IsFit free slot opens closes idx n =
    (opens + (idx + n) * slot ≤ closes)
    × FreeThroughout free (opens + idx * slot) (opens + (idx + n) * slot)

abbrev pub all_free : List Interval → ℕ → List ℕ → ℕ → ℕ → Bool
all_free free slot starts idx n = all_range n (λ k. in_free_set free slot starts (idx + k))

module _ (free : List Interval) (slot opens closes : ℕ) (starts : List ℕ) (p : 0 < slot)
    (separated : IsSeparated free) (slots : AreSlots starts slot opens closes) where
  in_free_set_lem :
      (j : ℕ)
      → in_free_set free slot starts j
        ≡ (leb (opens + j * slot + slot) closes && is_free free slot (opens + j * slot))
  in_free_set_lem j = ground (arith, slots j)

  next_slot : (idx n : ℕ) → opens + (idx + suc n) * slot ≡ opens + (idx + n) * slot + slot
  next_slot idx n = grind arith

  one_fits :
      (idx n : ℕ)
      → in_free_set free slot starts (idx + n) ≡ true
      → (opens + (idx + suc n) * slot ≤ closes)
        × FreeThroughout free (opens + (idx + n) * slot) (opens + (idx + suc n) * slot)
  one_fits idx n h = (
    ground (arith, in_free_set_lem (idx + n), next_slot idx n),
    λ t a b.
        is_free_sound free slot (opens + (idx + n) * slot) t
          (ground (arith, in_free_set_lem (idx + n))) a (omega (arith, next_slot idx n)),
  )

  all_free_sound :
      (idx n : ℕ)
      → all_free free slot starts idx n ≡ true
      → FreeThroughout free (opens + idx * slot) (opens + (idx + n) * slot)
  all_free_sound idx zero h t a b = absurd (ground arith)
  all_free_sound idx (suc n) h t a b = elim (dec_lt t (opens + (idx + n) * slot)) [
    | yes early ↦ all_free_sound idx n (ground arith) t a early
    | no late ↦ (one_fits idx n (ground arith)).1 t (omega arith) b
  ]

  all_free_complete :
      (idx n : ℕ) → IsFit free slot opens closes idx n → all_free free slot starts idx n ≡ true
  all_free_complete idx zero h = refl
  all_free_complete idx (suc n) h =
      let within : opens + idx * slot ≤ opens + (idx + n) * slot = grind arith in
      let alone =
        is_free_complete free slot (opens + (idx + n) * slot) p separated
          (λ t a b. h.1 t (omega arith) (omega (arith, next_slot idx n))) in
      let before =
        all_free_complete idx n
          (omega (arith, next_slot idx n), λ t a b. h.1 t a (omega (arith, next_slot idx n))) in
      ground (arith, in_free_set_lem (idx + n), next_slot idx n, alone, before)

  -- With at least one slot needed, the test for availability succeeds exactly if the needed slots
  -- end by the closing and are free throughout.
  pub all_free_iff :
      (idx n : ℕ)
      → 0 < n
      → (all_free free slot starts idx n ≡ true) ↔ IsFit free slot opens closes idx n
  all_free_iff idx zero h = absurd (omega arith)
  all_free_iff idx (suc n) _ = (
    λ h. ((one_fits idx n (ground arith)).0, all_free_sound idx (suc n) h),
    all_free_complete idx (suc n),
  )

pub get_elem?-blocks_from :
    (free : List Interval) (slot needed opens closes : ℕ) (starts : List ℕ) (idx : ℕ) (l : List ℕ)
    (i : ℕ)
    → get_elem? (blocks_from free slot needed opens closes starts idx l) i
      ≡ Option.map (block_at free slot needed opens closes starts (idx + i)) (get_elem? l i)
unfolding blocks_from
get_elem?-blocks_from free slot needed opens closes starts idx [] i = refl
get_elem?-blocks_from free slot needed opens closes starts idx (ss ∷ rest) zero = rw add-zero
get_elem?-blocks_from free slot needed opens closes starts idx (ss ∷ rest) (suc i) =
    rw (
      get_elem?-blocks_from free slot needed opens closes starts (suc idx) rest i,
      add-suc,
      suc-add,
    )
