-- ===== src/Availability/Merge.antt =====
-- `merge_intervals` of app/availability/domain/interval_engine.py.
use ushbooknpay.Base.{
  ℕ, max, ◌≤◌, ◌<◌, ◌≡◌, refl, ◌∙◌, true, false, ◌||◌, List, [], ◌∷◌, arith, leb, All,
}
use ushbooknpay.Base.Sorting.{IsSorted, sort_by, sort_by-IsSorted, any-sort_by, All-sort_by}
use ushbooknpay.Availability.Intervals.{
  Interval, interval, contains, covers, IsProper, Follows, IsSeparated,
}

abbrev starting : Interval → ℕ
starting iv = iv.start

-- The loop: `last` is `merged[-1]`, and what stands before it no longer changes.
unfoldable pub sweep : Interval → List Interval → List Interval
sweep last [] = last ∷ []
sweep last (current ∷ rest) = elim (leb current.start last.end) [
  | true ↦ sweep (interval last.start (max last.end current.end)) rest
  | false ↦ last ∷ sweep current rest
]

merge_sorted : List Interval → List Interval
merge_sorted [] = []
merge_sorted (first ∷ rest) = sweep first rest

unfoldable pub merge_intervals : List Interval → List Interval
unfolding merge_sorted
merge_intervals intervals = merge_sorted (sort_by starting intervals)

covers-sweep :
    (last : Interval) (rest : List Interval) (t : ℕ)
    → All (λ iv. last.start ≤ iv.start) rest
    → IsSorted starting rest
    → covers (sweep last rest) t ≡ (contains t last || covers rest t)
unfolding sweep
covers-sweep last [] t h s = refl
covers-sweep last (c ∷ rest) t h s = ground (
  arith,
  covers-sweep (interval last.start (max last.end c.end)) rest t h.1 s.1,
  covers-sweep c rest t s.0 s.1,
)

covers-merge_sorted :
    (ivs : List Interval) (t : ℕ)
    → IsSorted starting ivs
    → covers (merge_sorted ivs) t ≡ covers ivs t
unfolding merge_sorted
covers-merge_sorted [] t s = refl
covers-merge_sorted (first ∷ rest) t s = covers-sweep first rest t s.0 s.1

-- Merging covers exactly the instants that the given intervals cover, in whatever order they come
-- and whether or not they overlap.
pub covers-merge_intervals :
    (ivs : List Interval) (t : ℕ) → covers (merge_intervals ivs) t ≡ covers ivs t
unfolding merge_intervals
covers-merge_intervals ivs t =
    covers-merge_sorted (sort_by starting ivs) t (sort_by-IsSorted starting ivs)
    ∙ any-sort_by starting (contains t) ivs

sweep-Follows :
    (a : ℕ) (last : Interval) (rest : List Interval)
    → a < last.start
    → IsProper last
    → All IsProper rest
    → Follows a (sweep last rest)
unfolding sweep
sweep-Follows a last [] h p q = (h, p, tt)
sweep-Follows a last (c ∷ rest) h p q = ground (
  arith,
  sweep-Follows a (interval last.start (max last.end c.end)) rest,
  sweep-Follows last.end c rest,
)

sweep-IsSeparated :
    (last : Interval) (rest : List Interval)
    → IsProper last
    → All IsProper rest
    → IsSeparated (sweep last rest)
unfolding sweep
sweep-IsSeparated last [] p q = (p, tt)
sweep-IsSeparated last (c ∷ rest) p q = ground (
  arith,
  sweep-IsSeparated (interval last.start (max last.end c.end)) rest,
  sweep-Follows last.end c rest,
)

merge_sorted-IsSeparated : (ivs : List Interval) → All IsProper ivs → IsSeparated (merge_sorted ivs)
unfolding merge_sorted
merge_sorted-IsSeparated [] h = tt
merge_sorted-IsSeparated (first ∷ rest) h = sweep-IsSeparated first rest h.0 h.1

-- Merging proper intervals gives proper intervals in order, with a gap between any two.
pub merge_intervals-IsSeparated :
    (ivs : List Interval) → All IsProper ivs → IsSeparated (merge_intervals ivs)
unfolding merge_intervals
merge_intervals-IsSeparated ivs h =
    merge_sorted-IsSeparated (sort_by starting ivs) (All-sort_by starting IsProper ivs h)
