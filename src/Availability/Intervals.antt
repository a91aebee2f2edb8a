-- ===== src/Availability/Intervals.antt =====
-- `Interval` of app/availability/domain/value_objects.py. A datetime is the number of microseconds
-- since year 1, which Python's aware datetimes are ordered by.
use ushbooknpay.Base.{
  ℕ, ◌≤◌, ◌<◌, ◌≡◌, refl, Bool, true, false, ◌&&◌, List, [], ◌∷◌, arith, ltb, leb, any,
}

pub record Interval : Type 0 where
  pub start : ℕ
  pub end : ℕ

abbrev pub interval : ℕ → ℕ → Interval
interval s e = record { start = s; end = e }

-- the half-open reading `[start, end)`
abbrev pub contains : ℕ → Interval → Bool
contains t iv = leb iv.start t && ltb t iv.end

abbrev pub covers : List Interval → ℕ → Bool
covers ivs t = any (contains t) ivs

unfoldable pub overlaps : Interval → Interval → Bool
overlaps iv other = ltb iv.start other.end && ltb other.start iv.end

abbrev pub IsProper : Interval → Type 0
IsProper iv = iv.start < iv.end

-- Proper intervals in order, with a gap before each, that start after `a`.
abbrev pub Follows : ℕ → List Interval → Type 0
Follows a [] = Unit
Follows a (iv ∷ rest) = (a < iv.start) × IsProper iv × Follows iv.end rest

-- A merged list: proper intervals in order, neither overlapping nor adjacent.
abbrev pub IsSeparated : List Interval → Type 0
IsSeparated [] = Unit
IsSeparated (iv ∷ rest) = IsProper iv × Follows iv.end rest

pub covers-Follows :
    (a : ℕ) (ivs : List Interval) (t : ℕ) → Follows a ivs → t ≤ a → covers ivs t ≡ false
covers-Follows a [] t h le = refl
covers-Follows a (iv ∷ rest) t h le = ground (arith, covers-Follows iv.end rest t h.2)

pub Follows-weaken : (a b : ℕ) (ivs : List Interval) → b ≤ a → Follows a ivs → Follows b ivs
Follows-weaken a b [] le h = tt
Follows-weaken a b (iv ∷ rest) le h = (omega arith, h.1, h.2)

pub Follows-IsSeparated : (a : ℕ) (ivs : List Interval) → Follows a ivs → IsSeparated ivs
Follows-IsSeparated a [] h = tt
Follows-IsSeparated a (iv ∷ rest) h = (h.1, h.2)

-- Two intervals overlap when they share an instant.
pub overlaps_of_contains :
    (a b : Interval) (t : ℕ) → contains t a ≡ true → contains t b ≡ true → overlaps a b ≡ true
unfolding overlaps
overlaps_of_contains a b t h k = ground arith
