-- ===== src/Availability/Intersect.antt =====
-- `intersect_intervals` of app/availability/domain/interval_engine.py, and the clipping of
-- `_intersect_with_window` in app/availability/domain/engine.py.
use native.Mathlib.Decide.{dec_lt}
use ushbooknpay.Base.{
  ℕ, min, max, ◌≤◌, ◌<◌, ◌≡◌, refl, Bool, true, false, ◌&&◌, ◌||◌, List, [], ◌∷◌, arith, ltb,
  if◌then◌else◌,
}
use ushbooknpay.Availability.Intervals.{
  Interval, interval, contains, covers, covers-Follows, Follows, Follows-weaken,
  Follows-IsSeparated, IsSeparated,
}

abbrev common : Interval → Interval → Interval
common a b = interval (max a.start b.start) (min a.end b.end)

abbrev if_proper : Interval → List Interval → List Interval
if_proper iv rest = if ltb iv.start iv.end then iv ∷ rest else rest

-- Each round moves one of the two indices, so it drops the head of one of the lists.
unfoldable pub intersect_intervals : List Interval → List Interval → List Interval
intersect_intervals [] b = []
intersect_intervals (x ∷ a) [] = []
intersect_intervals (x ∷ a) (y ∷ b) = if_proper (common x y) (elim (ltb x.end y.end) [
  | true ↦ intersect_intervals a (y ∷ b)
  | false ↦ intersect_intervals (x ∷ a) b
])

unfoldable pub intersect_with_window : List Interval → Interval → List Interval
intersect_with_window [] window = []
intersect_with_window (iv ∷ ivs) window =
    if_proper (common iv window) (intersect_with_window ivs window)

covers-if_proper :
    (iv : Interval) (rest : List Interval) (t : ℕ)
    → covers (if_proper iv rest) t ≡ (contains t iv || covers rest t)
covers-if_proper iv rest t = ground arith

-- One round at an instant `t`, where `ca`, `cb` and `r` say whether the two tails and the result of
-- the later rounds cover `t`: the interval that ends first meets nothing later in the other list.
round_left :
    (x y : Interval) (t : ℕ) (ca cb r : Bool)
    → x.end < y.end
    → (t ≤ x.end → ca ≡ false)
    → (t ≤ y.end → cb ≡ false)
    → r ≡ (ca && (contains t y || cb))
    → (contains t (common x y) || r) ≡ ((contains t x || ca) && (contains t y || cb))
round_left x y t ca cb r h f g e = ground arith

round_right :
    (x y : Interval) (t : ℕ) (ca cb r : Bool)
    → y.end ≤ x.end
    → (t ≤ x.end → ca ≡ false)
    → (t ≤ y.end → cb ≡ false)
    → r ≡ ((contains t x || ca) && cb)
    → (contains t (common x y) || r) ≡ ((contains t x || ca) && (contains t y || cb))
round_right x y t ca cb r h f g e = ground arith

module _ (x y : Interval) (a b : List Interval) where
  intersect_left :
      x.end < y.end
      → intersect_intervals (x ∷ a) (y ∷ b) ≡ if_proper (common x y) (intersect_intervals a (y ∷ b))
  unfolding intersect_intervals
  intersect_left h = ground arith

  intersect_right :
      y.end ≤ x.end
      → intersect_intervals (x ∷ a) (y ∷ b) ≡ if_proper (common x y) (intersect_intervals (x ∷ a) b)
  unfolding intersect_intervals
  intersect_right h = ground arith

-- Between merged lists, the intersection covers exactly the instants that both lists cover.
pub covers-intersect_intervals :
    (a b : List Interval) (t : ℕ)
    → IsSeparated a
    → IsSeparated b
    → covers (intersect_intervals a b) t ≡ (covers a t && covers b t)
covers-intersect_intervals [] b t f g = unfold intersect_intervals in refl
covers-intersect_intervals (x ∷ a) [] t f g = unfold intersect_intervals in ground arith
covers-intersect_intervals (x ∷ a) (y ∷ b) t f g = elim (dec_lt x.end y.end) [
  | yes h ↦
      rw (intersect_left x y a b h, covers-if_proper)
        (round_left x y t (covers a t) (covers b t) (covers (intersect_intervals a (y ∷ b)) t) h
          (λ le. covers-Follows x.end a t f.1 le) (λ le. covers-Follows y.end b t g.1 le)
          (covers-intersect_intervals a (y ∷ b) t (Follows-IsSeparated x.end a f.1) g))
  | no h ↦
      rw (intersect_right x y a b (omega arith), covers-if_proper)
        (round_right x y t (covers a t) (covers b t) (covers (intersect_intervals (x ∷ a) b) t)
          (omega arith) (λ le. covers-Follows x.end a t f.1 le)
          (λ le. covers-Follows y.end b t g.1 le)
          (covers-intersect_intervals (x ∷ a) b t f (Follows-IsSeparated y.end b g.1)))
]

-- Clipping to a window covers exactly the instants of the list that lie in the window.
pub covers-intersect_with_window :
    (ivs : List Interval) (window : Interval) (t : ℕ)
    → covers (intersect_with_window ivs window) t ≡ (covers ivs t && contains t window)
unfolding intersect_with_window
covers-intersect_with_window [] window t = refl
covers-intersect_with_window (iv ∷ ivs) window t =
    ground (arith, covers-intersect_with_window ivs window t)

intersect_with_window-Follows :
    (a : ℕ) (ivs : List Interval) (window : Interval)
    → Follows a ivs
    → Follows a (intersect_with_window ivs window)
unfolding intersect_with_window
intersect_with_window-Follows a [] window h = tt
intersect_with_window-Follows a (iv ∷ ivs) window h =
    let rest = intersect_with_window ivs window in
    let ih = intersect_with_window-Follows iv.end ivs window h.2 in
    ground (
      arith,
      Follows-weaken iv.end a rest (omega arith) ih,
      Follows-weaken iv.end (min iv.end window.end) rest (omega arith) ih,
    )

-- Clipping a merged list to a window leaves a merged list.
pub intersect_with_window-IsSeparated :
    (ivs : List Interval) (window : Interval)
    → IsSeparated ivs
    → IsSeparated (intersect_with_window ivs window)
unfolding intersect_with_window
intersect_with_window-IsSeparated [] window h = tt
intersect_with_window-IsSeparated (iv ∷ ivs) window h =
    let rest = intersect_with_window ivs window in
    let ih = intersect_with_window-Follows iv.end ivs window h.1 in
    ground (
      arith,
      Follows-IsSeparated iv.end rest ih,
      Follows-weaken iv.end (min iv.end window.end) rest (omega arith) ih,
    )
