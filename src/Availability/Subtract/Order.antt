-- ===== src/Availability/Subtract/Order.antt =====
-- The free intervals that `subtract_intervals` returns are again a merged list.
use mathlib.Core.List.{append_assoc}
use ushbooknpay.Base.{ℕ, ◌≡◌, ◌≤◌, ◌<◌, List, [], ◌∷◌, ◌++◌, arith}
use ushbooknpay.Availability.Intervals.{
  Interval, IsProper, Follows, Follows-IsSeparated, IsSeparated,
}
use ushbooknpay.Availability.Subtract.{
  Cut, cut, gap, prepend, cut-rounds, tail_gap, subtract_from, subtract_intervals, cut-IsSeparated,
}

-- Proper intervals in order, with gaps between them, none of which starts before `a`.
abbrev StartsAt : ℕ → List Interval → Type 0
StartsAt a [] = Unit
StartsAt a (iv ∷ rest) = (a ≤ iv.start) × IsProper iv × Follows iv.end rest

StartsAt-Follows : (a b : ℕ) (ivs : List Interval) → a < b → StartsAt b ivs → Follows a ivs
StartsAt-Follows a b [] lt h = tt
StartsAt-Follows a b (iv ∷ rest) lt h = (omega arith, h.1, h.2)

StartsAt-IsSeparated : (a : ℕ) (ivs : List Interval) → StartsAt a ivs → IsSeparated ivs
StartsAt-IsSeparated a [] h = tt
StartsAt-IsSeparated a (iv ∷ rest) h = (h.1, h.2)

StartsAt-weaken : (a b : ℕ) (ivs : List Interval) → a ≤ b → StartsAt b ivs → StartsAt a ivs
StartsAt-weaken a b [] le h = tt
StartsAt-weaken a b (iv ∷ rest) le h = (omega arith, h.1, h.2)

Follows-StartsAt : (a b : ℕ) (ivs : List Interval) → b ≤ a → Follows a ivs → StartsAt b ivs
Follows-StartsAt a b [] le h = tt
Follows-StartsAt a b (iv ∷ rest) le h = (omega arith, h.1, h.2)

abbrev assembled : Interval → Cut → List Interval → List Interval
assembled w c rest = (c.pieces ++ tail_gap w c.current_start) ++ rest

-- With no block left in the working interval, the rest of it is one piece.
last_piece :
    (w : Interval) (cur : ℕ) (rest : List Interval)
    → cur ≤ w.end
    → Follows w.end rest
    → StartsAt cur (tail_gap w cur ++ rest)
last_piece w cur rest le f = ground (arith, Follows-StartsAt w.end cur rest)

piece_before :
    (w : Interval) (cur : ℕ) (b : Interval) (e : ℕ) (ivs : List Interval)
    → b.start < w.end
    → b.start < e
    → cur ≤ e
    → StartsAt e ivs
    → StartsAt cur (gap w cur b ++ ivs)
piece_before w cur b e ivs h k le s =
    ground (arith, StartsAt-Follows b.start e ivs, StartsAt-weaken cur e ivs)

assembled-prepend :
    (w : Interval) (g : List Interval) (c : Cut) (rest : List Interval)
    → assembled w (prepend g c) rest ≡ g ++ assembled w c rest
assembled-prepend w g c rest = simp append_assoc

cut-StartsAt :
    (w : Interval) (cur : ℕ) (bs rest : List Interval)
    → cur ≤ w.end
    → IsSeparated bs
    → Follows w.end rest
    → StartsAt cur (assembled w (cut w cur bs) rest)
cut-StartsAt w cur [] rest le h f = unfold cut in last_piece w cur rest le f
cut-StartsAt w cur (b ∷ bs) rest le h f =
    let later = Follows-IsSeparated b.end bs h.1 in
    cut-rounds w cur b bs (λ k. StartsAt cur (assembled w k rest)) (λ p. last_piece w cur rest le f)
      (λ p q. cut-StartsAt w cur bs rest le later f)
      (λ p q r. ground (
        arith,
        piece_before w cur b w.end rest p p le (Follows-StartsAt w.end w.end rest (omega arith) f),
      ))
      (λ p q r. rw (assembled-prepend w (gap w cur b) (cut w b.end bs) rest) (
        piece_before w cur b b.end (assembled w (cut w b.end bs) rest) p h.0 (omega arith)
          (cut-StartsAt w b.end bs rest (omega arith) later f)))

subtract_from-Follows :
    (a : ℕ) (ws bs : List Interval)
    → Follows a ws
    → IsSeparated bs
    → Follows a (subtract_from ws bs)
unfolding subtract_from
subtract_from-Follows a [] bs f h = tt
subtract_from-Follows a (w ∷ ws) bs f h =
    let c : Cut = cut w w.start bs in
    let rest : List Interval = subtract_from ws c.remaining in
    StartsAt-Follows a w.start (assembled w c rest) f.0 (
      cut-StartsAt w w.start bs rest (omega arith) h
        (subtract_from-Follows w.end ws c.remaining f.2 (cut-IsSeparated w w.start bs h)))

subtract_from-IsSeparated :
    (ws bs : List Interval) → IsSeparated ws → IsSeparated bs → IsSeparated (subtract_from ws bs)
unfolding subtract_from
subtract_from-IsSeparated [] bs f h = tt
subtract_from-IsSeparated (w ∷ ws) bs f h =
    let c : Cut = cut w w.start bs in
    let rest : List Interval = subtract_from ws c.remaining in
    StartsAt-IsSeparated w.start (assembled w c rest) (
      cut-StartsAt w w.start bs rest (omega arith) h
        (subtract_from-Follows w.end ws c.remaining f.1 (cut-IsSeparated w w.start bs h)))

-- Subtracting one merged list from another leaves a merged list: proper intervals in order, with
-- a gap between any two.
pub subtract_intervals-IsSeparated :
    (working blocked : List Interval)
    → IsSeparated working
    → IsSeparated blocked
    → IsSeparated (subtract_intervals working blocked)
unfolding subtract_intervals
subtract_intervals-IsSeparated working [] f h = f
subtract_intervals-IsSeparated working (b ∷ bs) f h = subtract_from-IsSeparated working (b ∷ bs) f h
