-- ===== src/Availability/Subtract.antt =====
-- `subtract_intervals` of app/availability/domain/interval_engine.py.
pub mod Exact
pub mod Order
use ushbooknpay.Base.{
  ℕ, min, max, ◌≤◌, ◌<◌, ◌≡◌, refl, Bool, true, false, not, ◌&&◌, ◌||◌, List, [], ◌∷◌, ◌++◌, arith,
  ltb, leb, if◌then◌else◌, any-append,
}
use native.Mathlib.Decide.{dec_lt}
use ushbooknpay.Availability.Intervals.{
  Interval, interval, contains, covers, covers-Follows, IsProper, Follows, Follows-weaken,
  Follows-IsSeparated, IsSeparated,
}

-- What one working interval leaves behind: the free pieces, `current_start`, and `blocked[bi:]`.
pub record Cut : Type 0 where
  pub pieces : List Interval
  pub current_start : ℕ
  pub remaining : List Interval

abbrev pub gap : Interval → ℕ → Interval → List Interval
gap w cur b = if ltb cur b.start then interval cur (min b.start w.end) ∷ [] else []

abbrev pub prepend : List Interval → Cut → Cut
prepend ps c = record c { pieces = ps ++ c.pieces }

-- The inner `while`: a round that goes on has passed `blocked[bi]`, so the rounds end with the list.
unfoldable pub cut : Interval → ℕ → List Interval → Cut
cut w cur [] = record { pieces = []; current_start = cur; remaining = [] }
cut w cur (b ∷ bs) =
    let skip = cut w cur bs in
    let next = max cur b.end in
    let on = cut w next bs in
    let stop : Cut = record { pieces = gap w cur b; current_start = next; remaining = b ∷ bs } in
    if ltb b.start w.end
    then if leb b.end cur
      then skip
      else if leb w.end next
      then stop
      else if ltb w.end b.end
      then stop
      else prepend (gap w cur b) on
    else record { pieces = []; current_start = cur; remaining = b ∷ bs }

-- The remainder of a working interval after its last block.
abbrev pub tail_gap : Interval → ℕ → List Interval
tail_gap w cur = if ltb cur w.end then interval cur w.end ∷ [] else []

-- The outer `for`, with the blocks that no earlier working interval has passed.
unfoldable pub subtract_from : List Interval → List Interval → List Interval
unfolding cut
subtract_from [] blocked = []
subtract_from (w ∷ ws) blocked =
    let c = cut w w.start blocked in
    (c.pieces ++ tail_gap w c.current_start) ++ subtract_from ws c.remaining

unfoldable pub subtract_intervals : List Interval → List Interval → List Interval
unfolding subtract_from
subtract_intervals working [] = working
subtract_intervals working (b ∷ bs) = subtract_from working (b ∷ bs)

-- The four ways in which a round of the inner loop goes.
module _ (w : Interval) (cur : ℕ) (b : Interval) (bs : List Interval) where
  cut_beyond :
      w.end ≤ b.start
      → cut w cur (b ∷ bs) ≡ record { pieces = []; current_start = cur; remaining = b ∷ bs }
  unfolding cut
  cut_beyond h = ground arith

  cut_skip : b.start < w.end → b.end ≤ cur → cut w cur (b ∷ bs) ≡ cut w cur bs
  unfolding cut
  cut_skip h k = ground arith

  cut_last :
      b.start < w.end
      → cur < b.end
      → w.end ≤ b.end
      → cut w cur (b ∷ bs)
        ≡ record { pieces = gap w cur b; current_start = b.end; remaining = b ∷ bs }
  unfolding cut
  cut_last h k l = ground arith

  cut_further :
      b.start < w.end
      → cur < b.end
      → b.end < w.end
      → cut w cur (b ∷ bs) ≡ prepend (gap w cur b) (cut w b.end bs)
  unfolding cut
  cut_further h k l = let e : max cur b.end ≡ b.end = omega arith in rw (e, cut) (ground arith)

  -- A fact about the four outcomes is a fact about the round.
  pub cut-rounds {ℓ} :
      (P : Cut → Type ℓ)
      → (w.end ≤ b.start → P (record { pieces = []; current_start = cur; remaining = b ∷ bs }))
      → (b.start < w.end → b.end ≤ cur → P (cut w cur bs))
      → (b.start < w.end
          → cur < b.end
          → w.end ≤ b.end
          → P (record { pieces = gap w cur b; current_start = b.end; remaining = b ∷ bs }))
      → (b.start < w.end → cur < b.end → b.end < w.end → P (prepend (gap w cur b) (cut w b.end bs)))
      → P (cut w cur (b ∷ bs))
  cut-rounds P p q r s = elim (dec_lt b.start w.end) [
    | no h ↦ rw (cut_beyond (omega arith)) (p (omega arith))
    | yes h ↦ elim (dec_lt cur b.end) [
      | no k ↦ rw (cut_skip h (omega arith)) (q h (omega arith))
      | yes k ↦ elim (dec_lt b.end w.end) [
        | no l ↦ rw (cut_last h k (omega arith)) (r h k (omega arith))
        | yes l ↦ rw (cut_further h k l) (s h k l)
      ]
    ]
  ]

-- The pieces, and what is left of `w` behind them, are the part of `w` from `cur` on that no
-- block covers.
abbrev pub IsExact : Interval → ℕ → List Interval → ℕ → Cut → Type 0
IsExact w cur bs t c =
    (covers c.pieces t || contains t (interval c.current_start w.end))
    ≡ (contains t (interval cur w.end) && not (covers bs t))

pub cut-IsExact :
    (w : Interval) (cur : ℕ) (bs : List Interval) (t : ℕ)
    → IsSeparated bs
    → IsExact w cur bs t (cut w cur bs)
cut-IsExact w cur [] t h = unfold cut in ground arith
cut-IsExact w cur (b ∷ bs) t h =
    let before = covers-Follows b.end bs t h.1 in
    let later = Follows-IsSeparated b.end bs h.1 in
    cut-rounds w cur b bs (IsExact w cur (b ∷ bs) t) (λ p. ground (arith, before))
      (λ p q. ground (arith, cut-IsExact w cur bs t later)) (λ p q r. ground (arith, before))
      (λ p q r. ground (
        arith,
        before,
        cut-IsExact w b.end bs t later,
        any-append (contains t) (gap w cur b) (cut w b.end bs).pieces,
      ))

-- What is passed over ends before the working interval does.
pub cut-remaining :
    (w : Interval) (cur : ℕ) (bs : List Interval) (t : ℕ)
    → cur ≤ w.end
    → w.end ≤ t
    → covers (cut w cur bs).remaining t ≡ covers bs t
cut-remaining w cur [] t c le = unfold cut in refl
cut-remaining w cur (b ∷ bs) t c le =
    cut-rounds w cur b bs (λ k. covers k.remaining t ≡ covers (b ∷ bs) t) (λ p. refl)
      (λ p q. ground (arith, cut-remaining w cur bs t)) (λ p q r. refl)
      (λ p q r. ground (arith, cut-remaining w b.end bs t))

pub cut-IsSeparated :
    (w : Interval) (cur : ℕ) (bs : List Interval)
    → IsSeparated bs
    → IsSeparated (cut w cur bs).remaining
unfolding cut
cut-IsSeparated w cur [] h = tt
cut-IsSeparated w cur (b ∷ bs) h =
    let later = Follows-IsSeparated b.end bs h.1 in
    cut-rounds w cur b bs (λ k. IsSeparated k.remaining) (λ p. h)
      (λ p q. cut-IsSeparated w cur bs later) (λ p q r. h)
      (λ p q r. cut-IsSeparated w b.end bs later)
