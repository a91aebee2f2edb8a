-- ===== src/Booking/Sessions/Chain.antt =====
-- Sessions that follow each other, for app/booking/domain/sessions.py.
use ushbooknpay.Base.{
  ℕ, suc, ◌≤◌, ◌<◌, ◌≡◌, ◌↔◌, ◌⊎◌, inl, inr, refl, false, Option, none, some, List, [], ◌∷◌, arith,
  All,
}
use ushbooknpay.Base.Sorting.{IsSorted}
use ushbooknpay.Base.Pairs.{AllPairs, All-map, All-both}
use ushbooknpay.Booking.Sessions.{
  Session, is_none, is_empty, is_invalid_window, latest, instant, starts, ends, start_key,
  check_each,
}

-- A session by itself: it has a therapist, services, and a start before its end.
abbrev pub IsComplete : Session → Type 0
IsComplete s =
    (is_none s.therapist_id ≡ false)
    × (is_empty s.services ≡ false)
    × (is_invalid_window s.appointment_start s.appointment_end ≡ false)

-- One ends before the other starts, or as it starts.
abbrev pub IsApart : Session → Session → Type 0
IsApart s t = (ends s ≤ starts t) ⊎ (ends t ≤ starts s)

abbrev pub IsProper : Session → Type 0
IsProper s = (starts s < ends s) × (start_key s ≡ starts s)

-- Each starts after the one before has ended.
abbrev pub IsChain : ℕ → List Session → Type 0
IsChain a [] = Unit
IsChain a (s ∷ rest) = (a ≤ starts s) × IsChain (ends s) rest

proper_window : (a b : Option ℕ) → is_invalid_window a b ≡ false → instant a < instant b
proper_window none b h = absurd (ground arith)
proper_window (some a) none h = absurd (ground arith)
proper_window (some a) (some b) h = ground arith

window_key :
    (a b : Option ℕ)
    → is_invalid_window a b ≡ false
    → (elim a as (λ _. ℕ) [ none ↦ latest | some t ↦ t ]) ≡ instant a
window_key none b h = absurd (ground arith)
window_key (some a) b h = refl

pub IsComplete-IsProper : (s : Session) → IsComplete s → IsProper s
IsComplete-IsProper s h = (
  proper_window s.appointment_start s.appointment_end h.2,
  window_key s.appointment_start s.appointment_end h.2,
)

pub check_each-none : (i : ℕ) (xs : List Session) → (check_each i xs ≡ none) ↔ All IsComplete xs
unfolding check_each
check_each-none i [] = (λ _. tt, λ _. refl)
check_each-none i (s ∷ rest) = ground (arith, check_each-none (suc i) rest)

pub IsApart-sym : (s t : Session) → IsApart s t → IsApart t s
IsApart-sym s t (inl h) = inr h
IsApart-sym s t (inr h) = inl h

pub chain_starts :
    (a : ℕ) (xs : List Session) → All IsProper xs → IsChain a xs → All (λ s. a ≤ starts s) xs
chain_starts a [] p h = tt
chain_starts a (s ∷ rest) p h =
    (h.0, All-map _ _ rest (λ t le. omega arith) (chain_starts (ends s) rest p.1 h.1))

pub chain-IsApart :
    (a : ℕ) (xs : List Session) → All IsProper xs → IsChain a xs → AllPairs IsApart xs
chain-IsApart a [] p h = tt
chain-IsApart a (s ∷ rest) p h = (
  All-map (λ t. ends s ≤ starts t) (IsApart s) rest (λ t le. inl le)
      (chain_starts (ends s) rest p.1 h.1),
  chain-IsApart (ends s) rest p.1 h.1,
)

module _ (s : Session) (p : IsProper s) where
  abbrev IsLater : Session → Type 0
  IsLater t = IsApart s t × (start_key s ≤ start_key t)

  later_starts : (t : Session) → IsLater t → IsProper t → ends s ≤ starts t
  later_starts t (inl h, k) q = h
  later_starts t (inr h, k) q = absurd (omega arith)

pub apart-IsChain :
    (a : ℕ) (xs : List Session)
    → IsSorted start_key xs
    → All IsProper xs
    → AllPairs IsApart xs
    → All (λ s. a ≤ starts s) xs
    → IsChain a xs
apart-IsChain a [] sorted p h k = tt
apart-IsChain a (s ∷ rest) sorted p h k =
    let later =
      All-both (IsApart s) (λ t. start_key s ≤ start_key t) (IsLater s p.0) rest (λ t x y. (x, y))
        h.0 sorted.0 in
    let after =
      All-both (IsLater s p.0) IsProper (λ t. ends s ≤ starts t) rest (later_starts s p.0) later
        p.1 in
    (k.0, apart-IsChain (ends s) rest sorted.1 p.1 h.1 after)

pub All-start : (xs : List Session) → All (λ s. 0 ≤ starts s) xs
All-start [] = tt
All-start (s ∷ rest) = (omega arith, All-start rest)
