-- ===== src/Base/Pairs.antt =====
-- Statements about every two elements of a list, and about lists that a sort rearranges.
use Prim.Native.Nat.{ℕ}
use mathlib.Core.Logic.{inl, inr}
use mathlib.Core.List.{List, [], ◌∷◌}
use ushbooknpay.Base.Tests.{leb, Bool-cases}
use ushbooknpay.Base.Lists.{All}
use ushbooknpay.Base.Sorting.{insert_by, sort_by, All-insert_by, All-sort_by}

module _ {ℓ} {A : Type ℓ} where
  -- The relation holds between each element and every later one.
  abbrev pub AllPairs : (A → A → Type 0) → List A → Type 0
  AllPairs R [] = Unit
  AllPairs R (x ∷ xs) = All (R x) xs × AllPairs R xs

  pub All-map {κ μ} :
      (P : A → Type κ) (Q : A → Type μ) (xs : List A) → ((x : A) → P x → Q x) → All P xs → All Q xs
  All-map P Q [] f h = tt
  All-map P Q (x ∷ xs) f h = (f x h.0, All-map P Q xs f h.1)

  pub All-both {κ μ ν} :
      (P : A → Type κ) (Q : A → Type μ) (R : A → Type ν) (xs : List A)
      → ((x : A) → P x → Q x → R x)
      → All P xs
      → All Q xs
      → All R xs
  All-both P Q R [] f h k = tt
  All-both P Q R (x ∷ xs) f h k = (f x h.0 k.0, All-both P Q R xs f h.1 k.1)

module _ {ℓ} {A : Type ℓ} (key : A → ℕ) where
  pub insert_by-All {κ} :
      (P : A → Type κ) (x : A) (ys : List A) → All P (insert_by key x ys) → P x × All P ys
  unfolding insert_by
  insert_by-All P x [] h = h
  insert_by-All P x (y ∷ ys) h = elim (Bool-cases (leb (key x) (key y))) [
    | inl e ↦ rw e at h
    | inr e ↦
        let k : P y × All P (insert_by key x ys) = rw e at h in
        let r = insert_by-All P x ys k.1 in (r.0, (k.0, r.1))
  ]

  pub sort_by-All {κ} : (P : A → Type κ) (xs : List A) → All P (sort_by key xs) → All P xs
  unfolding sort_by
  sort_by-All P [] h = tt
  sort_by-All P (x ∷ xs) h =
      let r = insert_by-All P x (sort_by key xs) h in (r.0, sort_by-All P xs r.1)

  module _ (R : A → A → Type 0) (symm : (x y : A) → R x y → R y x) where
    AllPairs-insert_by :
        (x : A) (ys : List A) → All (R x) ys → AllPairs R ys → AllPairs R (insert_by key x ys)
    unfolding insert_by
    AllPairs-insert_by x [] h k = (tt, tt)
    AllPairs-insert_by x (y ∷ ys) h k = elim (Bool-cases (leb (key x) (key y))) [
      | inl e ↦ rw e (h, k)
      | inr e ↦
          rw e (All-insert_by key (R y) x ys (symm x y h.0) k.0, AllPairs-insert_by x ys h.1 k.1)
    ]

    insert_by-AllPairs :
        (x : A) (ys : List A) → AllPairs R (insert_by key x ys) → All (R x) ys × AllPairs R ys
    unfolding insert_by
    insert_by-AllPairs x [] h = h
    insert_by-AllPairs x (y ∷ ys) h = elim (Bool-cases (leb (key x) (key y))) [
      | inl e ↦ rw e at h
      | inr e ↦
          let k : All (R y) (insert_by key x ys) × AllPairs R (insert_by key x ys) = rw e at h in
          let r = insert_by-All (R y) x ys k.0 in
          let s = insert_by-AllPairs x ys k.1 in ((symm y x r.0, s.0), (r.1, s.1))
    ]

    -- A sort keeps what holds between every two elements, both ways.
    pub AllPairs-sort_by : (xs : List A) → AllPairs R xs → AllPairs R (sort_by key xs)
    unfolding sort_by
    AllPairs-sort_by [] h = tt
    AllPairs-sort_by (x ∷ xs) h =
        AllPairs-insert_by x (sort_by key xs) (All-sort_by key (R x) xs h.0)
          (AllPairs-sort_by xs h.1)

    pub sort_by-AllPairs : (xs : List A) → AllPairs R (sort_by key xs) → AllPairs R xs
    unfolding sort_by
    sort_by-AllPairs [] h = tt
    sort_by-AllPairs (x ∷ xs) h =
        let r = insert_by-AllPairs x (sort_by key xs) h in
        (sort_by-All (R x) xs r.0, sort_by-AllPairs xs r.1)
