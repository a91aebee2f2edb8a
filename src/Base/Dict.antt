-- ===== src/Base/Dict.antt =====
-- Rows of a table by a numeric key.
use Prim.Native.Nat.{ℕ}
use mathlib.Core.Path.{◌≡◌, refl, sym, ◌∙◌}
use mathlib.Core.Logic.{◌≢◌, ◌⊎◌, inl, inr}
use mathlib.Core.Option.{Option, none, some}
use mathlib.Core.List.{List, [], ◌∷◌}
use native.Mathlib.Omega.{arith}
use ushbooknpay.Base.Tests.{◌==◌, Bool-cases, if◌then◌else◌}

abbrev pub Dict {ℓ} : Type ℓ → Type ℓ
Dict V = List (ℕ × V)

module _ {ℓ} {V : Type ℓ} where
  unfoldable pub lookup : ℕ → Dict V → Option V
  lookup k [] = none
  lookup k (e ∷ d) = if e.0 == k then some e.1 else lookup k d

  unfoldable pub insert : ℕ → V → Dict V → Dict V
  insert k v [] = (k, v) ∷ []
  insert k v (e ∷ d) = if e.0 == k then (k, v) ∷ d else e ∷ insert k v d

  pub lookup-insert :
      (k j : ℕ) (v : V) (d : Dict V)
      → lookup j (insert k v d) ≡ (if k == j then some v else lookup j d)
  unfolding lookup insert
  lookup-insert k j v [] = refl
  lookup-insert k j v (e ∷ d) = ground (arith, lookup-insert k j v d)

  -- What a look-up finds after an insertion: the value inserted, or what was there under another key.
  pub lookup-insert_cases :
      (k j : ℕ) (v m : V) (d : Dict V)
      → lookup j (insert k v d) ≡ some m
      → ((k ≡ j) × (v ≡ m)) ⊎ ((k ≢ j) × (lookup j d ≡ some m))
  lookup-insert_cases k j v m d h = elim (Bool-cases (k == j)) [
    | inl e ↦
        let found : some v ≡ some m = sym (lookup-insert k j v d ∙ rw e refl) ∙ h in
        inl (ground (arith, e), cc)
    | inr e ↦ inr (ground (arith, e), sym (lookup-insert k j v d ∙ rw e refl) ∙ h)
  ]
