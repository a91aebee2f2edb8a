-- ===== src/Base/Session.antt =====
-- Calls within a database session that may raise: what was written before a raise stays written.
use mathlib.Core.Path.{◌≡◌, refl}
use mathlib.Core.Logic.{◌≢◌, ◌⊎◌, inl, inr}
use mathlib.Core.Bool.{Bool}
use ushbooknpay.Base.Tests.{if◌then◌else◌}

pub data Outcome (E A : Type 0) : Type 0 where
  ok : A → Outcome E A
  err : E → Outcome E A

abbrev pub Exec : Type 0 → Type 0 → Type 0 → Type 0
Exec S E A = S → Outcome E A × S

infixl 5 ◌>>=◌ ◌>>◌
abbrev pub ◌>>=◌ : {S E A B : Type 0} → Exec S E A → (A → Exec S E B) → Exec S E B
◌>>=◌ m f s = let (r, s') = m s in elim r [ ok a ↦ f a s' | err e ↦ (err e, s') ]

abbrev pub ◌>>◌ : {S E A B : Type 0} → Exec S E A → Exec S E B → Exec S E B
m >> k = m >>= λ _. k

module _ {S E : Type 0} where
  abbrev pub pure : {A : Type 0} → A → Exec S E A
  pure a s = (ok a, s)

  abbrev pub raise : {A : Type 0} → E → Exec S E A
  raise e s = (err e, s)

  abbrev pub raise_if : Bool → E → Exec S E (Unit {0})
  raise_if c e s = (if c then err e else ok tt, s)

  abbrev pub gets : {A : Type 0} → (S → A) → Exec S E A
  gets f s = (ok (f s), s)

  abbrev pub modify : (S → S) → Exec S E (Unit {0})
  modify f s = (ok tt, f s)

-- A result is one of an error and a value, and the value is one.
pub err-ok : {E A : Type 0} (e : E) (x : A) (r : Outcome E A) → r ≡ err e → r ≢ ok x
err-ok e x r h k = cc

pub ok-ok : {E A : Type 0} (x y : A) (r : Outcome E A) → r ≡ ok x → r ≡ ok y → x ≡ y
ok-ok x y r h k = cc

pub Outcome-cases :
    {E A : Type 0} (r : Outcome E A) → ((a : A) × (r ≡ ok a)) ⊎ ((e : E) × (r ≡ err e))
Outcome-cases (ok a) = inl (a, refl)
Outcome-cases (err e) = inr (e, refl)

-- Where two calls in a row end well, the first one did, and the second goes on from there.
pub bind-ok :
    {S E A B : Type 0} (m : Exec S E A) (f : A → Exec S E B) (s : S) (b : B)
    → ((m >>= f) s).0 ≡ ok b
    → (a : A) × ((m s).0 ≡ ok a) × ((m >>= f) s ≡ f a ((m s).1))
bind-ok m f s b h = elim (Outcome-cases ((m s).0)) [
  | inl (a, e) ↦ (a, e, rw (e, ◌>>=◌) refl)
  | inr (x, e) ↦ let bad : err x ≡ ok b = rw (e, ◌>>=◌) at h in absurd (cc)
]
