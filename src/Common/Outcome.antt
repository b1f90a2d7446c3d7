-- ===== src/Common/Outcome.antt =====
-- Go's (value, error) pairs: a value or a reason. `Holds P` is "P of the value, if there is one".
use mathlib.Core.Path.{◌≡◌, refl, subst}
use mathlib.Core.Logic.{◌⊎◌, inl, inr}
use mathlib.Core.Bool.{Bool, true, false}
use cnimbus.Common.Tests.{if◌then◌else◌}

pub data Result {ℓ} (E : Type ℓ) (A : Type ℓ) : Type ℓ where
  ok : A → Result E A
  err : E → Result E A

infixl 5 ◌>>=◌
abbrev pub ◌>>=◌ {ℓ} : {E A B : Type ℓ} → Result E A → (A → Result E B) → Result E B
ok a >>= f = f a
err e >>= f = err e

-- `fmt.Errorf("…: %w", err)`
abbrev pub map_err {ℓ} : {E F A : Type ℓ} → (E → F) → Result E A → Result F A
map_err f (ok a) = ok a
map_err f (err e) = err (f e)

abbrev pub Holds {ℓ κ} : {E A : Type ℓ} → (A → Type κ) → Result E A → Type κ
Holds P (ok a) = P a
Holds P (err e) = Unit

pub Result-cases {ℓ} :
    {E A : Type ℓ} (r : Result E A) → ((a : A) × (r ≡ ok a)) ⊎ ((e : E) × (r ≡ err e))
Result-cases (ok a) = inl (a, refl)
Result-cases (err e) = inr (e, refl)

pub Holds-bind {ℓ κ} :
    {E A B : Type ℓ} (P : A → Type κ) (Q : B → Type κ) (m : Result E A) (f : A → Result E B)
    → Holds P m
    → ((a : A) → P a → Holds Q (f a))
    → Holds Q (m >>= f)
Holds-bind P Q (ok a) f h k = k a h
Holds-bind P Q (err e) f h k = tt

pub Holds-map_err {ℓ κ} :
    {E F A : Type ℓ} (P : A → Type κ) (f : E → F) (m : Result E A)
    → Holds P m
    → Holds P (map_err f m)
Holds-map_err P f (ok a) h = h
Holds-map_err P f (err e) h = tt

pub Holds-ok {ℓ κ} :
    {E A : Type ℓ} (P : A → Type κ) {m : Result E A} {a : A} → Holds P m → m ≡ ok a → P a
Holds-ok P h e = subst (Holds P) e h

-- A test that refuses the value, or goes on.
pub Holds-branch {ℓ κ} :
    {E A : Type ℓ} (P : A → Type κ) (b : Bool) (e : E) (m : Result E A)
    → (b ≡ false → Holds P m)
    → Holds P (if b then err e else m)
Holds-branch P true e m f = tt
Holds-branch P false e m f = f refl

-- A step whose value does not matter.
pub Holds-any {ℓ κ} :
    {E A B : Type ℓ} (Q : B → Type κ) (m : Result E A) (f : A → Result E B)
    → ((a : A) → Holds Q (f a))
    → Holds Q (m >>= f)
Holds-any Q (ok a) f k = k a
Holds-any Q (err e) f k = tt

pub Holds-weaken {ℓ κ} :
    {E A : Type ℓ} (P Q : A → Type κ) (m : Result E A)
    → ((a : A) → P a → Q a)
    → Holds P m
    → Holds Q m
Holds-weaken P Q (ok a) f h = f a h
Holds-weaken P Q (err e) f h = tt
