-- ===== src/Prelude/Optional.antt =====
-- Chains of results that may be missing, for do blocks.
use mathlib.Core.Path.{◌≡◌, refl}
use mathlib.Core.Bool.{Bool, true, false}
use mathlib.Core.Option.{Option, none, some}

infixl 5 ◌>>=◌ ◌>>◌
abbrev pub ◌>>=◌ {ℓ κ} : {A : Type ℓ} {B : Type κ} → Option A → (A → Option B) → Option B
none >>= f = none
some a >>= f = f a

abbrev pub ◌>>◌ {ℓ κ} : {A : Type ℓ} {B : Type κ} → Option A → Option B → Option B
none >> k = none
some a >> k = k

abbrev pub guard : Bool → Option (Unit {0})
guard true = some tt
guard false = none

-- What a chain has gone through where it gives a result.
pub some_of_bind {ℓ κ} :
    {A : Type ℓ} {B : Type κ} (o : Option A) (f : A → Option B) (b : B)
    → (o >>= f) ≡ some b
    → (a : A) × (o ≡ some a) × (f a ≡ some b)
some_of_bind none f b h = absurd (cc h)
some_of_bind (some a) f b h = (a, refl, h)
