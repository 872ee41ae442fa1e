-- ===== src/Base/Try.antt =====
-- Calls that may fail and change nothing: the first error ends the chain.
use webcb.Base.Errors.{Result, ok, err}
use mathlib.Core.Path.{◌≡◌, refl}
use native.Mathlib.Omega.{arith}

infixl 5 ◌>>=◌ ◌>>◌
abbrev pub ◌>>=◌ : {A B : Type 0} → Result A → (A → Result B) → Result B
◌>>=◌ r f = elim r [ err e ↦ err e | ok a ↦ f a ]

abbrev pub ◌>>◌ : {A B : Type 0} → Result A → Result B → Result B
◌>>◌ r s = elim r [ err e ↦ err e | ok a ↦ s ]

-- A chain that goes well goes well at its first call.
pub bind_inverse :
    {A B : Type 0} (r : Result A) (f : A → Result B) (b : B)
    → (r >>= f) ≡ ok b
    → (a : A) × (r ≡ ok a) × (f a ≡ ok b)
bind_inverse (err e) f b h = absurd (ground arith)
bind_inverse (ok a) f b h = (a, refl, h)
