-- ===== src/Prelude/Options.antt =====
-- `none` as the value of code that raises an exception: sequencing, and tests of options.
use mathlib.Core.Path.{◌≡◌, refl}
use mathlib.Core.Bool.{Bool, true, false}
use mathlib.Core.Option.{Option, none, some}

infixl 5 ◌>>=◌ ◌>>◌
abbrev pub ◌>>=◌ {ℓ κ} : {A : Type ℓ} {B : Type κ} → Option A → (A → Option B) → Option B
none >>= f = none
some a >>= f = f a

abbrev pub ◌>>◌ {ℓ κ} : {A : Type ℓ} {B : Type κ} → Option A → Option B → Option B
m >> k = m >>= λ _. k

abbrev pub is_some {ℓ} : {A : Type ℓ} → Option A → Bool
is_some none = false
is_some (some a) = true

abbrev pub is_none {ℓ} : {A : Type ℓ} → Option A → Bool
is_none none = true
is_none (some a) = false

-- A sequence that succeeds: its first part does, and what follows it.
pub bind-some {ℓ κ} :
    {A : Type ℓ} {B : Type κ} (m : Option A) (f : A → Option B) {b : B}
    → (m >>= f) ≡ some b
    → (a : A) × (m ≡ some a) × (f a ≡ some b)
bind-some none f h = absurd (cc)
bind-some (some a) f h = (a, refl, h)

pub some-inj {ℓ} : {A : Type ℓ} {a b : A} → some a ≡ some b → a ≡ b
some-inj h = cc
