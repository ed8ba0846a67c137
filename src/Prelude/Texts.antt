-- ===== src/Prelude/Texts.antt =====
-- Texts as lists of code points.
use Prim.Native.Char.{code}
use Prim.Native.String.{String}
use Prim.Native.Nat.{ℕ}
use mathlib.Core.Path.{◌≡◌, refl}
use mathlib.Core.Logic.{◌↔◌}
use mathlib.Core.Bool.{Bool, true, false, ◌&&◌, ◌||◌}
use mathlib.Core.Option.{Option, none, some}
use mathlib.Core.List.{List, [], ◌∷◌}
use native.Mathlib.Omega.{arith}
use cloudigrade.Prelude.Tests.{◌==◌, ltb, if◌then◌else◌}

abbrev pub Text : Type 0
Text = List ℕ

-- The code points of a literal.
abbrev pub codes : String → Text
codes String.[] = []
codes (String.◌∷◌ c s) = code c ∷ codes s

abbrev pub text_eq : Text → Text → Bool
text_eq [] [] = true
text_eq [] (b ∷ t) = false
text_eq (a ∷ s) [] = false
text_eq (a ∷ s) (b ∷ t) = a == b && text_eq s t

pub text_eq_iff : (s t : Text) → (text_eq s t ≡ true) ↔ (s ≡ t)
text_eq_iff [] [] = ground arith
text_eq_iff [] (b ∷ t) = ground arith
text_eq_iff (a ∷ s) [] = ground arith
text_eq_iff (a ∷ s) (b ∷ t) = ground (arith, text_eq_iff s t)

pub text_eq_refl : (s : Text) → text_eq s s ≡ true
text_eq_refl s = (text_eq_iff s s).1 refl

-- `t.startswith(prefix)`
abbrev pub starts_with : Text → Text → Bool
starts_with [] t = true
starts_with (a ∷ prefix) [] = false
starts_with (a ∷ prefix) (b ∷ t) = a == b && starts_with prefix t

-- `s in texts`
abbrev pub is_in_texts : Text → List Text → Bool
is_in_texts s [] = false
is_in_texts s (t ∷ ts) = text_eq s t || is_in_texts s ts

-- Python's `<=` on strings.
abbrev pub text_le : Text → Text → Bool
text_le [] t = true
text_le (a ∷ s) [] = false
text_le (a ∷ s) (b ∷ t) = if a == b then text_le s t else ltb a b

-- `a == b` where both may be None.
abbrev pub option_eq {ℓ} : {A : Type ℓ} → (A → A → Bool) → Option A → Option A → Bool
option_eq eq none none = true
option_eq eq none (some b) = false
option_eq eq (some a) none = false
option_eq eq (some a) (some b) = eq a b

pub text_eq_sym : (s t : Text) → text_eq s t ≡ text_eq t s
text_eq_sym [] [] = refl
text_eq_sym [] (b ∷ t) = refl
text_eq_sym (a ∷ s) [] = refl
text_eq_sym (a ∷ s) (b ∷ t) = ground (arith, text_eq_sym s t)

pub text_le_refl : (s : Text) → text_le s s ≡ true
text_le_refl [] = refl
text_le_refl (a ∷ s) = ground (arith, text_le_refl s)

pub text_le_total : (s t : Text) → text_le s t ≡ false → text_le t s ≡ true
text_le_total [] t h = absurd (cc)
text_le_total (a ∷ s) [] h = refl
text_le_total (a ∷ s) (b ∷ t) h = ground (arith, text_le_total s t)

pub text_le_trans : (s t u : Text) → text_le s t ≡ true → text_le t u ≡ true → text_le s u ≡ true
text_le_trans [] t u h k = refl
text_le_trans (a ∷ s) [] u h k = absurd (cc)
text_le_trans (a ∷ s) (b ∷ t) [] h k = absurd (cc)
text_le_trans (a ∷ s) (b ∷ t) (c ∷ u) h k = ground (arith, text_le_trans s t u)

-- `part in t` on strings.
abbrev pub contains : Text → Text → Bool
contains part [] = starts_with part []
contains part (a ∷ t) = starts_with part (a ∷ t) || contains part t
