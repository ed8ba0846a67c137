-- ===== src/Prelude/Member.antt =====
-- Membership in a list, and what a Boolean search says of the members.
use mathlib.Core.Path.{◌≡◌, refl}
use mathlib.Core.Logic.{◌⊎◌, inl, inr}
use mathlib.Core.Bool.{Bool, true, false}
use mathlib.Core.List.{List, [], ◌∷◌, ◌++◌}
use native.Mathlib.Omega.{arith}
use cloudigrade.Prelude.Tests.{Bool-cases}
use cloudigrade.Prelude.Lists.{any, select, All}

pub data In {ℓ} {A : Type ℓ} (x : A) : List A → Type ℓ where
  here : {ys : List A} → In x (x ∷ ys)
  there : {y : A} {ys : List A} → In x ys → In x (y ∷ ys)

module _ {ℓ} {A : Type ℓ} where
  pub any-intro : (p : A → Bool) (x : A) (xs : List A) → In x xs → p x ≡ true → any p xs ≡ true
  any-intro p x [] m h = elim m [ ]
  any-intro p x (_ ∷ xs) here h = ground arith
  any-intro p x (y ∷ xs) (there m) h = ground (arith, any-intro p x xs m h)

  pub any-witness :
      (p : A → Bool) (xs : List A) → any p xs ≡ true → (x : A) × In x xs × (p x ≡ true)
  any-witness p [] h = absurd (cc)
  any-witness p (x ∷ xs) h = elim (Bool-cases (p x)) [
    | inl yes' ↦ (x, here, yes')
    | inr no' ↦ let (y, m, e) = any-witness p xs (ground arith) in (y, there m, e)
  ]

  pub any-false : (p : A → Bool) (x : A) (xs : List A) → any p xs ≡ false → In x xs → p x ≡ false
  any-false p x xs h m = elim (Bool-cases (p x)) [ inl e ↦ cc (any-intro p x xs m e) | inr e ↦ e ]

  pub In-select : (q : A → Bool) (x : A) (xs : List A) → In x xs → q x ≡ true → In x (select q xs)
  In-select q x [] m h = elim m [ ]
  In-select q x (_ ∷ xs) here h = rw h here
  In-select q x (y ∷ xs) (there m) h = elim (Bool-cases (q y)) [
    | inl e ↦ rw e (there (In-select q x xs m h))
    | inr e ↦ rw e (In-select q x xs m h)
  ]

  In-cons : (x y : A) (ys : List A) → In x (y ∷ ys) → (x ≡ y) ⊎ In x ys
  In-cons x y ys here = inl refl
  In-cons x y ys (there m) = inr m

  pub select-In : (q : A → Bool) (x : A) (xs : List A) → In x (select q xs) → In x xs × (q x ≡ true)
  select-In q x [] m = elim m [ ]
  select-In q x (y ∷ xs) m = elim (Bool-cases (q y)) [
    | inl e ↦ elim (In-cons x y (select q xs) (rw e at m)) [
      | inl same ↦ (rw same here, rw same e)
      | inr later ↦ let (l, h) = select-In q x xs later in (there l, h)
    ]
    | inr e ↦ let (l, h) = select-In q x xs (rw e at m) in (there l, h)
  ]

  pub In-All {κ} : (P : A → Type κ) (x : A) (xs : List A) → All P xs → In x xs → P x
  In-All P x [] a m = elim m [ ]
  In-All P x (_ ∷ xs) a here = a.0
  In-All P x (y ∷ xs) a (there m) = In-All P x xs a.1 m

pub bool_ext : (a b : Bool) → (a ≡ true → b ≡ true) → (b ≡ true → a ≡ true) → a ≡ b
bool_ext a b f g = ground arith

-- A test that no row can pass finds nothing.
pub any-refute {ℓ} :
    {A : Type ℓ} (p : A → Bool) (xs : List A)
    → ((x : A) → In x xs → p x ≡ true → false ≡ true)
    → any p xs ≡ false
any-refute p xs h = elim (Bool-cases (any p xs)) [
  | inr e ↦ e
  | inl e ↦ let (x, m, k) = any-witness p xs e in absurd (cc (h x m k))
]

pub In-append_right {ℓ} : {A : Type ℓ} (x : A) (xs ys : List A) → In x ys → In x (xs ++ ys)
In-append_right x [] ys m = m
In-append_right x (z ∷ xs) ys m = there (In-append_right x xs ys m)
