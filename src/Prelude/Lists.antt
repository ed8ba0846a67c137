-- ===== src/Prelude/Lists.antt =====
-- Lists measured by native numbers, and searches by Boolean tests: the rows of a table are read
-- only through these.
use Prim.Native.Nat.{ℕ, zero, suc, ◌+◌}
use mathlib.Core.Path.{◌≡◌, refl}
use mathlib.Core.Bool.{Bool, true, false, ◌&&◌, ◌||◌, not}
use mathlib.Core.Option.{Option, none, some}
use mathlib.Core.List.{List, [], ◌∷◌, ◌++◌, map}
use native.Mathlib.Omega.{arith}
use mathlib.Core.Logic.{inl, inr}
use cloudigrade.Prelude.Tests.{if◌then◌else◌, Bool-cases}

module _ {ℓ} {A : Type ℓ} where
  abbrev pub length : List A → ℕ
  length [] = 0
  length (x ∷ xs) = suc (length xs)

  abbrev pub take : ℕ → List A → List A
  take zero xs = []
  take (suc n) [] = []
  take (suc n) (x ∷ xs) = x ∷ take n xs

  -- `any(p(x) for x in xs)`, and `queryset.filter(p).exists()`
  abbrev pub any : (A → Bool) → List A → Bool
  any p [] = false
  any p (x ∷ xs) = p x || any p xs

  abbrev pub all : (A → Bool) → List A → Bool
  all p [] = true
  all p (x ∷ xs) = p x && all p xs

  -- `queryset.filter(p)`: the rows that pass, in the table's order.
  abbrev pub select : (A → Bool) → List A → List A
  select p [] = []
  select p (x ∷ xs) = if p x then x ∷ select p xs else select p xs

  abbrev pub count : (A → Bool) → List A → ℕ
  count p [] = 0
  count p (x ∷ xs) = (if p x then 1 else 0) + count p xs

  -- `queryset.first()`
  abbrev pub first : List A → Option A
  first [] = none
  first (x ∷ xs) = some x

  -- The first row that passes: `objects.get(...)` on a unique key, `none` for `DoesNotExist`.
  abbrev pub find : (A → Bool) → List A → Option A
  find p [] = none
  find p (x ∷ xs) = if p x then some x else find p xs

  abbrev pub All {κ} : (A → Type κ) → List A → Type κ
  All P [] = Unit
  All P (x ∷ xs) = P x × All P xs

  pub any-append : (p : A → Bool) (xs ys : List A) → any p (xs ++ ys) ≡ any p xs || any p ys
  any-append p [] ys = refl
  any-append p (x ∷ xs) ys = ground (arith, any-append p xs ys)

  pub any-select : (p q : A → Bool) (xs : List A) → any p (select q xs) ≡ any (λ x. q x && p x) xs
  any-select p q [] = refl
  any-select p q (x ∷ xs) = ground (arith, any-select p q xs)

  pub all-eq-not-any : (p : A → Bool) (xs : List A) → all p xs ≡ not (any (λ x. not (p x)) xs)
  all-eq-not-any p [] = refl
  all-eq-not-any p (x ∷ xs) = ground (arith, all-eq-not-any p xs)

  pub any-congr : (p q : A → Bool) (xs : List A) → All (λ x. p x ≡ q x) xs → any p xs ≡ any q xs
  any-congr p q [] h = refl
  any-congr p q (x ∷ xs) h = ground (arith, any-congr p q xs h.1)

  pub any-or : (p q : A → Bool) (xs : List A) → any (λ x. p x || q x) xs ≡ any p xs || any q xs
  any-or p q [] = refl
  any-or p q (x ∷ xs) = ground (arith, any-or p q xs)

  pub any-none : (p : A → Bool) (xs : List A) → All (λ x. p x ≡ false) xs → any p xs ≡ false
  any-none p [] h = refl
  any-none p (x ∷ xs) h = ground (arith, any-none p xs h.1)

  -- What fails for every row fails for each of them.
  pub All-of-not-any : (p : A → Bool) (xs : List A) → any p xs ≡ false → All (λ x. p x ≡ false) xs
  All-of-not-any p [] h = tt
  All-of-not-any p (x ∷ xs) h = (ground arith, All-of-not-any p xs (ground arith))

  -- A search that succeeds finds a row.
  pub find-any : (p : A → Bool) (xs : List A) → any p xs ≡ true → (x : A) × (find p xs ≡ some x)
  find-any p [] h = absurd (cc)
  find-any p (x ∷ xs) h = elim (Bool-cases (p x)) [
    | inl e ↦ (x, rw e)
    | inr e ↦ rw e (find-any p xs (rw e at h))
  ]

  -- Two tables with as many rows for each test have the same rows.
  pub any-of-count : (p : A → Bool) (xs ys : List A) → count p xs ≡ count p ys → any p xs ≡ any p ys
  any-of-count p xs ys h = ground (arith, count_pos xs, count_pos ys)
    where
      count_pos : (zs : List A) → any p zs ≡ (elim (count p zs) [ zero ↦ false | suc _ ↦ true ])
      count_pos [] = refl
      count_pos (z ∷ zs) = ground (arith, count_pos zs)

  pub any-select_none :
      (p q : A → Bool) (xs : List A) → any p xs ≡ false → any p (select q xs) ≡ false
  any-select_none p q [] h = refl
  any-select_none p q (x ∷ xs) h = ground (arith, any-select_none p q xs)

  pub any-reject : (p : A → Bool) (xs : List A) → any p (select (λ x. not (p x)) xs) ≡ false
  any-reject p [] = refl
  any-reject p (x ∷ xs) = ground (arith, any-reject p xs)

  pub any-kept :
      (p q : A → Bool) (xs : List A)
      → any (λ x. q x && p x) (select q xs) ≡ any (λ x. q x && p x) xs
  any-kept p q [] = refl
  any-kept p q (x ∷ xs) = ground (arith, any-kept p q xs)

  pub any-select_keeps :
      (p q : A → Bool) (xs : List A)
      → ((x : A) → p x ≡ true → q x ≡ true)
      → any p (select q xs) ≡ any p xs
  any-select_keeps p q [] h = refl
  any-select_keeps p q (x ∷ xs) h = elim (Bool-cases (p x)) [
    | inl e ↦ ground (arith, h x e, any-select_keeps p q xs h)
    | inr e ↦ ground (arith, any-select_keeps p q xs h)
  ]

  pub any-never : (p : A → Bool) (xs : List A) → ((x : A) → p x ≡ false) → any p xs ≡ false
  any-never p [] h = refl
  any-never p (x ∷ xs) h = ground (arith, h x, any-never p xs h)

pub any-map_never :
    {A B : Type 0} (p : B → Bool) (f : A → B) (xs : List A)
    → ((x : A) → p (f x) ≡ false)
    → any p (map f xs) ≡ false
any-map_never p f [] h = refl
any-map_never p f (x ∷ xs) h = ground (arith, h x, any-map_never p f xs h)

-- What a search finds passes its test.
pub find-holds : {A : Type 0} (p : A → Bool) (us : List A) {u : A} → find p us ≡ some u → p u ≡ true
find-holds p [] h = cc
find-holds p (x ∷ us) {u} h = elim (Bool-cases (p x)) [
  | inl e ↦ let same : x ≡ u = cc (rw e at h) in rw (← same) e
  | inr e ↦ find-holds p us (rw e at h)
]

pub find-exists :
    {A : Type 0} (p : A → Bool) (us : List A) {u : A} → find p us ≡ some u → any p us ≡ true
find-exists p [] h = cc
find-exists p (x ∷ us) h = elim (Bool-cases (p x)) [
  | inl e ↦ rw e refl
  | inr e ↦ rw e (find-exists p us (rw e at h))
]

-- What a search finds is a row.
pub find-passes :
    {A : Type 0} (p q : A → Bool) (us : List A) {u : A}
    → find p us ≡ some u
    → q u ≡ true
    → any q us ≡ true
find-passes p q [] h k = cc
find-passes p q (x ∷ us) {u} h k = elim (Bool-cases (p x)) [
  | inl e ↦ let same : x ≡ u = cc (rw e at h) in ground arith
  | inr e ↦ ground (arith, find-passes p q us (rw e at h) k)
]
