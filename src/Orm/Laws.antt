-- ===== src/Orm/Laws.antt =====
-- What a query's order leaves alone.
use mathlib.Core.Path.{subst, ap}
use cloudigrade.Prelude.{
  none, not, any-witness, select-In, select, Bool-cases, inl, inr, ℕ, false, refl, sym, ltb,
  any-intro, any-none, ◌≤◌, ◌≡◌, ◌∙◌, Bool, true, List, [], ◌∷◌, some, any, any-of-count, first,
  All, arith, In,
}
use cloudigrade.Orm.{Orm, IsSortedBy, IsSortedDesc}

All-not-ltb :
    {A : Type 0} (key : A → ℕ) (n : ℕ) (ys : List A)
    → All (λ y. n ≤ key y) ys
    → All (λ y. ltb (key y) n ≡ false) ys
All-not-ltb key n [] h = tt
All-not-ltb key n (y ∷ ys) h = (ground arith, All-not-ltb key n ys h.1)

module _ (orm : Orm) where
  -- Searching the ordered rows is searching the rows.
  pub any-order_by :
      {A : Type 0} (key : A → ℕ) (p : A → Bool) (xs : List A)
      → any p (orm.order_by key xs) ≡ any p xs
  any-order_by key p xs = any-of-count p (orm.order_by key xs) xs (orm.count-order_by key p xs)

  pub any-order_by_desc :
      {A : Type 0} (key : A → ℕ) (p : A → Bool) (xs : List A)
      → any p (orm.order_by_desc key xs) ≡ any p xs
  any-order_by_desc key p xs =
      any-of-count p (orm.order_by_desc key xs) xs (orm.count-order_by_desc key p xs)

  -- The first row in a query's order has the smallest key.
  pub first-order_by-le :
      {A : Type 0} (key : A → ℕ) (xs : List A) (x : A)
      → In x xs
      → (y : A) × (first (orm.order_by key xs) ≡ some y) × (key y ≤ key x)
  first-order_by-le {A} key xs x m =
      go (orm.order_by key xs) (orm.order_by-IsSortedBy key xs)
        (λ p e. any-order_by key p xs ∙ any-intro p x xs m e)
    where
      go :
          (ys : List A)
          → IsSortedBy key ys
          → ((p : A → Bool) → p x ≡ true → any p ys ≡ true)
          → (y : A) × (first ys ≡ some y) × (key y ≤ key x)
      go [] s found = cc (found (λ _. true) refl)
      go (y ∷ ys) s found = (
        y,
        refl,
        elim (Bool-cases (ltb (key x) (key y))) [
          | inr e ↦ ground arith
          | inl e ↦ cc (
            found (λ z. ltb (key z) (key y)) e,
            any-none (λ z. ltb (key z) (key y)) (y ∷ ys)
                (ground arith, All-not-ltb key (key y) ys s.0),
          )
        ],
      )

  -- The first row in a query's order is a row.
  pub first-order_by-any :
      {A : Type 0} (key : A → ℕ) (xs : List A) (y : A) (p : A → Bool)
      → first (orm.order_by key xs) ≡ some y
      → p y ≡ true
      → any p xs ≡ true
  first-order_by-any {A} key xs y p h e = sym (any-order_by key p xs) ∙ go (orm.order_by key xs) h
    where
      go : (ys : List A) → first ys ≡ some y → any p ys ≡ true
      go [] h = cc
      go (z ∷ zs) h = ground arith

  -- The first row in the order of a filter's rows passes the filter.
  pub first-order_by-select :
      {A : Type 0} (key : A → ℕ) (q : A → Bool) (xs : List A) (y : A)
      → first (orm.order_by key (select q xs)) ≡ some y
      → q y ≡ true
  first-order_by-select key q xs y h = elim (Bool-cases (q y)) [
    | inl e ↦ e
    | inr e ↦
        let (z, m, f) =
          any-witness (λ x. not (q x)) (select q xs)
            (first-order_by-any key (select q xs) y (λ x. not (q x)) h (rw e)) in
        let (_, qz) = select-In q z xs m in ground arith
  ]

  -- The first row in a query's descending order is a row, by any test.
  pub first-order_by_desc-any :
      {A : Type 0} (key : A → ℕ) (xs : List A) (y : A) (p : A → Bool)
      → first (orm.order_by_desc key xs) ≡ some y
      → p y ≡ true
      → any p xs ≡ true
  first-order_by_desc-any {A} key xs y p h e =
      sym (any-order_by_desc key p xs) ∙ go (orm.order_by_desc key xs) h
    where
      go : (ys : List A) → first ys ≡ some y → any p ys ≡ true
      go [] h = cc
      go (z ∷ zs) h = ground arith

  -- The first row in the descending order of a filter's rows passes the filter.
  pub first-order_by_desc-select :
      {A : Type 0} (key : A → ℕ) (q : A → Bool) (xs : List A) (y : A)
      → first (orm.order_by_desc key (select q xs)) ≡ some y
      → q y ≡ true
  first-order_by_desc-select key q xs y h = elim (Bool-cases (q y)) [
    | inl e ↦ e
    | inr e ↦
        let (z, m, f) =
          any-witness (λ x. not (q x)) (select q xs)
            (first-order_by_desc-any key (select q xs) y (λ x. not (q x)) h (rw e)) in
        let (_, qz) = select-In q z xs m in ground arith
  ]

  -- With no first row there are no rows.
  pub first-order_by_desc-none :
      {A : Type 0} (key : A → ℕ) (xs : List A) (p : A → Bool)
      → first (orm.order_by_desc key xs) ≡ none
      → any p xs ≡ false
  first-order_by_desc-none {A} key xs p h =
      sym (any-order_by_desc key p xs) ∙ go (orm.order_by_desc key xs) h
    where
      go : (ys : List A) → first ys ≡ none → any p ys ≡ false
      go [] h = refl
      go (y ∷ ys) h = cc

  -- The first row in a query's descending order has the largest key.
  pub first-order_by_desc-le :
      {A : Type 0} (key : A → ℕ) (xs : List A) (y : A)
      → first (orm.order_by_desc key xs) ≡ some y
      → any (λ x. ltb (key y) (key x)) xs ≡ false
  first-order_by_desc-le {A} key xs y h =
      sym (any-order_by_desc key (λ x. ltb (key y) (key x)) xs)
      ∙ go (orm.order_by_desc key xs) (orm.order_by_desc-IsSortedDesc key xs) h
    where
      none_above :
          (n : ℕ) (ys : List A) → All (λ x. key x ≤ n) ys → any (λ x. ltb n (key x)) ys ≡ false
      none_above n [] a = refl
      none_above n (z ∷ zs) a = ground (arith, none_above n zs a.1)

      go :
          (ys : List A)
          → IsSortedDesc key ys
          → first ys ≡ some y
          → any (λ x. ltb (key y) (key x)) ys ≡ false
      go [] s h = refl
      go (z ∷ zs) s h =
          let same : z ≡ y = cc in
          let later : any (λ x. ltb (key y) (key x)) zs ≡ false =
            none_above (key y) zs (subst (λ k. All (λ x. key x ≤ k) zs) (ap key same) s.0) in
          let first_key : key z ≡ key y = ap key same in ground arith
