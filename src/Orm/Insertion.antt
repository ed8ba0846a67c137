-- ===== src/Orm/Insertion.antt =====
-- A database that meets the interface: it orders rows by insertion and numbers them upwards.
use cloudigrade.Prelude.{
  ℕ, ◌+◌, ◌≤◌, ◌≡◌, refl, Bool, false, List, [], ◌∷◌, All, any, count, arith, leb, ◌==◌, max,
  if◌then◌else◌,
}
use cloudigrade.Orm.{Orm, IsSortedBy, IsSortedDesc}

module _ {A : Type 0} (key : A → ℕ) where
  unfoldable pub insert_up : A → List A → List A
  insert_up x [] = x ∷ []
  insert_up x (y ∷ ys) = if leb (key x) (key y) then x ∷ y ∷ ys else y ∷ insert_up x ys

  unfoldable pub sort_up : List A → List A
  unfolding insert_up
  sort_up [] = []
  sort_up (x ∷ xs) = insert_up x (sort_up xs)

  unfoldable pub insert_down : A → List A → List A
  insert_down x [] = x ∷ []
  insert_down x (y ∷ ys) = if leb (key y) (key x) then x ∷ y ∷ ys else y ∷ insert_down x ys

  unfoldable pub sort_down : List A → List A
  unfolding insert_down
  sort_down [] = []
  sort_down (x ∷ xs) = insert_down x (sort_down xs)

  count-insert_up :
      (p : A → Bool) (x : A) (ys : List A) → count p (insert_up x ys) ≡ count p (x ∷ ys)
  unfolding insert_up
  count-insert_up p x [] = refl
  count-insert_up p x (y ∷ ys) = ground (arith, count-insert_up p x ys)

  pub count-sort_up : (p : A → Bool) (xs : List A) → count p (sort_up xs) ≡ count p xs
  unfolding sort_up
  count-sort_up p [] = refl
  count-sort_up p (x ∷ xs) = ground (arith, count-insert_up p x (sort_up xs), count-sort_up p xs)

  count-insert_down :
      (p : A → Bool) (x : A) (ys : List A) → count p (insert_down x ys) ≡ count p (x ∷ ys)
  unfolding insert_down
  count-insert_down p x [] = refl
  count-insert_down p x (y ∷ ys) = ground (arith, count-insert_down p x ys)

  pub count-sort_down : (p : A → Bool) (xs : List A) → count p (sort_down xs) ≡ count p xs
  unfolding sort_down
  count-sort_down p [] = refl
  count-sort_down p (x ∷ xs) =
      ground (arith, count-insert_down p x (sort_down xs), count-sort_down p xs)

  All-le_trans : (m n : ℕ) (ys : List A) → m ≤ n → All (λ y. n ≤ key y) ys → All (λ y. m ≤ key y) ys
  All-le_trans m n [] le h = tt
  All-le_trans m n (y ∷ ys) le h = (omega arith, All-le_trans m n ys le h.1)

  All-ge_trans : (m n : ℕ) (ys : List A) → n ≤ m → All (λ y. key y ≤ n) ys → All (λ y. key y ≤ m) ys
  All-ge_trans m n [] le h = tt
  All-ge_trans m n (y ∷ ys) le h = (omega arith, All-ge_trans m n ys le h.1)

  All-insert_up :
      (n : ℕ) (x : A) (ys : List A)
      → n ≤ key x
      → All (λ y. n ≤ key y) ys
      → All (λ y. n ≤ key y) (insert_up x ys)
  unfolding insert_up
  All-insert_up n x [] le h = (le, tt)
  All-insert_up n x (y ∷ ys) le h = ground (arith, All-insert_up n x ys le h.1)

  All-insert_down :
      (n : ℕ) (x : A) (ys : List A)
      → key x ≤ n
      → All (λ y. key y ≤ n) ys
      → All (λ y. key y ≤ n) (insert_down x ys)
  unfolding insert_down
  All-insert_down n x [] le h = (le, tt)
  All-insert_down n x (y ∷ ys) le h = ground (arith, All-insert_down n x ys le h.1)

  insert_up-IsSortedBy : (x : A) (ys : List A) → IsSortedBy key ys → IsSortedBy key (insert_up x ys)
  unfolding insert_up
  insert_up-IsSortedBy x [] h = (tt, tt)
  insert_up-IsSortedBy x (y ∷ ys) h = ground (
    arith,
    All-le_trans (key x) (key y) ys,
    All-insert_up (key y) x ys,
    insert_up-IsSortedBy x ys h.1,
  )

  pub sort_up-IsSortedBy : (xs : List A) → IsSortedBy key (sort_up xs)
  unfolding sort_up
  sort_up-IsSortedBy [] = tt
  sort_up-IsSortedBy (x ∷ xs) = insert_up-IsSortedBy x (sort_up xs) (sort_up-IsSortedBy xs)

  insert_down-IsSortedDesc :
      (x : A) (ys : List A) → IsSortedDesc key ys → IsSortedDesc key (insert_down x ys)
  unfolding insert_down
  insert_down-IsSortedDesc x [] h = (tt, tt)
  insert_down-IsSortedDesc x (y ∷ ys) h = ground (
    arith,
    All-ge_trans (key x) (key y) ys,
    All-insert_down (key y) x ys,
    insert_down-IsSortedDesc x ys h.1,
  )

  pub sort_down-IsSortedDesc : (xs : List A) → IsSortedDesc key (sort_down xs)
  unfolding sort_down
  sort_down-IsSortedDesc [] = tt
  sort_down-IsSortedDesc (x ∷ xs) =
      insert_down-IsSortedDesc x (sort_down xs) (sort_down-IsSortedDesc xs)

unfoldable pub after_all : List ℕ → ℕ
after_all [] = 1
after_all (i ∷ is) = max (i + 1) (after_all is)

not_from : (n : ℕ) (is : List ℕ) → after_all is ≤ n → any (λ i. i == n) is ≡ false
unfolding after_all
not_from n [] h = refl
not_from n (i ∷ is) h = ground (arith, not_from n is)

pub after_all_fresh : (is : List ℕ) → any (λ i. i == after_all is) is ≡ false
after_all_fresh is = not_from (after_all is) is (omega arith)

abbrev pub insertion_orm : Orm
insertion_orm = record {
  order_by = sort_up;
  order_by_desc = sort_down;
  next_id = after_all;
  count-order_by = count-sort_up;
  order_by-IsSortedBy = sort_up-IsSortedBy;
  count-order_by_desc = count-sort_down;
  order_by_desc-IsSortedDesc = sort_down-IsSortedDesc;
  next_id_fresh = after_all_fresh;
}
