-- ===== src/Orm.antt =====
-- The database below the models, which Django and PostgreSQL implement: a table is a list of rows,
-- and the order that a query asks for is the database's work.
pub mod Laws
pub mod Insertion
use cloudigrade.Prelude.{ℕ, ◌≡◌, ◌≤◌, Bool, false, List, [], ◌∷◌, All, count, any, ◌==◌}

-- In the order of a key, smallest first.
abbrev pub IsSortedBy : {A : Type 0} → (A → ℕ) → List A → Type 0
IsSortedBy key [] = Unit
IsSortedBy key (x ∷ xs) = All (λ y. key x ≤ key y) xs × IsSortedBy key xs

abbrev pub IsSortedDesc : {A : Type 0} → (A → ℕ) → List A → Type 0
IsSortedDesc key [] = Unit
IsSortedDesc key (x ∷ xs) = All (λ y. key y ≤ key x) xs × IsSortedDesc key xs

pub record Orm : Type 1 where
  -- `queryset.order_by("key")` and `queryset.order_by("-key")`: rows that tie come in any order.
  pub order_by : {A : Type 0} → (A → ℕ) → List A → List A
  pub order_by_desc : {A : Type 0} → (A → ℕ) → List A → List A
  -- the primary key that an INSERT is given
  pub next_id : List ℕ → ℕ
  pub count-order_by :
      {A : Type 0} (key : A → ℕ) (p : A → Bool) (xs : List A)
      → count p (order_by key xs) ≡ count p xs
  pub order_by-IsSortedBy :
      {A : Type 0} (key : A → ℕ) (xs : List A) → IsSortedBy key (order_by key xs)
  pub count-order_by_desc :
      {A : Type 0} (key : A → ℕ) (p : A → Bool) (xs : List A)
      → count p (order_by_desc key xs) ≡ count p xs
  pub order_by_desc-IsSortedDesc :
      {A : Type 0} (key : A → ℕ) (xs : List A) → IsSortedDesc key (order_by_desc key xs)
  pub next_id_fresh : (ids : List ℕ) → any (λ i. i == next_id ids) ids ≡ false
