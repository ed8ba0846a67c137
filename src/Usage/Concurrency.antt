-- ===== src/Usage/Concurrency.antt =====
-- No instant has more matching runs in progress than the calculated maximum says, whatever the runs.
use cloudigrade.Prelude.{
  map, ℕ, ◌+◌, ◌≤◌, ◌≡◌, refl, Bool, true, false, ◌&&◌, not, none, some, List, [], ◌∷◌, ◌++◌, arith,
  if◌then◌else◌, count, inl, inr, Bool-cases, Option-cases, leb, ltb, All, any, find, select, ◌==◌,
}
use cloudigrade.Orm.{Orm, IsSortedBy}
use cloudigrade.Models.{ConcurrentKey, MachineImage, MaximumCount, User, Run, Db}
use cloudigrade.Models.Images.{rhel, syspurpose}
use cloudigrade.Runs.Coverage.{period_covers}
use cloudigrade.Usage.Tally.{key_eq, Results, result_keys}
use cloudigrade.Usage.Entries.{entry_at, weight}
use cloudigrade.Usage.Calculate.{
  OnOff, image_of_run, on_offs_of, run_on_offs, rhel_on_offs, insert_on_off, sorted_on_offs,
  maximum_counts_from, calculated_counts, simplified, calculate_max_concurrent_usage,
  get_runs_for_user_id_on_date, get_max_concurrent_usage, is_usage_of,
}
use cloudigrade.Usage.Peak.{starts_by, ends_by, final-bound}

-- The run is of a RHEL image, and `k` is among the keys of its image.
unfoldable pub is_counted : Db → ConcurrentKey → Run → Bool
is_counted db k r = elim (image_of_run db r) [
  | none ↦ false
  | some image ↦
      rhel image && any (λ j. key_eq j k) (result_keys (syspurpose image) image.architecture)
]

-- The count that is given for a key, 0 where the key is absent.
unfoldable pub instances_count : ConcurrentKey → List MaximumCount → ℕ
instances_count k [] = 0
instances_count k (c ∷ cs) = if key_eq c.key k then c.instances_count else instances_count k cs

-- No run ends before it starts.
abbrev pub EndsAfterStart : Run → Type 0
EndsAfterStart r = elim r.end_time [ none ↦ Unit {0} | some end ↦ r.start_time ≤ end ]

All-insert_on_off :
    (n : ℕ) (x : OnOff) (ys : List OnOff)
    → n ≤ x.time
    → All (λ y. n ≤ y.time) ys
    → All (λ y. n ≤ y.time) (insert_on_off x ys)
unfolding insert_on_off
All-insert_on_off n x [] le h = (le, tt)
All-insert_on_off n x (y ∷ ys) le h = ground (arith, All-insert_on_off n x ys le h.1)

All-later :
    (m n : ℕ) (ys : List OnOff) → m ≤ n → All (λ y. n ≤ y.time) ys → All (λ y. m ≤ y.time) ys
All-later m n [] le h = tt
All-later m n (y ∷ ys) le h = (omega arith, All-later m n ys le h.1)

insert_on_off-IsSortedBy :
    (x : OnOff) (ys : List OnOff)
    → IsSortedBy (λ y. y.time) ys
    → IsSortedBy (λ y. y.time) (insert_on_off x ys)
unfolding insert_on_off
insert_on_off-IsSortedBy x [] h = (tt, tt)
insert_on_off-IsSortedBy x (y ∷ ys) h = ground (
  arith,
  All-later x.time y.time ys,
  All-insert_on_off y.time x ys,
  insert_on_off-IsSortedBy x ys h.1,
)

sorted_on_offs-IsSortedBy : (xs : List OnOff) → IsSortedBy (λ y. y.time) (sorted_on_offs xs)
unfolding sorted_on_offs
sorted_on_offs-IsSortedBy [] = tt
sorted_on_offs-IsSortedBy (x ∷ xs) =
    insert_on_off-IsSortedBy x (sorted_on_offs xs) (sorted_on_offs-IsSortedBy xs)

module _ (k : ConcurrentKey) (t : ℕ) where
  insert_on_off-sums :
      (x : OnOff) (ys : List OnOff)
      → (starts_by k t (insert_on_off x ys) ≡ starts_by k t (x ∷ ys))
        × (ends_by k t (insert_on_off x ys) ≡ ends_by k t (x ∷ ys))
  unfolding insert_on_off
  insert_on_off-sums x [] = (refl, refl)
  insert_on_off-sums x (y ∷ ys) = elim (Bool-cases (leb x.time y.time)) [
    | inl e ↦ rw e (refl, refl)
    | inr e ↦ rw e (omega (arith, insert_on_off-sums x ys))
  ]

  sorted_on_offs-sums :
      (xs : List OnOff)
      → (starts_by k t (sorted_on_offs xs) ≡ starts_by k t xs)
        × (ends_by k t (sorted_on_offs xs) ≡ ends_by k t xs)
  unfolding sorted_on_offs
  sorted_on_offs-sums [] = (refl, refl)
  sorted_on_offs-sums (x ∷ xs) =
      omega (arith, insert_on_off-sums x (sorted_on_offs xs), sorted_on_offs-sums xs)

  append-sums :
      (xs ys : List OnOff)
      → (starts_by k t (xs ++ ys) ≡ starts_by k t xs + starts_by k t ys)
        × (ends_by k t (xs ++ ys) ≡ ends_by k t xs + ends_by k t ys)
  append-sums [] ys = omega arith
  append-sums (x ∷ xs) ys = omega (arith, append-sums xs ys)

  count-pos : {A : Type 0} (p : A → Bool) (xs : List A) → any p xs ≡ true → 1 ≤ count p xs
  count-pos p [] h = cc
  count-pos p (x ∷ xs) h = ground (arith, count-pos p xs)

  on_offs_of-sums :
      (r : Run) (image : MachineImage)
      → EndsAfterStart r
      → (if any (λ j. key_eq j k) (result_keys (syspurpose image) image.architecture)
              && period_covers t r.start_time r.end_time
            then 1
            else 0)
          + ends_by k t (on_offs_of r image)
        ≤ starts_by k t (on_offs_of r image)
  unfolding weight
  on_offs_of-sums r image h =
      ground
        (arith, count-pos (λ j. key_eq j k) (result_keys (syspurpose image) image.architecture))

  run_on_offs-sums :
      (db : Db) (r : Run)
      → EndsAfterStart r
      → (if is_counted db k r && period_covers t r.start_time r.end_time then 1 else 0)
          + ends_by k t (run_on_offs db r)
        ≤ starts_by k t (run_on_offs db r)
  unfolding run_on_offs is_counted
  run_on_offs-sums db r h = elim (Option-cases (image_of_run db r)) [
    | inl e ↦ rw (e, is_counted, run_on_offs) (omega arith)
    | inr (image, e) ↦
        rw (e, is_counted, run_on_offs)
          (elim (Bool-cases (rhel image)) [
            | inl f ↦ rw f (on_offs_of-sums r image h)
            | inr f ↦ rw f (omega arith)
          ])
  ]

  rhel_on_offs-sums :
      (db : Db) (runs : List Run)
      → All EndsAfterStart runs
      → count (λ r. is_counted db k r && period_covers t r.start_time r.end_time) runs
          + ends_by k t (rhel_on_offs db runs)
        ≤ starts_by k t (rhel_on_offs db runs)
  unfolding rhel_on_offs
  rhel_on_offs-sums db [] h = omega arith
  rhel_on_offs-sums db (r ∷ rs) h = omega (
    arith,
    run_on_offs-sums db r h.0,
    append-sums (run_on_offs db r) (rhel_on_offs db rs),
    rhel_on_offs-sums db rs h.1,
  )

simplified-count :
    (k : ConcurrentKey) (results : Results)
    → instances_count k (simplified results) ≡ (entry_at k results).max_count
unfolding instances_count
simplified-count k [] = refl
simplified-count k ((j, e) ∷ results) = ground (arith, simplified-count k results)

-- For runs that end no earlier than they start: at every instant the number of runs in progress that
-- are counted under a key is no more than the maximum that is calculated for it.
pub calculated_counts-bound :
    (db : Db) (runs : List Run) (k : ConcurrentKey) (t : ℕ)
    → All EndsAfterStart runs
    → count (λ r. is_counted db k r && period_covers t r.start_time r.end_time) runs
      ≤ instances_count k (calculated_counts db runs)
unfolding calculated_counts
calculated_counts-bound db runs k t h =
    let xs = rhel_on_offs db runs in
    omega (
      arith,
      simplified-count k (maximum_counts_from [] (sorted_on_offs xs)),
      rhel_on_offs-sums k t db runs h,
      sorted_on_offs-sums k t xs,
      final-bound k t (sorted_on_offs xs) [] 0 0 (sorted_on_offs-IsSortedBy xs)
          (record { balance = omega arith; bounded = omega arith }),
    )

ltb-of_le : (a b : ℕ) → a ≤ b → ltb b a ≡ false
ltb-of_le a b h = ground arith

find-append :
    {A : Type 0} (p : A → Bool) (xs : List A) (y : A)
    → p y ≡ true
    → find p (select (λ x. not (p x)) xs ++ y ∷ []) ≡ some y
find-append p [] y h = rw h
find-append p (x ∷ xs) y h = elim (Bool-cases (p x)) [
  | inl e ↦ rw e (find-append p xs y h)
  | inr e ↦ rw (e, e) (find-append p xs y h)
]

count-append :
    {A : Type 0} (p : A → Bool) (xs : List A) (y : A)
    → p y ≡ true
    → count p (select (λ x. not (p x)) xs ++ y ∷ []) ≡ 1
count-append p [] y h = rw h (omega arith)
count-append p (x ∷ xs) y h = elim (Bool-cases (p x)) [
  | inl e ↦ rw e (count-append p xs y h)
  | inr e ↦ rw (e, e) (omega (arith, count-append p xs y h))
]

module _ (orm : Orm) (now date user_id : ℕ) (db : Db)
    (known : any (λ (u : User). u.id == user_id) db.users ≡ true) where
  -- The calculated usage is the one that is found, and it is related to the runs of the date.
  pub calculate-find :
      let (usage, db') = calculate_max_concurrent_usage orm now date user_id db in
      (find (is_usage_of user_id date) db'.usages ≡ some usage)
      × (usage.potentially_related_runs
          ≡ map (λ (r : Run). r.id) (get_runs_for_user_id_on_date db user_id date))
  unfolding calculate_max_concurrent_usage
  calculate-find =
      rw known (find-append (is_usage_of user_id date) db.usages _ (ground arith), refl)

  -- For a known user and a date that is not in the future, what `get_max_concurrent_usage` reads after
  -- a calculation is what the calculation returned, and it is the only row of the user for the date.
  pub calculate_then_get :
      (today : ℕ)
      → date ≤ today
      → let (usage, db') = calculate_max_concurrent_usage orm now date user_id db in
        (get_max_concurrent_usage db' today date user_id ≡ some usage)
        × (count (is_usage_of user_id date) db'.usages ≡ 1)
  unfolding calculate_max_concurrent_usage get_max_concurrent_usage
  calculate_then_get today le =
      rw (known, ltb-of_le date today le)
        (
          find-append (is_usage_of user_id date) db.usages _ (ground arith),
          count-append (is_usage_of user_id date) db.usages _ (ground arith),
        )
