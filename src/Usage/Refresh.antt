-- ===== src/Usage/Refresh.antt =====
-- The tasks that keep usage up to date (cloudigrade/api/tasks/calculation.py).
use cloudigrade.Prelude.{
  ◌≢◌, In, here, there, any-witness, leb→le, ℕ, zero, suc, ◌+◌, ◌-◌, ◌≤◌, ◌≡◌, refl, Bool, true,
  false, ◌&&◌, ◌||◌, not, Option, none, some, List, [], ◌∷◌, arith, max, map, if◌then◌else◌, any,
  leb, ltb, ◌==◌, inl, inr, Bool-cases, Option-cases, find, first,
}
use cloudigrade.Orm.{Orm}
use cloudigrade.Orm.Laws.{first-order_by_desc-none, first-order_by_desc-le}
use cloudigrade.Usage.Concurrency.{calculate-find}
use cloudigrade.Models.{User, Run, ConcurrentUsage, Db, date_of, microseconds_per_hour}
use cloudigrade.Runs.Recalculate.{is_related}
use cloudigrade.Usage.Calculate.{
  get_runs_for_user_id_on_date, is_usage_of, calculate_max_concurrent_usage,
}

module _ (orm : Orm) where
  -- The value of `needs_calculation` after the `try` block.
  unfoldable pub needs_calculation : ℕ → ℕ → Db → Bool
  unfolding get_runs_for_user_id_on_date
  needs_calculation user_id date db =
      let runs = get_runs_for_user_id_on_date db user_id date in
      elim (find (is_usage_of user_id date) db.usages) [
        | none ↦ true
        | some usage ↦ elim (first (orm.order_by_desc (λ (r : Run). r.updated_at) runs)) [
          | none ↦ false
          | some last_updated_run ↦
              if leb (last_updated_run.updated_at + microseconds_per_hour) usage.updated_at
              then false
              else any (λ (r : Run). not (is_related r.id usage)) runs
        ]
      ]

  unfoldable pub recalculate_concurrent_usage_for_user_id_on_date : ℕ → ℕ → ℕ → Db → Db
  unfolding needs_calculation calculate_max_concurrent_usage
  recalculate_concurrent_usage_for_user_id_on_date now user_id date db =
      if needs_calculation user_id date db
      then (calculate_max_concurrent_usage orm now date user_id db).1
      else db

-- The loop `while target_day <= today`, with the days for which a task is queued; `none` is out of fuel.
unfoldable pub queue_days : ℕ → ℕ → ℕ → Option (List ℕ)
queue_days zero today target_day = none
queue_days (suc fuel) today target_day =
    let rest : Option (List ℕ) = elim (queue_days fuel today (target_day + 1)) [
      | none ↦ none
      | some ds ↦ some (target_day ∷ ds)
    ] in
    if leb target_day today then rest else some []

-- The first day: no earlier than the day on which the user joined.
abbrev pub first_day : ℕ → ℕ → Option ℕ → User → ℕ
first_day today days_ago since user =
    max (date_of user.date_joined) (elim since [ none ↦ today - days_ago | some day ↦ day ])

-- Nothing is queued for an unknown user.
unfoldable pub recalculate_concurrent_usage_for_user_id :
    ℕ → ℕ → ℕ → Option ℕ → Db → Option (List ℕ)
unfolding queue_days
recalculate_concurrent_usage_for_user_id today days_ago user_id since db =
    elim (find (λ (u : User). u.id == user_id) db.users) [
      | none ↦ some []
      | some user ↦ queue_days (today + 2) today (first_day today days_ago since user)
    ]

queue_days-some :
    (fuel today day : ℕ)
    → today + 2 ≤ fuel + day
    → 1 ≤ fuel
    → (days : List ℕ) × (queue_days fuel today day ≡ some days)
      × ((d : ℕ) → any (λ x. x == d) days ≡ leb day d && leb d today)
unfolding queue_days
queue_days-some zero today day h k = absurd (omega arith)
queue_days-some (suc fuel) today day h k = elim (Bool-cases (leb day today)) [
  | inl e ↦
      let (days, got, exact) = queue_days-some fuel today (day + 1) (omega arith) (ground arith) in
      (day ∷ days, rw (e, got), λ d. ground (arith, exact d))
  | inr e ↦ ([], rw e, λ d. ground arith)
]

-- For a known user the task queues a calculation for exactly the days from the first day, which is the
-- later of the day on which the user joined and the day asked for, up to today.
pub recalculate_concurrent_usage_for_user_id-exact :
    (today days_ago user_id : ℕ) (since : Option ℕ) (db : Db) (user : User)
    → find (λ (u : User). u.id == user_id) db.users ≡ some user
    → (days : List ℕ) × (recalculate_concurrent_usage_for_user_id today days_ago user_id since db
        ≡ some days)
      × ((d : ℕ)
          → any (λ x. x == d) days ≡ leb (first_day today days_ago since user) d && leb d today)
unfolding recalculate_concurrent_usage_for_user_id
recalculate_concurrent_usage_for_user_id-exact today days_ago user_id since db user h =
    rw (h, recalculate_concurrent_usage_for_user_id)
      (queue_days-some (today + 2) today (first_day today days_ago since user) (omega arith)
        (omega arith))

has_id :
    (runs : List Run) (r : Run)
    → In r runs
    → any (λ i. i == r.id) (map (λ (r : Run). r.id) runs) ≡ true
has_id [] r m = elim m [ ]
has_id (_ ∷ rs) r here = ground arith
has_id (s ∷ rs) r (there m) = ground (arith, has_id rs r m)

-- The usage counts the run, or it is newer than the run's last update by an hour.
abbrev pub is_settled : ConcurrentUsage → Run → Bool
is_settled u r = is_related r.id u || leb (r.updated_at + microseconds_per_hour) u.updated_at

-- Each of the runs is settled.
abbrev pub AllSettled : List Run → ConcurrentUsage → Type 0
AllSettled runs u = any (λ (r : Run). not (is_settled u r)) runs ≡ false

related-AllSettled :
    (runs : List Run) (u : ConcurrentUsage)
    → u.potentially_related_runs ≡ map (λ (r : Run). r.id) runs
    → AllSettled runs u
related-AllSettled runs u h = elim (Bool-cases (any (λ (r : Run). not (is_settled u r)) runs)) [
  | inr e ↦ e
  | inl e ↦
      let (r, m, f) = any-witness (λ (r : Run). not (is_settled u r)) runs e in
      let found : is_related r.id u ≡ true = rw h (has_id runs r m) in ground arith
]

unrelated-AllSettled :
    (runs : List Run) (u : ConcurrentUsage)
    → any (λ (r : Run). not (is_related r.id u)) runs ≡ false
    → AllSettled runs u
unrelated-AllSettled [] u h = refl
unrelated-AllSettled (r ∷ rs) u h = ground (arith, unrelated-AllSettled rs u)

padded-AllSettled :
    (runs : List Run) (u : ConcurrentUsage) (n : ℕ)
    → n + microseconds_per_hour ≤ u.updated_at
    → any (λ (r : Run). ltb n r.updated_at) runs ≡ false
    → AllSettled runs u
padded-AllSettled [] u n le h = refl
padded-AllSettled (r ∷ rs) u n le h = ground (arith, padded-AllSettled rs u n le)

module _ (orm : Orm) (now user_id date : ℕ) (db : Db) where
  abbrev runs : List Run
  runs = get_runs_for_user_id_on_date db user_id date

  settled_otherwise :
      (u : ConcurrentUsage)
      → find (is_usage_of user_id date) db.usages ≡ some u
      → needs_calculation orm user_id date db ≡ false
      → AllSettled runs u
  unfolding needs_calculation
  settled_otherwise u e h =
      elim (Option-cases (first (orm.order_by_desc (λ (r : Run). r.updated_at) runs))) [
        | inl f ↦
            first-order_by_desc-none orm (λ (r : Run). r.updated_at) runs
              (λ r. not (is_settled u r)) f
        | inr (last, f) ↦
            elim (Bool-cases (leb (last.updated_at + microseconds_per_hour) u.updated_at)) [
              | inl g ↦
                  padded-AllSettled runs u last.updated_at (leb→le _ _ g)
                    (first-order_by_desc-le orm (λ (r : Run). r.updated_at) runs last f)
              | inr g ↦ unrelated-AllSettled runs u (rw (e, f, g, needs_calculation) at h)
            ]
      ]

no_usage :
    (orm : Orm) (user_id date : ℕ) (db : Db)
    → find (is_usage_of user_id date) db.usages ≡ none
    → needs_calculation orm user_id date db ≢ false
unfolding needs_calculation
no_usage orm user_id date db f e = cc (rw (f, needs_calculation) at e)

-- After the task for a known user and a date there is a saved usage, and each of the user's runs that
-- overlap the date is counted by it, or was last updated at least an hour before the usage was.
pub recalculate_concurrent_usage_for_user_id_on_date-settles :
    (orm : Orm) (now user_id date : ℕ) (db : Db)
    → any (λ (u : User). u.id == user_id) db.users ≡ true
    → (u : ConcurrentUsage) × (find
          (is_usage_of user_id date)
          (recalculate_concurrent_usage_for_user_id_on_date orm now user_id date db).usages
        ≡ some u)
      × AllSettled (get_runs_for_user_id_on_date db user_id date) u
unfolding recalculate_concurrent_usage_for_user_id_on_date
recalculate_concurrent_usage_for_user_id_on_date-settles orm now user_id date db known =
    elim (Bool-cases (needs_calculation orm user_id date db)) [
      | inl e ↦
          let (found, related) = calculate-find orm now date user_id db known in
          (
            (calculate_max_concurrent_usage orm now date user_id db).0,
            rw e found,
            related-AllSettled (get_runs_for_user_id_on_date db user_id date)
                (calculate_max_concurrent_usage orm now date user_id db).0 related,
          )
      | inr e ↦ elim (Option-cases (find (is_usage_of user_id date) db.usages)) [
        | inl f ↦ absurd (no_usage orm user_id date db f e)
        | inr (u, f) ↦ (u, rw (e, f), settled_otherwise orm now user_id date db u f e)
      ]
    ]
