-- ===== src/Runs/Recent.antt =====
-- `recalculate_runs_for_instance_id` and `recalculate_runs_for_cloud_account_id`
-- (cloudigrade/api/util.py).
use cloudigrade.Prelude.{
  ℕ, ◌-◌, ◌*◌, Bool, true, ◌&&◌, ◌||◌, Option, none, some, List, [], ◌∷◌, leb, ◌==◌, if◌then◌else◌,
  first, select, any, map,
}
use cloudigrade.Orm.{Orm}
use cloudigrade.Models.{
  InstanceEvent, Instance, Run, Db, is_power_on, is_power_off, microseconds_per_day,
}
use cloudigrade.Runs.Sorting.{DateTimes}
use cloudigrade.Runs.Recalculate.{recalculate_runs}

abbrev pub is_power : InstanceEvent → Bool
is_power e = is_power_on e || is_power_off e

-- Created, updated or occurred at the time or later.
abbrev pub is_since : ℕ → InstanceEvent → Bool
is_since since e = leb since e.created_at || leb since e.updated_at || leb since e.occurred_at

-- `instance__cloud_account_id=cloud_account_id`
abbrev pub is_of_account : Db → ℕ → InstanceEvent → Bool
is_of_account db cloud_account_id e =
    any (λ (i : Instance). i.id == e.instance_id && i.cloud_account_id == cloud_account_id)
      db.instances

-- `.values("instance_id").order_by("instance_id").distinct()`
abbrev pub distinct : List ℕ → List ℕ
distinct [] = []
distinct (i ∷ is) = let rest = distinct is in if any (λ j. j == i) rest then rest else i ∷ rest

module _ (orm : Orm) where
  unfoldable pub latest_run : ℕ → Db → Option Run
  latest_run instance_id db = first (
      orm.order_by_desc (λ (r : Run). r.created_at)
        (select (λ (r : Run). r.instance_id == instance_id) db.runs))

  unfoldable pub oldest_relevant_event : ℕ → Db → Option InstanceEvent
  unfolding latest_run
  oldest_relevant_event instance_id db =
      let recent : InstanceEvent → Bool =
        λ e. elim (latest_run instance_id db) [ none ↦ true | some r ↦ is_since r.created_at e ] in
      first (
        orm.order_by (λ e. e.created_at)
          (select (λ e. e.instance_id == instance_id && is_power e && recent e) db.events))

  -- The recalculated runs, or `none` for an exception.
  unfoldable pub recalculate_runs_for_instance_id : DateTimes → ℕ → ℕ → Db → Option (List Run) × Db
  unfolding oldest_relevant_event recalculate_runs
  recalculate_runs_for_instance_id times now instance_id db =
      elim (oldest_relevant_event instance_id db) [
        | none ↦ (some [], db)
        | some event ↦ recalculate_runs orm times now event db
      ]

  -- The loop over the instances; an exception ends it.
  unfoldable pub recalculate_instances : DateTimes → ℕ → List ℕ → Db → Db
  unfolding recalculate_runs_for_instance_id
  recalculate_instances times now [] db = db
  recalculate_instances times now (i ∷ is) db =
      let (saved, db') = recalculate_runs_for_instance_id times now i db in
      elim saved [ none ↦ db' | some _ ↦ recalculate_instances times now is db' ]

  unfoldable pub relevant_instance_ids : ℕ → ℕ → Db → List ℕ
  relevant_instance_ids cloud_account_id since db = distinct (
      orm.order_by (λ i. i)
        (map (λ (e : InstanceEvent). e.instance_id)
          (select (λ e. is_of_account db cloud_account_id e && is_power e && is_since since e)
            db.events)))

  -- `since`, or the configured number of days before now.
  unfoldable pub recalculate_runs_for_cloud_account_id : DateTimes → ℕ → ℕ → ℕ → Option ℕ → Db → Db
  unfolding relevant_instance_ids recalculate_instances
  recalculate_runs_for_cloud_account_id times now days_ago cloud_account_id since db =
      let from : ℕ = elim since [
        | none ↦ now - days_ago * microseconds_per_day
        | some time ↦ time
      ] in
      recalculate_instances times now (relevant_instance_ids cloud_account_id from db) db
