-- ===== src/Runs/Problematic.antt =====
-- Runs that should have ended: `find_problematic_runs` (cloudigrade/api/util.py) and
-- `_fix_problematic_run`, `fix_problematic_runs` (cloudigrade/api/tasks/calculation.py).
use cloudigrade.Prelude.{
  ℕ, Bool, true, false, ◌&&◌, Option, none, some, List, [], ◌∷◌, leb, ◌==◌, option_eq,
  if◌then◌else◌, first, select, any, find,
}
use cloudigrade.Orm.{Orm}
use cloudigrade.Models.{InstanceEvent, Run, Db, is_power_off}
use cloudigrade.Runs.Sorting.{DateTimes}
use cloudigrade.Runs.Recalculate.{recalculate_runs}
use cloudigrade.Usage.Calculate.{user_of_run, is_user}

-- `end_time=None`
abbrev pub is_open : Run → Bool
is_open r = elim r.end_time [ none ↦ true | some _ ↦ false ]

-- A power_off of the run's instance at its start or later.
abbrev pub is_off_since : Run → InstanceEvent → Bool
is_off_since r e =
    e.instance_id == r.instance_id && leb r.start_time e.occurred_at && is_power_off e

-- `if user_id`: None and 0 filter nothing.
abbrev pub user_filter : Db → Option ℕ → Run → Bool
user_filter db none r = true
user_filter db (some user_id) r = if user_id == 0 then true else is_user (user_of_run db r) user_id

module _ (orm : Orm) where
  unfoldable pub find_problematic_runs : Option ℕ → Db → List Run
  unfolding user_of_run
  find_problematic_runs user_id db =
      select (λ r. any (is_off_since r) db.events)
        (orm.order_by (λ r. r.id) (select (λ r. user_filter db user_id r && is_open r) db.runs))

  unfoldable pub oldest_power_off : Db → Run → Option InstanceEvent
  oldest_power_off db r =
      first (orm.order_by (λ e. e.occurred_at) (select (is_off_since r) db.events))

  -- The database afterwards, or `none` for an exception.
  unfoldable pub fix_problematic_run : DateTimes → ℕ → ℕ → Db → Option Db
  unfolding oldest_power_off recalculate_runs
  fix_problematic_run times now run_id db = elim (find (λ (r : Run). r.id == run_id) db.runs) [
    | none ↦ some db
    | some run ↦ elim (oldest_power_off db run) [
      | none ↦ some db
      | some event ↦
          if option_eq ◌==◌ run.end_time (some event.occurred_at)
          then some db
          else (let (saved, db') = recalculate_runs orm times now event db in
              elim saved [ none ↦ none | some _ ↦ some db' ])
    ]
  ]

  -- An exception ends the loop over the ids; what was fixed before it stays.
  unfoldable pub fix_problematic_runs : DateTimes → ℕ → List ℕ → Db → Db
  unfolding fix_problematic_run
  fix_problematic_runs times now [] db = db
  fix_problematic_runs times now (i ∷ is) db = elim (fix_problematic_run times now i db) [
    | none ↦ db
    | some db' ↦ fix_problematic_runs times now is db'
  ]
