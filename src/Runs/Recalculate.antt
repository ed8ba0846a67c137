-- ===== src/Runs/Recalculate.antt =====
-- `recalculate_runs` and its helpers (cloudigrade/api/util.py), with the database work of
-- `Run.save` and of the signal before a Run is deleted (cloudigrade/api/models.py).
use cloudigrade.Prelude.{
  ℕ, ◌/◌, ◌*◌, Bool, true, false, ◌&&◌, ◌||◌, not, Option, none, some, List, [], ◌∷◌, ◌++◌, map,
  leb, ltb, ◌==◌, if◌then◌else◌, text_eq, option_eq, first, select, any, length,
}
use cloudigrade.Orm.{Orm}
use cloudigrade.Models.{InstanceEvent, Run, ConcurrentUsage, Db, is_power_on, is_power_off}
use cloudigrade.Runs.Scan.{DenormalizedRun}
use cloudigrade.Runs.Sorting.{DateTimes}
use cloudigrade.Runs.Denormalize.{denormalize_runs}

-- None of the seven comparisons fails. A saved vCPU count is whole, a calculated one a decimal.
unfoldable pub run_matches : Run → DenormalizedRun → Bool
run_matches r d =
    r.start_time == d.start_time
    && option_eq ◌==◌ r.end_time d.end_time
    && option_eq ◌==◌ r.machineimage_id d.image_id
    && r.instance_id == d.instance_id
    && option_eq text_eq r.instance_type d.instance_type
    && option_eq ◌==◌ r.memory d.instance_memory
    && option_eq (λ whole hundredths. whole * 100 == hundredths) r.vcpu d.instance_vcpu

abbrev pub zip_matches : List Run → List DenormalizedRun → Bool
zip_matches [] ds = true
zip_matches (r ∷ rs) [] = true
zip_matches (r ∷ rs) (d ∷ ds) = run_matches r d && zip_matches rs ds

unfoldable pub runs_match_denormalized_runs : List Run → List DenormalizedRun → Bool
unfolding run_matches
runs_match_denormalized_runs runs ds =
    if length ds == length runs then zip_matches runs ds else false

-- The run began after the event, or it was in progress then or has no end.
unfoldable pub is_affected : InstanceEvent → Run → Bool
is_affected event r =
    r.instance_id == event.instance_id
    && (ltb event.occurred_at r.start_time
        || leb r.start_time event.occurred_at
          && (elim r.end_time [ none ↦ true | some end ↦ ltb event.occurred_at end ]))

-- The usage counts the run: `potentially_related_runs=run`.
abbrev pub is_related : ℕ → ConcurrentUsage → Bool
is_related run_id usage = any (λ i. i == run_id) usage.potentially_related_runs

-- `queryset.delete()` on runs: for each, the signal first deletes the usages that count it.
unfoldable pub delete_runs : (Run → Bool) → Db → Db
delete_runs p db = record db {
  usages = select (λ u. not (any (λ r. p r && is_related r.id u) db.runs)) db.usages;
  runs = select (λ r. not (p r)) db.runs;
}

-- The row that `Run(...).save()` inserts; an integer column keeps the whole part of a decimal.
unfoldable pub saved_run : ℕ → ℕ → DenormalizedRun → Run
saved_run id now d = record {
  id = id;
  start_time = d.start_time;
  end_time = d.end_time;
  machineimage_id = d.image_id;
  instance_id = d.instance_id;
  instance_type = d.instance_type;
  memory = d.instance_memory;
  vcpu = elim d.instance_vcpu [ none ↦ none | some hundredths ↦ some (hundredths / 100) ];
  created_at = now;
  updated_at = now;
}

module _ (orm : Orm) where
  -- `Run.save`: the insertion, then the deletion of the usages that count the run.
  unfoldable pub save_new_run : ℕ → DenormalizedRun → Db → Run × Db
  unfolding saved_run
  save_new_run now d db =
      let run = saved_run (orm.next_id (map (λ (r : Run). r.id) db.runs)) now d in
      (
        run,
        record db {
          runs = db.runs ++ run ∷ [];
          usages = select (λ u. not (is_related run.id u)) db.usages;
        },
      )

  unfoldable pub save_new_runs : ℕ → List DenormalizedRun → Db → List Run × Db
  unfolding save_new_run
  save_new_runs now [] db = ([], db)
  save_new_runs now (d ∷ ds) db =
      let (run, db') = save_new_run now d db in
      let (rest, db'') = save_new_runs now ds db' in (run ∷ rest, db'')

  unfoldable pub affected_runs : Db → InstanceEvent → List Run
  unfolding is_affected
  affected_runs db event = orm.order_by (λ r. r.start_time) (select (is_affected event) db.runs)

  unfoldable pub earliest_time : Db → InstanceEvent → ℕ
  unfolding affected_runs
  earliest_time db event = elim (first (affected_runs db event)) [
    | none ↦ event.occurred_at
    | some earliest_run ↦ earliest_run.start_time
  ]

  unfoldable pub relevant_events : Db → InstanceEvent → List InstanceEvent
  unfolding earliest_time
  relevant_events db event =
      orm.order_by (λ e. e.occurred_at)
        (select
          (λ e.
            e.instance_id == event.instance_id
            && leb (earliest_time db event) e.occurred_at
            && (is_power_on e || is_power_off e))
          db.events)

  -- Once the denormalized runs are there: nothing to do, or the affected runs give way to them.
  unfoldable pub replace_runs : ℕ → InstanceEvent → Db → List DenormalizedRun → List Run × Db
  unfolding affected_runs runs_match_denormalized_runs delete_runs save_new_runs
  replace_runs now event db denormalized_runs =
      if runs_match_denormalized_runs (affected_runs db event) denormalized_runs
      then ([], db)
      else save_new_runs now denormalized_runs (delete_runs (is_affected event) db)

  -- The new runs, or `none` for an exception, which rolls the transaction back.
  unfoldable pub recalculate_runs : DateTimes → ℕ → InstanceEvent → Db → Option (List Run) × Db
  unfolding relevant_events denormalize_runs replace_runs
  recalculate_runs times now event db =
      elim (denormalize_runs orm times db (relevant_events db event)) [
        | none ↦ (none, db)
        | some denormalized_runs ↦
            let (saved, db') = replace_runs now event db denormalized_runs in (some saved, db')
      ]
