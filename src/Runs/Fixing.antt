-- ===== src/Runs/Fixing.antt =====
-- What `_fix_problematic_run` (cloudigrade/api/tasks/calculation.py) mends.
use cloudigrade.Prelude.{
  ℕ, ◌≤◌, ◌<◌, ◌≡◌, Bool, true, false, none, some, List, [], ◌∷◌, arith, inl, inr, here, there,
  Bool-cases, In, any, any-witness, any-intro, select, select-In, find, ◌==◌,
}
use mathlib.Core.Path.{subst}
use cloudigrade.Orm.{Orm}
use cloudigrade.Orm.Laws.{first-order_by-any, first-order_by-select}
use cloudigrade.Models.{InstanceEvent, Run, Db}
use cloudigrade.Runs.Sorting.{DateTimes}
use cloudigrade.Runs.Coverage.{powered_on, has_clash}
use cloudigrade.Runs.Single.{has_instance}
use cloudigrade.Runs.Relevant.{power_events, IsRecorded, earliest_time-le}
use cloudigrade.Runs.Effects.{covers_instance}
use cloudigrade.Runs.Recalculate.{is_affected, earliest_time, recalculate_runs}
use cloudigrade.Runs.Repair.{recalculate_runs-covers_at, is_at_event}
use cloudigrade.Runs.Problematic.{is_open, is_off_since, oldest_power_off, fix_problematic_run}

find-In :
    {A : Type 0} (p : A → Bool) (xs : List A) {x : A} → find p xs ≡ some x → In x xs × (p x ≡ true)
find-In p [] h = cc
find-In p (y ∷ ys) {x} h = elim (Bool-cases (p y)) [
  | inl e ↦ let same : y ≡ x = cc (rw e at h) in rw (← same) (here, e)
  | inr e ↦ let (m, px) = find-In p ys (rw e at h) in (there m, px)
]

module _ (orm : Orm) (times : DateTimes) (now run_id : ℕ) (db : Db) (run : Run)
    (event : InstanceEvent) (stored : find (λ (r : Run). r.id == run_id) db.runs ≡ some run)
    (unended : is_open run ≡ true) (oldest : oldest_power_off orm db run ≡ some event) where
  oldest_power_off-is_off_since : is_off_since run event ≡ true
  unfolding oldest_power_off
  oldest_power_off-is_off_since =
      first-order_by-select orm (λ e. e.occurred_at) (is_off_since run) db.events event oldest

  oldest_power_off-stored : any (is_at_event event) db.events ≡ true
  unfolding oldest_power_off
  oldest_power_off-stored =
      let found =
        first-order_by-any orm (λ e. e.occurred_at) (select (is_off_since run) db.events) event
          (λ e. e.occurred_at == event.occurred_at) oldest (ground arith) in
      let (e, m, same) =
        any-witness (λ (e : InstanceEvent). e.occurred_at == event.occurred_at) _ found in
      let (l, off) = select-In (is_off_since run) e db.events m in
      any-intro (is_at_event event) e db.events l (ground (arith, oldest_power_off-is_off_since))

  oldest_power_off-reaches : earliest_time orm db event ≤ event.occurred_at
  unfolding is_affected
  oldest_power_off-reaches =
      let (m, _) = find-In (λ (r : Run). r.id == run_id) db.runs stored in
      let off = oldest_power_off-is_off_since in
      let starts : run.start_time ≤ event.occurred_at = ground arith in
      let le = earliest_time-le orm db event run m (ground arith) in omega arith

  fix_problematic_run-recalculate :
      fix_problematic_run orm times now run_id db
      ≡ (elim (recalculate_runs orm times now event db).0 [
        | none ↦ none
        | some _ ↦ some (recalculate_runs orm times now event db).1
      ])
  unfolding fix_problematic_run
  fix_problematic_run-recalculate = ground arith

-- Fix a stored run that has no end, of a stored instance that has a power_off since the run's start. If
-- no power_on and power_off of the instance fall on one instant, each run that the oldest such power_off
-- affects begins at a recorded power event, and the instance's saved runs were right at every instant
-- before that power_off, then the fix ends without an exception, and afterwards the saved runs of the
-- instance cover every instant exactly when its power events say that it was powered on.
pub fix_problematic_run-covers :
    (orm : Orm) (times : DateTimes) (now run_id : ℕ) (db : Db) (run : Run) (event : InstanceEvent)
    → find (λ (r : Run). r.id == run_id) db.runs ≡ some run
    → is_open run ≡ true
    → oldest_power_off orm db run ≡ some event
    → has_instance db event.instance_id ≡ true
    → has_clash (power_events db event.instance_id) ≡ false
    → IsRecorded db event
    → ((t : ℕ)
        → t < event.occurred_at
        → covers_instance event.instance_id db.runs t
          ≡ powered_on (power_events db event.instance_id) t)
    → (db' : Db) × (fix_problematic_run orm times now run_id db ≡ some db')
      × ((t : ℕ)
          → covers_instance run.instance_id db'.runs t
            ≡ powered_on (power_events db run.instance_id) t)
fix_problematic_run-covers orm times now run_id db run event stored unended oldest known clear
      recorded before =
    let (returned, right) =
      recalculate_runs-covers_at orm times now event db known
        (oldest_power_off-stored orm times now run_id db run event stored unended oldest) clear
        recorded (oldest_power_off-reaches orm times now run_id db run event stored unended oldest)
        before in
    let off =
      oldest_power_off-is_off_since orm times now run_id db run event stored unended oldest in
    let same : event.instance_id ≡ run.instance_id = ground arith in
    let steps =
      fix_problematic_run-recalculate orm times now run_id db run event stored unended oldest in
    (
      (recalculate_runs orm times now event db).1,
      ground (arith, steps, returned),
      λ t.
          subst
            (λ i.
              covers_instance i (recalculate_runs orm times now event db).1.runs t
              ≡ powered_on (power_events db i) t)
            same (right t),
    )
