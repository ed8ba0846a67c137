-- ===== src/Runs/Fresh.antt =====
-- The first calculation of an instance's runs.
use cloudigrade.Prelude.{
  sym, ◌≢◌, Option-cases, ℕ, ◌≤◌, ◌<◌, ◌≡◌, ◌∙◌, Bool, true, false, ◌&&◌, none, some, arith, inl,
  inr, Bool-cases, any, any-witness, any-intro, any-false, select, select-In, first, ltb, ◌==◌,
}
use mathlib.Core.Path.{subst}
use cloudigrade.Orm.{Orm}
use cloudigrade.Orm.Laws.{first-order_by-any, first-order_by-select}
use cloudigrade.Models.{InstanceEvent, Run, Db}
use cloudigrade.Runs.Sorting.{DateTimes}
use cloudigrade.Runs.Coverage.{powered_on, has_clash, keeps_on}
use cloudigrade.Runs.Single.{has_instance}
use cloudigrade.Runs.Relevant.{is_power_of, power_events, IsRecorded, earliest_time-none}
use cloudigrade.Runs.Effects.{covers_instance, run_covers}
use cloudigrade.Runs.Recalculate.{is_affected, affected_runs, earliest_time, recalculate_runs}
use cloudigrade.Runs.Repair.{recalculate_runs-covers_at, is_at_event}
use cloudigrade.Runs.Recent.{oldest_relevant_event, recalculate_runs_for_instance_id}

module _ (db : Db) (i : ℕ) where
  -- No saved run is of the instance.
  abbrev pub has_run : Bool
  has_run = any (λ (r : Run). r.instance_id == i) db.runs

  nothing_covers : (t : ℕ) → has_run ≡ false → covers_instance i db.runs t ≡ false
  nothing_covers t h = elim (Bool-cases (covers_instance i db.runs t)) [
    | inr e ↦ e
    | inl e ↦
        let (r, m, c) = any-witness (run_covers i t) db.runs e in
        let f = any-false (λ (r : Run). r.instance_id == i) r db.runs h m in ground arith
  ]

  off_before :
      (t n : ℕ)
      → any (λ e. is_power_of i e && ltb e.occurred_at n) db.events ≡ false
      → t < n
      → powered_on (power_events db i) t ≡ false
  off_before t n h lt = elim (Bool-cases (powered_on (power_events db i) t)) [
    | inr e ↦ e
    | inl e ↦
        let (x, m, k) = any-witness (keeps_on (power_events db i) t) (power_events db i) e in
        let (l, p) = select-In (is_power_of i) x db.events m in
        let f = any-false (λ e. is_power_of i e && ltb e.occurred_at n) x db.events h l in
        ground arith
  ]

  nothing-IsRecorded :
      (event : InstanceEvent) → event.instance_id ≡ i → has_run ≡ false → IsRecorded db event
  unfolding is_affected
  nothing-IsRecorded event same h r m a =
      let f = any-false (λ (r : Run). r.instance_id == i) r db.runs h m in ground arith

module _ (orm : Orm) (db : Db) (i : ℕ) (event : InstanceEvent)
    (oldest : oldest_relevant_event orm i db ≡ some event) where
  oldest-is_power_of : is_power_of i event ≡ true
  unfolding oldest_relevant_event
  oldest-is_power_of =
      let q = first-order_by-select orm (λ e. e.created_at) _ db.events event oldest in ground arith

  oldest-stored : any (is_at_event event) db.events ≡ true
  unfolding oldest_relevant_event
  oldest-stored =
      let found =
        first-order_by-any orm (λ (e : InstanceEvent). e.created_at) _ event
          (λ e. e.occurred_at == event.occurred_at) oldest (ground arith) in
      let (e, m, same) =
        any-witness (λ (e : InstanceEvent). e.occurred_at == event.occurred_at) _ found in
      let (l, off) = select-In _ e db.events m in
      any-intro (is_at_event event) e db.events l (ground (arith, oldest-is_power_of))

  oldest-reaches : has_run db i ≡ false → earliest_time orm db event ≤ event.occurred_at
  unfolding affected_runs is_affected
  oldest-reaches h = elim (Option-cases (first (affected_runs orm db event))) [
    | inl e ↦ rw (earliest_time-none orm db event e) (omega arith)
    | inr (y, e) ↦
        let a =
          first-order_by-select orm (λ (r : Run). r.start_time) (is_affected event) db.runs y e in
        let found =
          first-order_by-any orm (λ (r : Run). r.start_time) (select (is_affected event) db.runs) y
            (λ r. r.instance_id == i) e (ground (arith, oldest-is_power_of)) in
        let (r, m, same) =
          any-witness (λ (r : Run). r.instance_id == i) (select (is_affected event) db.runs)
            found in
        let (l, _) = select-In (is_affected event) r db.runs m in
        let f = any-false (λ (r : Run). r.instance_id == i) r db.runs h l in ground arith
  ]

-- The first calculation for a stored instance that has a relevant event and no saved run. If none of its
-- power events occurred before its relevant event of the earliest creation, and no power_on and power_off
-- of it fall on one instant, then the calculation ends without an exception, and afterwards the saved runs of the
-- instance cover every instant exactly when its power events say that it was powered on.
pub recalculate_runs_for_instance_id-covers :
    (orm : Orm) (times : DateTimes) (now i : ℕ) (db : Db) (event : InstanceEvent)
    → has_instance db i ≡ true
    → has_run db i ≡ false
    → oldest_relevant_event orm i db ≡ some event
    → any (λ e. is_power_of i e && ltb e.occurred_at event.occurred_at) db.events ≡ false
    → has_clash (power_events db i) ≡ false
    → ((recalculate_runs_for_instance_id orm times now i db).0 ≢ none)
      × ((t : ℕ)
          → covers_instance i (recalculate_runs_for_instance_id orm times now i db).1.runs t
            ≡ powered_on (power_events db i) t)
unfolding recalculate_runs_for_instance_id
recalculate_runs_for_instance_id-covers orm times now i db event known fresh oldest first_on clear =
    let power = oldest-is_power_of orm db i event oldest in
    let same : event.instance_id ≡ i = ground arith in
    let result =
      recalculate_runs-covers_at orm times now event db (rw same known)
        (oldest-stored orm db i event oldest) (rw same clear)
        (nothing-IsRecorded db i event same fresh) (oldest-reaches orm db i event oldest fresh)
        (λ t lt.
          rw same (
            nothing_covers db i t fresh ∙ sym (off_before db i t event.occurred_at first_on lt))) in
    rw (oldest, recalculate_runs_for_instance_id)
      (
        result.0,
        λ t.
            subst
              (λ j.
                covers_instance j (recalculate_runs orm times now event db).1.runs t
                ≡ powered_on (power_events db j) t)
              same (result.1 t),
      )
