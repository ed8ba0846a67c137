-- ===== src/Runs/Repair.antt =====
-- The main property of `recalculate_runs`: afterwards the saved runs of the event's instance cover an
-- instant exactly when the instance's events say that it was powered on.
use cloudigrade.Prelude.{
  ◌==◌, any-intro, ◌&&◌, ℕ, ◌≤◌, ◌<◌, ◌≡◌, refl, ◌∙◌, ap, Bool, true, false, ◌||◌, not, none, some,
  List, [], ◌∷◌, arith, any, select, inl, inr, Bool-cases, ltb, In, any-witness, select-In, ltb→lt,
  ◌≢◌,
}
use cloudigrade.Orm.{Orm}
use cloudigrade.Orm.Laws.{any-order_by}
use cloudigrade.Models.{InstanceEvent, Run, Db, is_power_on}
use cloudigrade.Runs.Scan.{DenormalizedRun, idle, runs_from}
use cloudigrade.Runs.Sorting.{DateTimes}
use cloudigrade.Runs.Denormalize.{denormalize_runs}
use cloudigrade.Runs.Coverage.{powered_on, has_clash, covers-runs_from}
use cloudigrade.Runs.History.{powered_on-recent, powered_on-before, powered_on_at}
use cloudigrade.Runs.Single.{has_instance, denormalize_one}
use cloudigrade.Runs.Relevant.{
  is_power_of, power_events, IsRecorded, relevant-OfInstance, relevant-IsSortedBy, relevant-clear,
  relevant-powered_on, earliest_time-le, earliest_time-recorded, is_recent,
}
use cloudigrade.Runs.Effects.{
  run_covers, covers_instance, denormalized_covers, runs_match-covers, save_new_runs-covers,
  runs_from-covers_instance,
}
use cloudigrade.Runs.Recalculate.{
  is_affected, affected_runs, earliest_time, relevant_events, runs_match_denormalized_runs,
  delete_runs, replace_runs, recalculate_runs,
}

any-split {ℓ} :
    {A : Type ℓ} (p q : A → Bool) (xs : List A)
    → any p xs ≡ any p (select (λ x. not (q x)) xs) || any p (select q xs)
any-split p q [] = refl
any-split p q (x ∷ xs) = ground (arith, any-split p q xs)

-- A power event of the event's instance at the event's time.
abbrev pub is_at_event : InstanceEvent → InstanceEvent → Bool
is_at_event event e = is_power_of event.instance_id e && e.occurred_at == event.occurred_at

-- The runs that `recalculate_runs` leaves alone.
abbrev kept : InstanceEvent → Db → List Run
kept event db = select (λ r. not (is_affected event r)) db.runs

module _ (orm : Orm) (now : ℕ) (event : InstanceEvent) (db : Db) where
  affected_runs-covers :
      (i t : ℕ)
      → covers_instance i (affected_runs orm db event) t
        ≡ covers_instance i (select (is_affected event) db.runs) t
  unfolding affected_runs
  affected_runs-covers i t =
      any-order_by orm (λ (r : Run). r.start_time) (run_covers i t)
        (select (is_affected event) db.runs)

  delete_runs-runs : (delete_runs (is_affected event) db).runs ≡ kept event db
  unfolding delete_runs
  delete_runs-runs = refl

  -- On both branches the saved runs cover what the kept and the denormalized runs cover.
  replace_runs-covers :
      (i t : ℕ) (ds : List DenormalizedRun)
      → covers_instance i (replace_runs orm now event db ds).1.runs t
        ≡ covers_instance i (kept event db) t || any (denormalized_covers i t) ds
  unfolding replace_runs
  replace_runs-covers i t ds =
      elim (Bool-cases (runs_match_denormalized_runs (affected_runs orm db event) ds)) [
        | inl same ↦
            rw
              (
                same,
                ← runs_match-covers i t (affected_runs orm db event) ds same,
                affected_runs-covers i t,
              )
              (any-split (run_covers i t) (is_affected event) db.runs)
        | inr differ ↦
            rw differ (save_new_runs-covers orm now i t ds (delete_runs (is_affected event) db))
      ]

  recalculate_runs-replace :
      (times : DateTimes) (ds : List DenormalizedRun)
      → denormalize_runs orm times db (relevant_events orm db event) ≡ some ds
      → recalculate_runs orm times now event db
        ≡ (some (replace_runs orm now event db ds).0, (replace_runs orm now event db ds).1)
  unfolding recalculate_runs
  recalculate_runs-replace times ds h = rw (h, recalculate_runs)

  abbrev of_instance : List Run → ℕ → Bool
  of_instance runs t = covers_instance event.instance_id runs t

  abbrev history : ℕ → Bool
  history t = powered_on (power_events db event.instance_id) t

  affected-covers_before :
      (t : ℕ)
      → t < earliest_time orm db event
      → of_instance (select (is_affected event) db.runs) t ≡ false
  affected-covers_before t lt =
      elim (Bool-cases (of_instance (select (is_affected event) db.runs) t)) [
        | inr e ↦ e
        | inl e ↦
            let (r, m, c) =
              any-witness (run_covers event.instance_id t) (select (is_affected event) db.runs) e in
            let (l, a) = select-In (is_affected event) r db.runs m in
            ground (arith, earliest_time-le orm db event r l a)
      ]

  kept-covers : (t : ℕ) → of_instance (kept event db) t ≡ true → t < event.occurred_at
  unfolding is_affected
  kept-covers t h =
      let (r, m, c) = any-witness (run_covers event.instance_id t) (kept event db) h in
      let (l, a) = select-In (λ r. not (is_affected event r)) r db.runs m in ground arith

  kept_or_recent :
      (t : ℕ)
      → any (is_at_event event) db.events ≡ true
      → IsRecorded db event
      → earliest_time orm db event ≤ event.occurred_at
      → (t < event.occurred_at → of_instance db.runs t ≡ history t)
      → of_instance (kept event db) t || powered_on (select (is_recent orm db event) db.events) t
        ≡ history t
  kept_or_recent t stored recorded reaches before =
      let from = earliest_time orm db event in
      let q = is_power_of event.instance_id in
      elim (Bool-cases (ltb t from)) [
        | inl early ↦ ground (
          arith,
          before (omega (arith, reaches, ltb→lt t from early)),
          any-split (run_covers event.instance_id t) (is_affected event) db.runs,
          affected-covers_before t (ltb→lt t from early),
          powered_on-before q from t db.events (ltb→lt t from early),
        )
        | inr late ↦ ground (
          arith,
          before,
          kept-covers t,
          any-split (run_covers event.instance_id t) (is_affected event) db.runs,
          powered_on-recent q from t db.events (λ e h. ground arith)
              (earliest_time-recorded orm db event stored recorded) (ground arith),
        )
      ]

-- As `recalculate_runs-covers`, for an event that need only stand where a stored power event stands.
pub recalculate_runs-covers_at :
    (orm : Orm) (times : DateTimes) (now : ℕ) (event : InstanceEvent) (db : Db)
    → has_instance db event.instance_id ≡ true
    → any (is_at_event event) db.events ≡ true
    → has_clash (power_events db event.instance_id) ≡ false
    → IsRecorded db event
    → earliest_time orm db event ≤ event.occurred_at
    → ((t : ℕ)
        → t < event.occurred_at
        → covers_instance event.instance_id db.runs t
          ≡ powered_on (power_events db event.instance_id) t)
    → ((recalculate_runs orm times now event db).0 ≢ none)
      × ((t : ℕ)
          → covers_instance event.instance_id (recalculate_runs orm times now event db).1.runs t
            ≡ powered_on (power_events db event.instance_id) t)
recalculate_runs-covers_at orm times now event db known stored clear recorded reaches before =
    let i = event.instance_id in
    let events = relevant_events orm db event in
    let sorted = relevant-IsSortedBy orm db event in
    let (make, maker, result) =
      denormalize_one orm times db i events known (relevant-OfInstance orm db event) sorted in
    let ds = runs_from make idle events in
    let replaced = recalculate_runs-replace orm now event db times ds result in
    (
      rw replaced (λ e. cc),
      λ t. rw replaced (
          replace_runs-covers orm now event db i t ds
          ∙ ap (λ b. covers_instance i (kept event db) t || b)
              (runs_from-covers_instance i make maker idle events t
                ∙ covers-runs_from make maker.starts maker.ends events t sorted
                    (relevant-clear orm db event clear)
                ∙ relevant-powered_on orm db event t)
          ∙ kept_or_recent orm now event db t stored recorded reaches (before t)),
    )

-- Recalculate from a stored power event of a stored instance. If no power_on and power_off of the
-- instance fall on one instant, each affected run begins at a recorded power event, there is no affected
-- run or one that begins no later than the event, and the saved runs of the instance were right at every
-- instant before the event, then the recalculation ends without an exception and the saved runs of the
-- instance cover every instant exactly when its events say that it was powered on.
pub recalculate_runs-covers :
    (orm : Orm) (times : DateTimes) (now : ℕ) (event : InstanceEvent) (db : Db)
    → has_instance db event.instance_id ≡ true
    → In event db.events
    → is_power_of event.instance_id event ≡ true
    → has_clash (power_events db event.instance_id) ≡ false
    → IsRecorded db event
    → earliest_time orm db event ≤ event.occurred_at
    → ((t : ℕ)
        → t < event.occurred_at
        → covers_instance event.instance_id db.runs t
          ≡ powered_on (power_events db event.instance_id) t)
    → ((recalculate_runs orm times now event db).0 ≢ none)
      × ((t : ℕ)
          → covers_instance event.instance_id (recalculate_runs orm times now event db).1.runs t
            ≡ powered_on (power_events db event.instance_id) t)
recalculate_runs-covers orm times now event db known stored power clear recorded reaches before =
    recalculate_runs-covers_at orm times now event db known
      (any-intro (is_at_event event) event db.events stored (ground arith)) clear recorded reaches
      before

-- For a stored power_on of a stored instance, no power_on and power_off of which fall on one instant:
-- when there is an affected run and each begins after the event, and no saved run of the instance covered
-- the event's instant, none covers it afterwards either, though the events say that the instance was
-- powered on: the event lies before the time from which the events are read.
pub recalculate_runs-backdated :
    (orm : Orm) (times : DateTimes) (now : ℕ) (event : InstanceEvent) (db : Db)
    → has_instance db event.instance_id ≡ true
    → In event db.events
    → is_power_on event ≡ true
    → has_clash (power_events db event.instance_id) ≡ false
    → event.occurred_at < earliest_time orm db event
    → covers_instance event.instance_id db.runs event.occurred_at ≡ false
    → (covers_instance event.instance_id
          (recalculate_runs orm times now event db).1.runs
          event.occurred_at
        ≡ false)
      × (powered_on (power_events db event.instance_id) event.occurred_at ≡ true)
recalculate_runs-backdated orm times now event db known stored on clear late uncovered =
    let i = event.instance_id in
    let t = event.occurred_at in
    let events = relevant_events orm db event in
    let sorted = relevant-IsSortedBy orm db event in
    let (make, maker, result) =
      denormalize_one orm times db i events known (relevant-OfInstance orm db event) sorted in
    let ds = runs_from make idle events in
    (
      rw (recalculate_runs-replace orm now event db times ds result) (
          replace_runs-covers orm now event db i t ds
          ∙ ap (λ b. covers_instance i (kept event db) t || b)
              (runs_from-covers_instance i make maker idle events t
                ∙ covers-runs_from make maker.starts maker.ends events t sorted
                    (relevant-clear orm db event clear)
                ∙ relevant-powered_on orm db event t
                ∙ powered_on-before (is_power_of i) (earliest_time orm db event) t db.events late)
          ∙ ground (arith, any-split (run_covers i t) (is_affected event) db.runs)),
      powered_on_at event (is_power_of i) db.events stored on (ground arith) clear,
    )
