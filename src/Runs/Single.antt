-- ===== src/Runs/Single.antt =====
-- `denormalize_runs` on the events of one instance, as every caller in the program uses it.
use cloudigrade.Prelude.{
  find-any, ℕ, ◌≤◌, ◌≡◌, refl, ◌∙◌, ap, Bool, true, false, Option, none, some, List, [], ◌∷◌, arith,
  All, any, find, Text, ◌==◌,
}
use mathlib.Core.List.{append-nil}
use cloudigrade.Orm.{Orm, IsSortedBy}
use cloudigrade.Models.{InstanceEvent, Instance, Db, MachineImage, InstanceDefinition}
use cloudigrade.Runs.Scan.{DenormalizedRun, idle, runs_from}
use cloudigrade.Runs.Sorting.{
  DateTimes, Group, OfInstance, sorted_events, groupby, sorted_events-IsSortedBy,
  groupby-OfInstance,
}
use cloudigrade.Runs.Sorted.{
  sorted_events-OfInstance, sorted_events-sorts, powered_on-sorted_events, has_clash-sorted_events,
}
use cloudigrade.Runs.Coverage.{covers, powered_on, has_clash, covers-runs_from}
use cloudigrade.Runs.Chronology.{IsChronological, runs_from-IsChronological}
use cloudigrade.Runs.Denormalize.{
  make_run, machine_image, group_instance_type, type_definition, denormalize_group,
  denormalize_groups, denormalize_runs,
}

-- The foreign key of an event: its instance has a row.
abbrev pub has_instance : Db → ℕ → Bool
has_instance db i = any (λ (x : Instance). x.id == i) db.instances

All-from_zero : (es : List InstanceEvent) → All (λ e. 0 ≤ e.occurred_at) es
All-from_zero [] = tt
All-from_zero (e ∷ es) = (omega arith, All-from_zero es)

-- What fills in a run keeps the times that it is given, and the instance.
pub record IsMaker (i : ℕ) (make : ℕ → Option ℕ → DenormalizedRun) : Type 0 where
  pub starts : (s : ℕ) (d : Option ℕ) → (make s d).start_time ≡ s
  pub ends : (s : ℕ) (d : Option ℕ) → (make s d).end_time ≡ d
  pub instance : (s : ℕ) (d : Option ℕ) → (make s d).instance_id ≡ i

module _ (orm : Orm) (times : DateTimes) where
  denormalize_group-known :
      (db : Db) (i : ℕ) (e : InstanceEvent) (es : List InstanceEvent) (x : Instance)
      → find (λ (x : Instance). x.id == i) db.instances ≡ some x
      → denormalize_group orm db (record { instance_id = i; head = e; tail = es })
        ≡ some (
            runs_from
              (make_run i
                (machine_image db x)
                (group_instance_type orm db e)
                (type_definition db (group_instance_type orm db e) e.cloud_type))
              idle
              (e ∷ es))
  unfolding denormalize_group
  denormalize_group-known db i e es x found = rw (found, denormalize_group)

  denormalize_runs-groups :
      (db : Db) (es : List InstanceEvent)
      → denormalize_runs orm times db es
        ≡ denormalize_groups orm db (groupby (sorted_events times es))
  unfolding denormalize_runs
  denormalize_runs-groups db es = refl

  one_group :
      (db : Db) (g : Group) (rs : List DenormalizedRun)
      → denormalize_group orm db g ≡ some rs
      → denormalize_groups orm db (g ∷ []) ≡ some rs
  unfolding denormalize_groups
  one_group db g rs h = rw (h, append-nil)

  make_run-IsMaker :
      (i : ℕ) (image : Option MachineImage) (kind : Option Text)
      (definition : Option InstanceDefinition)
      → IsMaker i (make_run i image kind definition)
  unfolding make_run
  make_run-IsMaker i image kind definition = record {
    starts = λ s d. refl;
    ends = λ s d. refl;
    instance = λ s d. refl;
  }

  no_groups :
      (db : Db) (make : ℕ → Option ℕ → DenormalizedRun)
      → denormalize_groups orm db (groupby []) ≡ some (runs_from make idle [])
  unfolding denormalize_groups groupby runs_from
  no_groups db make = refl

  sorted_groups :
      (db : Db) (i : ℕ) (ss : List InstanceEvent)
      → has_instance db i ≡ true
      → OfInstance i ss
      → (make : ℕ → Option ℕ → DenormalizedRun) × IsMaker i make
        × (denormalize_groups orm db (groupby ss) ≡ some (runs_from make idle ss))
  sorted_groups db i [] known of =
      (make_run i none none none, make_run-IsMaker i none none none, no_groups db _)
  sorted_groups db i (e ∷ es) known of =
      let (x, found) = find-any (λ (x : Instance). x.id == i) db.instances known in
      let kind = group_instance_type orm db e in
      let image = machine_image db x in
      let definition = type_definition db kind e.cloud_type in
      (
        make_run i image kind definition,
        make_run-IsMaker i image kind definition,
        ap (denormalize_groups orm db) (groupby-OfInstance i e es of)
            ∙ one_group db (record { instance_id = i; head = e; tail = es })
                (runs_from (make_run i image kind definition) idle (e ∷ es))
                (denormalize_group-known db i e es x found),
      )

  -- The events of one instance in any order.
  denormalize_sorted :
      (db : Db) (i : ℕ) (es : List InstanceEvent)
      → has_instance db i ≡ true
      → OfInstance i es
      → (make : ℕ → Option ℕ → DenormalizedRun) × IsMaker i make
        × (denormalize_runs orm times db es ≡ some (runs_from make idle (sorted_events times es)))
  denormalize_sorted db i es known of =
      let (make, maker, result) =
        sorted_groups db i (sorted_events times es) known
          (sorted_events-OfInstance times i es of) in
      (make, maker, denormalize_runs-groups db es ∙ result)

  pub denormalize_one :
      (db : Db) (i : ℕ) (es : List InstanceEvent)
      → has_instance db i ≡ true
      → OfInstance i es
      → IsSortedBy (λ e. e.occurred_at) es
      → (make : ℕ → Option ℕ → DenormalizedRun) × IsMaker i make
        × (denormalize_runs orm times db es ≡ some (runs_from make idle es))
  denormalize_one db i es known of sorted =
      let (make, maker, result) = denormalize_sorted db i es known of in
      (
        make,
        maker,
        result
            ∙ ap (λ ss. some (runs_from make idle ss))
                (sorted_events-IsSortedBy times i es of sorted),
      )

-- For the events of one stored instance, in any order, of which no power_on and power_off are at the
-- same instant: the runs exist, and they cover an instant exactly when the instance was powered on then.
pub denormalize_runs-covers :
    (orm : Orm) (times : DateTimes) (db : Db) (i : ℕ) (es : List InstanceEvent)
    → has_instance db i ≡ true
    → OfInstance i es
    → has_clash es ≡ false
    → (runs : List DenormalizedRun) × (denormalize_runs orm times db es ≡ some runs)
      × ((t : ℕ) → covers runs t ≡ powered_on es t)
denormalize_runs-covers orm times db i es known of clear =
    let (make, maker, result) = denormalize_sorted orm times db i es known of in
    let ss = sorted_events times es in
    (
      runs_from make idle ss,
      result,
      λ t.
          covers-runs_from make maker.starts maker.ends ss t (sorted_events-sorts times i es of)
            (has_clash-sorted_events times es ∙ clear)
          ∙ powered_on-sorted_events times es t,
    )

-- For the events of one stored instance, in any order: the runs exist and follow one another, none ends
-- before it starts, and only the last may be open.
pub denormalize_runs-IsChronological :
    (orm : Orm) (times : DateTimes) (db : Db) (i : ℕ) (es : List InstanceEvent)
    → has_instance db i ≡ true
    → OfInstance i es
    → (runs : List DenormalizedRun) × (denormalize_runs orm times db es ≡ some runs)
      × IsChronological 0 runs
denormalize_runs-IsChronological orm times db i es known of =
    let (make, maker, result) = denormalize_sorted orm times db i es known of in
    let ss = sorted_events times es in
    (
      runs_from make idle ss,
      result,
      runs_from-IsChronological make maker.starts maker.ends ss 0
          (sorted_events-sorts times i es of) (All-from_zero ss),
    )
