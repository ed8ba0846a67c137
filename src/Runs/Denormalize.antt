-- ===== src/Runs/Denormalize.antt =====
-- `denormalize_runs` (cloudigrade/api/util.py): the events of any instances, sorted and grouped by
-- instance, and the runs of each group. `none` is the exception Instance.DoesNotExist.
use cloudigrade.Prelude.{
  ℕ, Bool, true, false, ◌&&◌, Option, none, some, List, [], ◌∷◌, ◌++◌, leb, ◌==◌, Text, text_eq,
  first, find, select,
}
use cloudigrade.Orm.{Orm}
use cloudigrade.Models.{
  InstanceEvent, MachineImage, Instance, InstanceDefinition, Db, CloudType, aws, cloud_type_eq,
}
use cloudigrade.Models.Images.{is_cloud_access, is_marketplace, openshift, rhel, rhel_detected}
use cloudigrade.Runs.Scan.{DenormalizedRun, idle, runs_from}
use cloudigrade.Runs.Sorting.{DateTimes, sorted_events, Group, groupby}

abbrev pub has_text : Option Text → Bool
has_text none = false
has_text (some _) = true

module _ (orm : Orm) where
  unfoldable pub get_last_known_instance_type : Db → ℕ → ℕ → Option Text
  get_last_known_instance_type db instance before_date =
      elim (first (
        orm.order_by_desc (λ e. e.occurred_at)
          (select
            (λ e.
              e.instance_id == instance
              && leb e.occurred_at before_date
              && (cloud_type_eq e.cloud_type aws && has_text e.instance_type))
            db.events))) [ none ↦ none | some event ↦ event.instance_type ]

  -- `events[0].content_object.instance_type or get_last_known_instance_type(...)`
  unfoldable pub group_instance_type : Db → InstanceEvent → Option Text
  unfolding get_last_known_instance_type
  group_instance_type db event = elim event.instance_type [
    | none ↦ get_last_known_instance_type db event.instance_id event.occurred_at
    | some [] ↦ get_last_known_instance_type db event.instance_id event.occurred_at
    | some (c ∷ cs) ↦ some (c ∷ cs)
  ]

-- `InstanceDefinition.objects.get(...)`, with None for DoesNotExist: a NULL type has no definition.
unfoldable pub type_definition : Db → Option Text → CloudType → Option InstanceDefinition
type_definition db none cloud_type = none
type_definition db (some instance_type) cloud_type =
    find (λ d. text_eq d.instance_type instance_type && cloud_type_eq d.cloud_type cloud_type)
      db.definitions

-- The `machine_image` of an instance: a foreign key, so its row is there.
unfoldable pub machine_image : Db → Instance → Option MachineImage
machine_image db instance = elim instance.machine_image_id [
  | none ↦ none
  | some id ↦ find (λ (image : MachineImage). image.id == id) db.machine_images
]

abbrev pub image_flag : (MachineImage → Bool) → Option MachineImage → Bool
image_flag flag none = false
image_flag flag (some image) = flag image

-- The arguments of `DenormalizedRun(...)`.
unfoldable pub make_run :
    ℕ
    → Option MachineImage
    → Option Text
    → Option InstanceDefinition
    → ℕ
    → Option ℕ
    → DenormalizedRun
make_run instance_id image instance_type definition start_run end_run = record {
  start_time = start_run;
  end_time = end_run;
  image_id = elim image [ none ↦ none | some i ↦ some i.id ];
  instance_id = instance_id;
  instance_type = instance_type;
  instance_memory = elim definition [ none ↦ none | some d ↦ some d.memory_mib ];
  instance_vcpu = elim definition [ none ↦ none | some d ↦ some d.vcpu_hundredths ];
  is_cloud_access = image_flag is_cloud_access image;
  is_encrypted = image_flag (λ i. i.is_encrypted) image;
  is_marketplace = image_flag is_marketplace image;
  openshift = image_flag openshift image;
  openshift_detected = image_flag (λ i. i.openshift_detected) image;
  rhel = image_flag rhel image;
  rhel_detected = image_flag rhel_detected image;
}

-- `denormalized_runs` grows group by group; an exception ends the loop.
abbrev pub append_runs :
    Option (List DenormalizedRun) → Option (List DenormalizedRun) → Option (List DenormalizedRun)
append_runs none rest = none
append_runs (some runs) none = none
append_runs (some runs) (some rest) = some (runs ++ rest)

module _ (orm : Orm) where
  -- The body of the loop over the groups.
  unfoldable pub denormalize_group : Db → Group → Option (List DenormalizedRun)
  unfolding group_instance_type
  denormalize_group db group =
      let kind : Option Text = group_instance_type orm db group.head in
      elim (find (λ (i : Instance). i.id == group.instance_id) db.instances) [
        | none ↦ none
        | some instance ↦ some (
            runs_from
              (make_run group.instance_id (machine_image db instance) kind
                (type_definition db kind group.head.cloud_type))
              idle (group.head ∷ group.tail))
      ]

  unfoldable pub denormalize_groups : Db → List Group → Option (List DenormalizedRun)
  unfolding denormalize_group
  denormalize_groups db [] = some []
  denormalize_groups db (g ∷ gs) = append_runs (denormalize_group db g) (denormalize_groups db gs)

  unfoldable pub denormalize_runs :
      DateTimes → Db → List InstanceEvent → Option (List DenormalizedRun)
  unfolding denormalize_groups sorted_events groupby
  denormalize_runs times db events = denormalize_groups db (groupby (sorted_events times events))
