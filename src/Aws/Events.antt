-- ===== src/Aws/Events.antt =====
-- The events of instances that AWS describes: `save_instance_events` and
-- `create_initial_aws_instance_events` (cloudigrade/api/clouds/aws/util.py). The value `none`
-- is an exception.
use cloudigrade.Prelude.{
  ℕ, Bool, true, false, ◌&&◌, ◌||◌, not, Option, none, some, List, [], ◌∷◌, ◌++◌, map, any, first,
  select, Text, text_eq, text_le, is_some, is_none, codes, leb, ◌==◌, if◌then◌else◌, ◌>>=◌,
}
use cloudigrade.Orm.{Orm}
use cloudigrade.Models.{
  EventType, power_on, aws, Instance, InstanceEvent, is_power_on, is_power_off,
}
use cloudigrade.Aws.Tables.{AwsInstance, AwsDb, instance_of}
use cloudigrade.Aws.Images.{ImageNames}
use cloudigrade.Aws.Instances.{InstanceData, save_instance}
use cloudigrade.Cloudtrail.Records.{Dates}

-- `InstanceState.is_running`
abbrev pub is_running : ℕ → Bool
is_running code = code == 16

-- `is_windows` of what AWS tells of an instance or an image.
abbrev pub is_windows : ImageNames → Option Text → Bool
is_windows names none = false
is_windows names (some platform) = text_eq (names.lower platform) (codes "windows")

-- The dicts that are saved as events.
pub record EventInfo : Type 0 where
  pub event_type : EventType
  pub occurred_at : Text
  pub instance_type : Option Text

abbrev pub is_power_on_info : EventInfo → Bool
is_power_on_info e = elim e.event_type [ power_on ↦ true | _ ↦ false ]

-- `sorted` by the text of the time, stable.
unfoldable pub insert_info : EventInfo → List EventInfo → List EventInfo
insert_info e [] = e ∷ []
insert_info e (f ∷ fs) =
    let rest = insert_info e fs in
    if text_le e.occurred_at f.occurred_at then e ∷ f ∷ fs else f ∷ rest

unfoldable pub sorted_infos : List EventInfo → List EventInfo
unfolding insert_info
sorted_infos [] = []
sorted_infos (e ∷ es) = insert_info e (sorted_infos es)

abbrev pub is_power_event : InstanceEvent → Bool
is_power_event e = is_power_on e || is_power_off e

module _ (orm : Orm) (now : ℕ) where
  abbrev pub new_event : ℕ → EventType → ℕ → Option Text → List InstanceEvent → InstanceEvent
  new_event instance_id event_type occurred_at instance_type events = record {
    id = orm.next_id (map (λ (e : InstanceEvent). e.id) events);
    instance_id = instance_id;
    event_type = event_type;
    occurred_at = occurred_at;
    created_at = now;
    updated_at = now;
    cloud_type = aws;
    instance_type = instance_type;
  }

  -- `AwsInstanceEvent.objects.create` and `InstanceEvent.objects.create`
  abbrev pub add_event : ℕ → EventType → ℕ → Option Text → AwsDb → AwsDb
  add_event instance_id event_type occurred_at instance_type w = record w {
    db = record w.db {
      events =
          w.db.events
          ++ new_event instance_id event_type occurred_at instance_type w.db.events ∷ [];
    };
  }

  unfoldable pub latest_event : ℕ → List InstanceEvent → Option InstanceEvent
  latest_event instance_id events = first (
      orm.order_by_desc (λ e. e.occurred_at)
        (select (λ e. e.instance_id == instance_id && leb e.occurred_at now) events))

  -- A power_on now, unless the latest event is one.
  unfoldable pub save_power_on : InstanceData → AwsDb → Instance → Option AwsDb
  unfolding latest_event
  save_power_on d w i = elim (latest_event i.id w.db.events) [
    | some last ↦
        if is_power_on last
        then some w
        else d.instance_type >>= λ t. some (add_event i.id power_on now (some t) w)
    | none ↦ d.instance_type >>= λ t. some (add_event i.id power_on now (some t) w)
  ]

  -- `save_instance_events` without events.
  unfoldable pub save_current_event : AwsInstance → InstanceData → AwsDb → Option AwsDb
  unfolding save_power_on
  save_current_event a d w = instance_of a w.db >>= save_power_on d w

  -- An event of the instance by `time` has a type.
  abbrev pub knows_type : ℕ → ℕ → InstanceEvent → Bool
  knows_type instance_id time f =
      f.instance_id == instance_id && leb f.occurred_at time && is_some f.instance_type

  -- The body of the loop: whether the described type was used by now, and the tables.
  unfoldable pub save_info :
      Dates → AwsInstance → InstanceData → EventInfo → Bool × AwsDb → Option (Bool × AwsDb)
  save_info dates a d e (have_instance_type, w) = dates.parse e.occurred_at >>= λ (time : ℕ).
      instance_of a w.db >>= λ (i : Instance).
      let is_special =
        not have_instance_type
        && is_power_on_info e
        && is_none e.instance_type
        && not (any (knows_type i.id time) w.db.events) in
      some (
        have_instance_type || is_special,
        add_event i.id e.event_type time (if is_special then d.instance_type else e.instance_type)
            w,
      )

  unfoldable pub save_infos :
      Dates → AwsInstance → InstanceData → List EventInfo → Bool × AwsDb → Option (Bool × AwsDb)
  unfolding save_info
  save_infos dates a d [] s = some s
  save_infos dates a d (e ∷ es) s = save_info dates a d e s >>= λ s'. save_infos dates a d es s'

  -- `save_instance_events` with events.
  unfoldable pub save_instance_events :
      Dates → AwsInstance → InstanceData → List EventInfo → AwsDb → Option AwsDb
  unfolding save_infos sorted_infos
  save_instance_events dates a d events w =
      save_infos dates a d (sorted_infos events) (false, w) >>= λ (s : Bool × AwsDb). some s.1

  -- The loops of `create_initial_aws_instance_events`.
  unfoldable pub create_initial_of_region :
      ImageNames → ℕ → Text → List InstanceData → AwsDb → Option AwsDb
  unfolding save_instance save_current_event
  create_initial_of_region names account_id region [] w = some w
  create_initial_of_region names account_id region (d ∷ ds) w =
      save_instance orm names account_id d region w >>= λ (saved : AwsInstance × AwsDb).
      d.state_code >>= λ (code : ℕ).
      (if is_running code then save_current_event saved.0 d saved.1 else some saved.1)
      >>= λ (w' : AwsDb). create_initial_of_region names account_id region ds w'

  unfoldable pub create_initial_aws_instance_events :
      ImageNames → ℕ → List (Text × List InstanceData) → AwsDb → Option AwsDb
  unfolding create_initial_of_region
  create_initial_aws_instance_events names account_id [] w = some w
  create_initial_aws_instance_events names account_id ((region, ds) ∷ regions) w =
      create_initial_of_region names account_id region ds w >>= λ (w' : AwsDb).
      create_initial_aws_instance_events names account_id regions w'
