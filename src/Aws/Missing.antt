-- ===== src/Aws/Missing.antt =====
-- `create_missing_power_off_aws_instance_events` (cloudigrade/api/clouds/aws/util.py).
use cloudigrade.Prelude.{
  ℕ, Bool, false, ◌&&◌, not, Option, none, some, List, [], ◌∷◌, any, first, select, Text, text_eq,
  ◌==◌, if◌then◌else◌, ◌>>=◌,
}
use cloudigrade.Orm.{Orm}
use cloudigrade.Models.{power_off, Instance, InstanceEvent, Db, is_power_on}
use cloudigrade.Aws.Tables.{AwsInstance, AwsDb, instance_of}
use cloudigrade.Aws.Instances.{InstanceData}
use cloudigrade.Aws.Events.{is_running, is_power_event, add_event}

-- A code that is absent or 0 is not running.
abbrev pub is_running_data : InstanceData → Bool
is_running_data d = elim d.state_code [
  | none ↦ false
  | some code ↦ not (code == 0) && is_running code
]

abbrev pub is_running_id : Text → List (Text × List InstanceData) → Bool
is_running_id ec2_instance_id regions =
    any
      (λ (r : Text × List InstanceData).
        any (λ d. is_running_data d && text_eq d.instance_id ec2_instance_id) r.1)
      regions

abbrev pub is_of_account : ℕ → Db → AwsInstance → Bool
is_of_account account_id db a =
    any (λ (i : Instance). i.id == a.instance_id && i.cloud_account_id == account_id) db.instances

module _ (orm : Orm) (now : ℕ) where
  unfoldable pub last_power_event : ℕ → List InstanceEvent → Option InstanceEvent
  last_power_event instance_id events = first (
      orm.order_by_desc (λ e. e.occurred_at)
        (select (λ e. e.instance_id == instance_id && is_power_event e) events))

  -- The body of the loop: the instance, where it is of the account and does not run by what AWS tells,
  -- but is on by its events.
  unfoldable pub still_running_instance :
      ℕ → List (Text × List InstanceData) → List InstanceEvent → Db → AwsInstance → Option Instance
  unfolding last_power_event
  still_running_instance account_id regions events db a =
      if is_of_account account_id db a && not (is_running_id a.ec2_instance_id regions)
      then (instance_of a db >>= λ (i : Instance).
          last_power_event i.id events >>= λ last. if is_power_on last then some i else none)
      else none

  -- EC2 ids are unique, so the dict has one entry for each instance.
  unfoldable pub still_running_instances :
      ℕ
      → List (Text × List InstanceData)
      → List InstanceEvent
      → Db
      → List AwsInstance
      → List Instance
  unfolding still_running_instance
  still_running_instances account_id regions events db [] = []
  still_running_instances account_id regions events db (a ∷ rows) =
      let rest = still_running_instances account_id regions events db rows in
      elim (still_running_instance account_id regions events db a) [
        | none ↦ rest
        | some i ↦ i ∷ rest
      ]

  unfoldable pub add_power_offs : List Instance → AwsDb → AwsDb
  add_power_offs [] w = w
  add_power_offs (i ∷ is) w = add_power_offs is (add_event orm now i.id power_off now none w)

  unfoldable pub create_missing_power_off_aws_instance_events :
      ℕ → List (Text × List InstanceData) → AwsDb → AwsDb
  unfolding still_running_instances add_power_offs
  create_missing_power_off_aws_instance_events account_id regions w =
      add_power_offs (still_running_instances account_id regions w.db.events w.db w.aws_instances) w
