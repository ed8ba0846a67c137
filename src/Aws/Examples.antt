-- ===== src/Aws/Examples.antt =====
-- The theorems about the instances that AWS tells of, at concrete inputs.
use cloudigrade.Prelude.{
  ℕ, ◌≡◌, refl, Bool, true, false, ◌||◌, Option, none, some, List, [], ◌∷◌, codes, ◌≤◌, any, count,
  arith, here, ◌==◌,
}
use cloudigrade.Orm.Insertion.{insertion_orm, sort_down}
use cloudigrade.Models.{EventType, power_on, aws, Instance, empty_db}
use cloudigrade.Runs.Coverage.{powered_on}
use cloudigrade.Runs.Relevant.{power_events}
use cloudigrade.Aws.Tables.{AwsInstance, AwsDb}
use cloudigrade.Aws.Images.{ImageNames}
use cloudigrade.Aws.Instances.{InstanceData, save_instance}
use cloudigrade.Aws.Linked.{IsLinkedInstance, save_instance-links}
use cloudigrade.Aws.Events.{EventInfo, save_current_event, save_instance_events}
use cloudigrade.Aws.Missing.{create_missing_power_off_aws_instance_events}
use cloudigrade.Aws.Stopped.{create_missing_power_off_aws_instance_events-powered_on}
use cloudigrade.Aws.Started.{save_current_event-powered_on}
use cloudigrade.Aws.Recorded.{is_stored, is_given, save_instance_events-any}
use cloudigrade.Aws.Describe.{Regions, AmiMessage, message_eq, generate_aws_ami_messages}
use cloudigrade.Aws.Announced.{is_announced_in, generate_aws_ami_messages-exact}
use cloudigrade.Cloudtrail.Records.{Dates}

abbrev names : ImageNames
names = record { lower = λ t. t; rhel_images_aws_accounts = [] }

abbrev or_else {ℓ} : {A : Type ℓ} → A → Option A → A
or_else a none = a
or_else a (some b) = b

abbrev aws_instance : AwsInstance
aws_instance = record { ec2_instance_id = codes "i-1"; region = codes "r"; instance_id = 7 }

abbrev instance_seven : Instance
instance_seven = record { id = 7; cloud_account_id = 1; machine_image_id = none }

-- The instance, powered on at 10.
abbrev instance_db : AwsDb
instance_db = record {
  db = record empty_db {
    instances = instance_seven ∷ [];
    events =
        record {
          id = 1;
          instance_id = 7;
          event_type = power_on;
          occurred_at = 10;
          created_at = 10;
          updated_at = 10;
          cloud_type = aws;
          instance_type = none;
        }
        ∷ [];
  };
  aws_cloud_accounts = [];
  aws_instances = aws_instance ∷ [];
  aws_machine_images = [];
  inspection_starts = [];
}

abbrev running : InstanceData
running = record {
  instance_id = codes "i-1";
  image_id = some (codes "ami-1");
  instance_type = some (codes "t2");
  state_code = some 16;
  platform = none;
}

abbrev linked : AwsInstance × AwsDb
linked =
    or_else (aws_instance, instance_db)
      (save_instance insertion_orm names 1 running (codes "r") instance_db)

save_instance-links_example :
    IsLinkedInstance (codes "i-1") (codes "r") (codes "ami-1") (linked.0, linked.1)
unfolding save_instance
save_instance-links_example =
    save_instance-links insertion_orm names 1 running (codes "r") (codes "ami-1") instance_db
      linked.1 linked.0 refl refl

create_missing_power_off_aws_instance_events-powered_on_example :
    powered_on
      (power_events
        (create_missing_power_off_aws_instance_events insertion_orm 20 1 [] instance_db).db
        7)
      25
    ≡ false
create_missing_power_off_aws_instance_events-powered_on_example =
    create_missing_power_off_aws_instance_events-powered_on insertion_orm 20 25 1 [] instance_db
      aws_instance instance_seven here refl refl refl refl (omega arith)

save_current_event-powered_on_example : powered_on (power_events instance_db.db 7) 20 ≡ true
unfolding save_current_event sort_down
save_current_event-powered_on_example =
    save_current_event-powered_on insertion_orm 20 instance_seven instance_db refl refl aws_instance
      running instance_db refl refl

-- Every text is the time 15.
abbrev dates : Dates
dates = record { parse = λ t. some 15 }

abbrev given : List EventInfo
given = record { event_type = power_on; occurred_at = codes "t"; instance_type = none } ∷ []

abbrev is_at : ℕ → EventType → ℕ → Bool
is_at n event_type time = time == n

abbrev recorded : AwsDb
recorded =
    or_else instance_db
      (save_instance_events insertion_orm 15 dates aws_instance running given instance_db)

save_instance_events-any_example :
    any
      (is_stored insertion_orm 15 dates aws_instance running instance_seven (is_at 15))
      recorded.db.events
    ≡ (any
          (is_stored insertion_orm 15 dates aws_instance running instance_seven (is_at 15))
          instance_db.db.events
        || any
            (is_given insertion_orm 15 dates aws_instance running instance_seven (is_at 15))
            given)
unfolding save_instance_events
save_instance_events-any_example =
    save_instance_events-any insertion_orm 15 dates aws_instance running instance_seven (is_at 15)
      given instance_db recorded refl refl

abbrev regions : Regions
regions = (codes "r", running ∷ running ∷ []) ∷ []

abbrev message : AmiMessage
message = (codes "r", codes "ami-1")

generate_aws_ami_messages-exact_example :
    (any (message_eq message) (message ∷ [])
      ≡ any (is_announced_in names (codes "ami-1" ∷ []) message) regions)
    × (count (message_eq message) (message ∷ []) ≤ 1)
unfolding generate_aws_ami_messages
generate_aws_ami_messages-exact_example =
    generate_aws_ami_messages-exact names (codes "ami-1" ∷ []) message regions (message ∷ []) refl
