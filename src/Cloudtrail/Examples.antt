-- ===== src/Cloudtrail/Examples.antt =====
-- The theorems about what is saved of CloudTrail's messages, at concrete inputs.
use cloudigrade.Prelude.{
  ◌≡◌, refl, true, false, ◌&&◌, none, some, List, [], ◌∷◌, Text, codes, any, find, ◌++◌, Bool,
  if◌then◌else◌,
}
use cloudigrade.Orm.Insertion.{insertion_orm, after_all}
use cloudigrade.Models.{aws, power_on, pending, MachineImage, empty_db}
use cloudigrade.Aws.Tables.{none_platform, AwsMachineImage, AwsDb}
use cloudigrade.Aws.Images.{ImageNames}
use cloudigrade.Cloudtrail.Records.{Dates, CloudTrailInstanceEvent}
use cloudigrade.Cloudtrail.Loading.{Describing, is_known_image, drop_events_for_paused_accounts}
use cloudigrade.Cloudtrail.Saving.{save_cloudtrail_activity}
use cloudigrade.Cloudtrail.Known.{save_cloudtrail_activity-known}
use cloudigrade.Cloudtrail.Process.{
  no_content, LogFile, Message, parse_aws_account_id, process_cloudtrail_message, read_logs,
  Analyzed, analyze_log,
}
use cloudigrade.Aws.Images.{has_image_id}
use cloudigrade.Cloudtrail.Tags.{TagChanges, update_images_with_rhel_tag_changes}
use cloudigrade.Cloudtrail.Stale.{update_images_with_rhel_tag_changes-keeps_usages}
use cloudigrade.Cloudtrail.Messages.{succeeds, tables_after, analyze_log-succeeds}
use cloudigrade.Cloudtrail.Paused.{is_running_account, drop_events_for_paused_accounts-exact}

abbrev names : ImageNames
names = record { lower = λ t. t; rhel_images_aws_accounts = [] }

-- Every text is the time 20.
abbrev dates : Dates
dates = record { parse = λ t. some 20 }

-- AWS knows of nothing.
abbrev describing : Describing
describing = record {
  describe_instances = λ arn ids region. some [];
  describe_images = λ arn ids region. some [];
}

abbrev account_db : AwsDb
account_db = record {
  db = record empty_db {
    cloud_accounts =
        record {
          id = 1;
          user_id = 5;
          is_enabled = true;
          enabled_at = some 10;
          platform_authentication_id = 6;
          platform_application_id = 4;
          platform_application_is_paused = false;
          is_synthetic = false;
          created_at = 0;
          content_object = some aws;
        }
        ∷ [];
  };
  aws_cloud_accounts =
      record { id = 3; aws_account_id = codes "1"; account_arn = codes "arn"; cloud_account_id = 1 }
      ∷ [];
  aws_instances = [];
  aws_machine_images = [];
  inspection_starts = [];
}

abbrev event : CloudTrailInstanceEvent
event = record {
  occurred_at = codes "t";
  aws_account_id = codes "1";
  region = codes "r";
  ec2_instance_id = codes "i-1";
  event_type = power_on;
  instance_type = some (codes "t2");
  ec2_ami_id = some (codes "ami-1");
  subnet_id = none;
}

drop_events_for_paused_accounts-exact_example :
    any (λ (e : CloudTrailInstanceEvent). true) (event ∷ [])
    ≡ any
        (λ (e : CloudTrailInstanceEvent). is_running_account account_db e.aws_account_id && true)
        (event ∷ [])
unfolding drop_events_for_paused_accounts
drop_events_for_paused_accounts-exact_example =
    drop_events_for_paused_accounts-exact (λ (e : CloudTrailInstanceEvent). e.aws_account_id)
      account_db (λ e. true) (event ∷ []) (event ∷ []) refl

abbrev saved : List (Text × AwsMachineImage) × AwsDb
saved =
    elim (save_cloudtrail_activity insertion_orm names dates 30 true (event ∷ []) [] [] []
      account_db) [ none ↦ ([], account_db) | some s ↦ s ]

save_cloudtrail_activity-known_example : is_known_image saved.1 (codes "ami-1") ≡ true
unfolding save_cloudtrail_activity after_all
save_cloudtrail_activity-known_example =
    save_cloudtrail_activity-known insertion_orm names dates 30 true (codes "ami-1") (event ∷ []) []
      [] [] account_db saved refl refl

abbrev empty_log : LogFile
empty_log = record { key = codes "AWSLogs/1/a"; content = no_content }

-- A message whose body cannot be read, and one with an empty log.
abbrev unreadable : Message
unreadable = record { message_id = codes "a"; files = none }

abbrev empty_message : Message
empty_message = record { message_id = codes "b"; files = some (empty_log ∷ []) }

abbrev analyze : List Message → AwsDb → Analyzed
analyze messages w = analyze_log insertion_orm names dates describing 5 30 true messages w

abbrev is_success : Message → AwsDb → Bool
is_success m w = succeeds insertion_orm names dates describing 5 30 true m w

is_success_empty : is_success empty_message account_db ≡ true
unfolding process_cloudtrail_message read_logs parse_aws_account_id
is_success_empty = refl

analyze_log-succeeds_example :
    let (successes, failures, w') = analyze (unreadable ∷ []) account_db in
    let (successes', failures', w_end) =
      analyze
        (unreadable ∷ [])
        (tables_after insertion_orm names dates describing 5 30 true empty_message w') in
    analyze (unreadable ∷ empty_message ∷ unreadable ∷ []) account_db ≡ (
      successes ++ (if is_success empty_message w' then empty_message ∷ [] else []) ++ successes',
      failures ++ (if is_success empty_message w' then [] else empty_message ∷ []) ++ failures',
      w_end,
    )
analyze_log-succeeds_example =
    analyze_log-succeeds insertion_orm names dates describing 5 30 true (unreadable ∷ [])
      (unreadable ∷ []) empty_message account_db

abbrev image : MachineImage
image = record {
  id = 3;
  inspection_json = none;
  is_encrypted = false;
  status = pending;
  rhel_detected_by_tag = false;
  openshift_detected = false;
  architecture = none;
  content_object = none;
}

abbrev aws_image : AwsMachineImage
aws_image = record {
  ec2_ami_id = codes "ami-1";
  platform = none_platform;
  owner_aws_account_id = none;
  region = none;
  aws_marketplace_image = false;
  machine_image_id = 3;
  name = none;
}

abbrev image_db : AwsDb
image_db = record account_db {
  db = record empty_db { machine_images = image ∷ [] };
  aws_machine_images = aws_image ∷ [];
}

abbrev tagged : TagChanges
tagged = record { tagged_ami_ids = codes "ami-1" ∷ []; untagged_ami_ids = [] }

update_images_with_rhel_tag_changes-keeps_usages_example :
    let w' = update_images_with_rhel_tag_changes tagged image_db in
    (find (has_image_id 3) w'.db.machine_images
      ≡ some (record image { rhel_detected_by_tag = true }))
    × (w'.db.usages ≡ [])
update_images_with_rhel_tag_changes-keeps_usages_example =
    update_images_with_rhel_tag_changes-keeps_usages tagged image_db image refl refl refl
