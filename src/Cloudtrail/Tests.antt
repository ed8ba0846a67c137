-- ===== src/Cloudtrail/Tests.antt =====
-- The theorems about CloudTrail records and tag changes at concrete inputs.
use cloudigrade.Prelude.{
  ◌≡◌, refl, Bool, true, false, ◌&&◌, Option, none, some, List, [], ◌∷◌, Text, codes, any, here,
  is_in_texts,
}
use cloudigrade.Models.{aws, power_on, empty_db}
use cloudigrade.Aws.Tables.{AwsDb}
use cloudigrade.Cloudtrail.Records.{
  object, InstanceItem, plain_type, RequestParameters, Record, Dates, CloudTrailInstanceEvent,
  rhel_tag,
}
use cloudigrade.Cloudtrail.Extract.{
  is_truthy, event_type_of, is_valid_event, extract_time_account_region, is_relevant_event,
  extract_ec2_instance_events,
}
use cloudigrade.Cloudtrail.Relevance.{IsWatched, extract_ec2_instance_events-IsWatched}
use cloudigrade.Cloudtrail.Found.{
  item_of, event_of, IsReadable, extract_ec2_instance_events-exact,
  extract_ec2_instance_events_raises,
}
use cloudigrade.Cloudtrail.Tags.{TagEvent, groupby, extract_ami_ids_by_tag_change}
use cloudigrade.Cloudtrail.Changes.{extract_ami_ids_by_tag_change-disjoint}
use cloudigrade.Cloudtrail.Latest.{extract_ami_ids_by_tag_change-latest}
use cloudigrade.Cloudtrail.Interleaved.{extract_ami_ids_by_tag_change_interleaved}

abbrev watched_db : AwsDb
watched_db = record {
  db = record empty_db {
    cloud_accounts =
        record {
          id = 1;
          user_id = 5;
          is_enabled = true;
          enabled_at = some 10;
          platform_authentication_id = 6;
          platform_application_id = 4;
          platform_application_is_paused = false;
          is_synthetic = false;
          created_at = 0;
          content_object = some aws;
        }
        ∷ [];
  };
  aws_cloud_accounts =
      record { id = 3; aws_account_id = codes "1"; account_arn = codes "arn"; cloud_account_id = 1 }
      ∷ [];
  aws_instances = [];
  aws_machine_images = [];
  inspection_starts = [];
}

-- Every text is the time 20.
abbrev dates : Dates
dates = record { parse = λ t. some 20 }

abbrev item : InstanceItem
item = record {
  instance_id = some (codes "i-1");
  image_id = some (codes "ami-1");
  subnet_id = none;
}

abbrev parameters : Option Text → RequestParameters
parameters requested = record {
  instance_type = plain_type (codes "t2");
  instance_id = requested;
  resource_ids = [];
  tag_keys = [];
}

abbrev run_instances : Option Text → Record
run_instances requested = record {
  event_source = some (codes "ec2.amazonaws.com");
  error_code = none;
  event_name = some (codes "RunInstances");
  event_time = some (codes "t");
  account_id = some (codes "1");
  aws_region = some (codes "r");
  request_parameters = object (parameters requested);
  response_elements = object (item ∷ []);
}

abbrev run_event : CloudTrailInstanceEvent
run_event = record {
  occurred_at = codes "t";
  aws_account_id = codes "1";
  region = codes "r";
  ec2_instance_id = codes "i-1";
  event_type = power_on;
  instance_type = some (codes "t2");
  ec2_ami_id = some (codes "ami-1");
  subnet_id = none;
}

extract_ec2_instance_events-IsWatched_example :
    IsWatched dates watched_db (codes "1") (codes "t")
    × (is_truthy none ≡ false)
    × ((name : Text) × (some (codes "RunInstances") ≡ some name)
        × (event_type_of name ≡ some power_on))
unfolding extract_ec2_instance_events
extract_ec2_instance_events-IsWatched_example =
    extract_ec2_instance_events-IsWatched dates watched_db (run_instances none) (run_event ∷ [])
      run_event refl here

readable : (requested : Option Text) → IsReadable dates watched_db (run_instances requested)
unfolding is_valid_event extract_time_account_region is_relevant_event
readable requested = record {
  at = (codes "t", codes "1", codes "r");
  name = codes "RunInstances";
  event_type = power_on;
  parameters = parameters requested;
  items = item ∷ [];
  is_valid = refl;
  has_at = refl;
  is_relevant = refl;
  has_name = refl;
  has_type = refl;
  has_parameters = refl;
  has_items = refl;
  is_told = refl;
}

extract_ec2_instance_events-exact_example :
    (es : List CloudTrailInstanceEvent) × (extract_ec2_instance_events dates watched_db
        (run_instances none)
      ≡ some es)
    × ((i : Text) → any (event_of i) es ≡ any (item_of i) (item ∷ []))
unfolding readable
extract_ec2_instance_events-exact_example =
    extract_ec2_instance_events-exact dates watched_db (run_instances none) (readable none) refl

extract_ec2_instance_events_raises_example :
    extract_ec2_instance_events dates watched_db (run_instances (some (codes "i-1"))) ≡ none
unfolding readable
extract_ec2_instance_events_raises_example =
    extract_ec2_instance_events_raises dates watched_db (run_instances (some (codes "i-1")))
      (readable (some (codes "i-1"))) (codes "i-1") (codes "i-1") refl refl

-- A change of the RHEL tag of an image.
abbrev change : Text → Text → Bool → TagEvent
change time i is_present = record {
  occurred_at = time;
  aws_account_id = codes "1";
  region = codes "r";
  ec2_ami_id = i;
  tag = rhel_tag;
  is_present = is_present;
}

abbrev first_image : Text
first_image = codes "ami-1"

abbrev second_image : Text
second_image = codes "ami-2"

-- The tag is deleted and then created, in the other order of the list.
abbrev together : List TagEvent
together =
    change (codes "2") first_image true
    ∷ change (codes "1") first_image false
    ∷ change (codes "1") second_image true
    ∷ []

-- The tag is created and deleted, with another image's change between.
abbrev interleaved : List TagEvent
interleaved = change (codes "2") first_image false ∷ []

extract_ami_ids_by_tag_change-disjoint_example :
    let c = extract_ami_ids_by_tag_change together rhel_tag in
    (is_in_texts first_image c.tagged_ami_ids && is_in_texts first_image c.untagged_ami_ids) ≡ false
extract_ami_ids_by_tag_change-disjoint_example =
    extract_ami_ids_by_tag_change-disjoint rhel_tag first_image together

extract_ami_ids_by_tag_change-latest_example :
    let c = extract_ami_ids_by_tag_change together rhel_tag in
    (is_in_texts first_image c.tagged_ami_ids ≡ true)
    × (is_in_texts first_image c.untagged_ami_ids ≡ false)
unfolding groupby
extract_ami_ids_by_tag_change-latest_example =
    extract_ami_ids_by_tag_change-latest rhel_tag first_image together
      (record {
        ec2_ami_id = first_image;
        events = change (codes "2") first_image true ∷ change (codes "1") first_image false ∷ [];
      })
      (change (codes "2") first_image true) refl here refl refl refl

extract_ami_ids_by_tag_change_interleaved_example :
    let c =
      extract_ami_ids_by_tag_change
        (change (codes "1") first_image true ∷ change (codes "1") second_image true ∷ interleaved)
        rhel_tag in
    (is_in_texts first_image c.tagged_ami_ids ≡ true)
    × (is_in_texts first_image c.untagged_ami_ids ≡ false)
extract_ami_ids_by_tag_change_interleaved_example =
    extract_ami_ids_by_tag_change_interleaved rhel_tag (change (codes "1") first_image true)
      (change (codes "1") second_image true) interleaved refl refl
