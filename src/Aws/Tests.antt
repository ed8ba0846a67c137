-- ===== src/Aws/Tests.antt =====
-- The theorems about images at concrete inputs.
use cloudigrade.Prelude.{
  ◌≡◌, refl, ◌≤◌, ◌+◌, true, false, none, some, [], ◌∷◌, Text, codes, find, any, ◌||◌, not,
  if◌then◌else◌,
}
use cloudigrade.Models.{pending, inspected, Inspection, MachineImage, empty_db}
use cloudigrade.Aws.Tables.{none_platform, AwsMachineImage, AwsDb}
use cloudigrade.Aws.Images.{ImageNames, has_image_id, counts_image_run}
use cloudigrade.Aws.Inspections.{
  get_aws_machine_image, attempts, start_image_inspection, update_aws_image_status_inspected,
}
use cloudigrade.Aws.Attempts.{done, more, start, ImageReach-attempts}
use cloudigrade.Aws.Saved.{
  exceeds, is_special, expected_status, start_image_inspection-settles,
  update_aws_image_status_inspected-saves,
}

abbrev names : ImageNames
names = record { lower = λ t. t; rhel_images_aws_accounts = [] }

abbrev ami : Text
ami = codes "ami-1"

abbrev aws_image : AwsMachineImage
aws_image = record {
  ec2_ami_id = ami;
  platform = none_platform;
  owner_aws_account_id = some 9;
  region = none;
  aws_marketplace_image = false;
  machine_image_id = 3;
  name = none;
}

abbrev image : MachineImage
image = record {
  id = 3;
  inspection_json = none;
  is_encrypted = false;
  status = pending;
  rhel_detected_by_tag = false;
  openshift_detected = false;
  architecture = none;
  content_object = some (record { is_cloud_access = false; is_marketplace = false });
}

-- The image, a run of it and a usage that counts the run.
abbrev image_db : AwsDb
image_db = record {
  db = record empty_db {
    machine_images = image ∷ [];
    runs =
        record {
          id = 8;
          start_time = 10;
          end_time = none;
          machineimage_id = some 3;
          instance_id = 7;
          instance_type = none;
          memory = none;
          vcpu = none;
          created_at = 10;
          updated_at = 10;
        }
        ∷ [];
    usages =
        record {
          id = 2;
          date = 0;
          user_id = 5;
          maximum_counts = [];
          potentially_related_runs = 8 ∷ [];
          updated_at = 10;
        }
        ∷ [];
  };
  aws_cloud_accounts = [];
  aws_instances = [];
  aws_machine_images = aws_image ∷ [];
  inspection_starts = [];
}

abbrev results : Inspection
results = record {
  rhel_version = none;
  rhel_enabled_repos_found = some true;
  rhel_product_certs_found = none;
  rhel_release_files_found = none;
  rhel_signed_packages_found = none;
  syspurpose = none;
}

start_image_inspection-settles_example :
    let (queued, w') = start_image_inspection 5 ami image_db in
    (find (has_image_id 3) w'.db.machine_images
      ≡ some (record image { status = expected_status 5 image image_db }))
    × (queued ≡ not (image.rhel_detected_by_tag || exceeds 5 image image_db || is_special image))
    × (attempts 3 w'
        ≡ attempts 3 image_db
          + (if image.rhel_detected_by_tag || exceeds 5 image image_db then 0 else 1))
    × (any (counts_image_run w'.db 3) w'.db.usages ≡ false)
unfolding get_aws_machine_image
start_image_inspection-settles_example =
    start_image_inspection-settles 5 ami image_db aws_image image refl

update_aws_image_status_inspected-saves_example :
    let (ok, w') = update_aws_image_status_inspected names ami none (some results) image_db in
    (ok ≡ true)
    × (find (has_image_id 3) w'.db.machine_images
        ≡ some (record image { status = inspected; inspection_json = some results }))
    × (any (counts_image_run w'.db 3) w'.db.usages ≡ false)
unfolding get_aws_machine_image
update_aws_image_status_inspected-saves_example =
    update_aws_image_status_inspected-saves names ami results image_db aws_image image refl

-- The limit is zero, and the inspection is asked for twice.
ImageReach-attempts_example :
    attempts 3 (start_image_inspection 0 ami (start_image_inspection 0 ami image_db).1).1 ≤ 0 + 1
ImageReach-attempts_example =
    ImageReach-attempts 0 3 names image_db refl
      (more (more done (start image_db ami)) (start (start_image_inspection 0 ami image_db).1 ami))
