-- ===== src/Aws/Inspections.antt =====
-- The inspection of an image: `start_image_inspection` and the updates of an image's status
-- (cloudigrade/api/clouds/aws/util.py), and `launch_inspection_instance`
-- (cloudigrade/api/clouds/aws/tasks/inspection.py).
use cloudigrade.Prelude.{
  ℕ, Bool, true, false, ◌||◌, Option, none, some, List, [], ◌∷◌, ◌++◌, map, count, find, Text,
  text_eq, ltb, ◌==◌, if◌then◌else◌, ◌>>=◌,
}
use cloudigrade.Models.{preparing, inspecting, inspected, error, Inspection, MachineImage}
use cloudigrade.Models.Images.{is_marketplace, is_cloud_access}
use cloudigrade.Aws.Tables.{AwsMachineImage, AwsDb, has_ami_id, image_of}
use cloudigrade.Aws.Images.{ImageNames, aws_content, save_image}

-- `get_aws_machine_image`: `none` for (None, None).
unfoldable pub get_aws_machine_image : Text → AwsDb → Option (AwsMachineImage × MachineImage)
get_aws_machine_image ami_id w =
    find (has_ami_id ami_id) w.aws_machine_images >>= λ a. image_of a w.db >>= λ m. some (a, m)

abbrev pub with_image : MachineImage → AwsDb → AwsDb
with_image m w = record w { db = save_image m w.db }

-- How often an inspection of the image was started.
abbrev pub attempts : ℕ → AwsDb → ℕ
attempts image_id w = count (λ i. i == image_id) w.inspection_starts

-- What follows once the image is there: whether a copy of its snapshot is queued, and the tables.
unfoldable pub begin_inspection : ℕ → MachineImage → AwsDb → Bool × AwsDb
unfolding save_image is_marketplace is_cloud_access
begin_inspection max_allowed m w =
    let prepared = with_image (record m { status = preparing }) w in
    let started = record prepared { inspection_starts = prepared.inspection_starts ++ m.id ∷ [] } in
    if m.rhel_detected_by_tag
    then (false, with_image (record m { status = inspected }) prepared)
    else if ltb max_allowed (attempts m.id w)
    then (false, with_image (record m { status = error }) prepared)
    else if is_marketplace m || is_cloud_access m
    then (false, with_image (record m { status = inspected }) started)
    else (true, started)

-- An image that is not known is passed over.
unfoldable pub start_image_inspection : ℕ → Text → AwsDb → Bool × AwsDb
unfolding get_aws_machine_image begin_inspection
start_image_inspection max_allowed ami_id w = elim (get_aws_machine_image ami_id w) [
  | none ↦ (false, w)
  | some found ↦ begin_inspection max_allowed found.1 w
]

-- `aws_marketplace_image` of the AwsMachineImage, which the properties of its image follow.
unfoldable pub save_marketplace : ImageNames → Bool → AwsMachineImage → AwsDb → AwsDb
unfolding aws_content
save_marketplace names value a w =
    let a' : AwsMachineImage = record a { aws_marketplace_image = value } in
    record w {
      db = record w.db {
        machine_images =
            map
              (λ (m : MachineImage).
                if m.id == a.machine_image_id
                then record m { content_object = some (aws_content names a') }
                else m)
              w.db.machine_images;
      };
      aws_machine_images =
          map (λ (b : AwsMachineImage). if text_eq b.ec2_ami_id a.ec2_ami_id then a' else b)
            w.aws_machine_images;
    }

abbrev pub or_keep {ℓ} : {A : Type ℓ} → Option A → A → A
or_keep none a = a
or_keep (some b) a = b

-- The image as it is read after `save_marketplace`.
unfoldable pub update_aws_image_status_inspected :
    ImageNames → Text → Option Bool → Option Inspection → AwsDb → Bool × AwsDb
unfolding get_aws_machine_image save_marketplace save_image aws_content
update_aws_image_status_inspected names ami_id aws_marketplace_image inspection_json w =
    elim (get_aws_machine_image ami_id w) [
      | none ↦ (false, w)
      | some found ↦
          let value : Bool = or_keep aws_marketplace_image found.0.aws_marketplace_image in
          let m : MachineImage = record found.1 {
            status = inspected;
            inspection_json = (elim inspection_json [
              | none ↦ found.1.inspection_json
              | some json ↦ some json
            ]);
            content_object = (elim aws_marketplace_image [
              | none ↦ found.1.content_object
              | some _ ↦ some (aws_content names (record found.0 { aws_marketplace_image = value }))
            ]);
          } in
          let marked : AwsDb = (elim aws_marketplace_image [
            | none ↦ w
            | some _ ↦ save_marketplace names value found.0 w
          ]) in
          (true, with_image m marked)
    ]

unfoldable pub update_aws_image_status_error : Text → Option Bool → AwsDb → Bool × AwsDb
unfolding get_aws_machine_image save_image
update_aws_image_status_error ami_id is_encrypted w = elim (get_aws_machine_image ami_id w) [
  | none ↦ (false, w)
  | some found ↦ (
    true,
    with_image
        (record found.1 {
          status = error;
          is_encrypted = or_keep is_encrypted found.1.is_encrypted;
        })
        w,
  )
]

-- The loop over the images of an inspection's results.
unfoldable pub persist_aws_inspection_cluster_results :
    ImageNames → List (Text × Inspection) → AwsDb → AwsDb
unfolding update_aws_image_status_inspected
persist_aws_inspection_cluster_results names [] w = w
persist_aws_inspection_cluster_results names ((ami_id, image_json) ∷ images) w =
    persist_aws_inspection_cluster_results names images
      (update_aws_image_status_inspected names ami_id none (some image_json) w).1

-- How the calls of AWS end: the snapshot is not ready, the instance was launched, the image turned out to
-- be of the marketplace, or the launch failed otherwise.
pub data LaunchAnswer : Type 0 where
  snapshot_not_ready launched marketplace_only launch_failed : LaunchAnswer

-- An exception rolls the transaction back: `none`.
unfoldable pub launch_inspection_instance : ImageNames → LaunchAnswer → Text → AwsDb → Option AwsDb
unfolding save_image save_marketplace aws_content
launch_inspection_instance names answer ami_id w =
    let inspect : Option AwsDb = elim (find (has_ami_id ami_id) w.aws_machine_images) [
      | none ↦ some w
      | some a ↦ elim (image_of a w.db) [
        | none ↦ none
        | some m ↦
            let w' = with_image (record m { status = inspecting }) w in
            elim answer [
              | snapshot_not_ready ↦ none
              | launched ↦ some w'
              | launch_failed ↦ none
              | marketplace_only ↦
                  let marked = save_marketplace names true a w' in
                  some (
                    with_image
                      (record m {
                        status = inspected;
                        content_object =
                            some (aws_content names (record a { aws_marketplace_image = true }));
                      })
                      marked)
            ]
      ]
    ] in
    elim answer [ snapshot_not_ready ↦ none | _ ↦ inspect ]
